-- ===== src/Git/Outcome.antt =====
-- How a confirmed or discarded operation ends.
use phodex.Base.{
  ◌≢◌, ℕ, String, ◌≡◌, refl, ◌∙◌, Option, some, arith, ◌==◌, ◌⊎◌, inl, inr, set_row,
  get_row-set_row, set_row-IsKeyed, if◌then◌else◌, List, ==_self,
}
use phodex.Json.{Fields}
use phodex.Models.{GitOperation, GitOperationStatus}
use phodex.World.{World, Error, Result, Result-cases, ok, err, git_command_error}
use phodex.Events.{append_event}
use phodex.Events.Sequence.{append_event_returns, append_event_stores}
use phodex.Subprocess.{Variable}
use phodex.Git.{
  Git, Changes, changed, set_status, settle, completed_with, failed_with, running_with,
  completed_payload, failed_payload, started_payload, push_changes, resolve_env, secrets_of,
  commit_and_push, confirm, chosen_message, close_operation,
}
use phodex.Git.Review.{find_operation, Keyed, IsOpen, load_pending_open, SameRows, SameRows-trans}
use phodex.Git.Frame.{IsQuiet, push_changes-SameRows, close_lem}

-- how the operation ends by the result of the commands, and what is returned
abbrev pub Ended : GitOperation → Result String → Result GitOperation → Type 0
Ended op r returned =
    ((b : String)
      → r ≡ ok b
      → (op.status ≡ GitOperationStatus.completed)
        × (op.pushed_branch ≡ some b)
        × (returned ≡ ok op))
    × ((e : String)
        → r ≡ err (git_command_error e)
        → (op.status ≡ GitOperationStatus.failed)
          × (op.error_message ≡ some e)
          × (returned ≡ ok op))
    × ((e : Error)
        → r ≡ err e
        → ((s : String) → e ≢ git_command_error s)
        → (op.status ≡ GitOperationStatus.running) × (returned ≡ err e))

-- one write to the row of an operation, or two
module _ (id : ℕ) (op : GitOperation) (w : World) (found : find_operation id w.db ≡ some op) where
  pub rows_changed :
      (c : Changes) (w' : World)
      → w'.db.git_operations ≡ set_row (λ x. x.id) id (changed c) w.db.git_operations
      → (j : ℕ)
      → find_operation j w'.db ≡ (if id == j then some (changed c op) else find_operation j w.db)
  rows_changed c w' stored j = rw stored (
      ground (
        arith,
        get_row-set_row (λ (x : GitOperation). x.id) j id (changed c) w.db.git_operations
            (λ x. refl),
      ))

  pub changed-Keyed :
      (c : Changes) (w' : World)
      → w'.db.git_operations ≡ set_row (λ x. x.id) id (changed c) w.db.git_operations
      → Keyed w.db
      → Keyed w'.db
  changed-Keyed c w' stored keyed = rw stored (
      set_row-IsKeyed (λ (x : GitOperation). x.id) id (changed c) w.db.git_operations (λ x. refl)
        keyed)

module _ (g : Git) (quiet : IsQuiet g) (user_id task_id : ℕ) where
  -- the result is that of the git commands, with an environment that the resolver gave
  abbrev pub IsPushed : GitOperation → Result String → Type 0
  IsPushed op r =
      (env : Option (List Variable)) × (u v : World) × ((resolve_env g.env_resolver user_id
          op.repo_path u).0
        ≡ ok env)
      × (r ≡ (push_changes g task_id op.repo_path op.commit_message env (secrets_of env) v).0)

  pub commit_and_push_cases :
      (op : GitOperation) (w : World)
      → ((r : Result String) × (v : World) × SameRows w v
          × IsPushed op r
          × (commit_and_push g user_id task_id op w ≡ settle task_id op.id r v))
        ⊎ ((e : Error) × (v : World) × SameRows w v
            × ((u : World) × ((resolve_env g.env_resolver user_id op.repo_path u).0 ≡ err e))
            × (commit_and_push g user_id task_id op w ≡ (err e, v)))
  unfolding commit_and_push
  commit_and_push_cases op w =
      let payload = started_payload op.repo_path in
      let w1 = (append_event task_id "git.started" payload w).1 in
      let started : SameRows w w1 = record {
        operations = rw append_event_stores refl;
        tasks = rw append_event_stores refl;
      } in
      let asked = resolve_env g.env_resolver user_id op.repo_path w1 in
      let known = SameRows-trans w w1 asked.1 started (quiet.resolver user_id op.repo_path w1) in
      rw append_event_returns (elim (Result-cases asked.0) [
        | inl (env, given) ↦
            let pushed =
              push_changes g task_id op.repo_path op.commit_message env (secrets_of env) asked.1 in
            inl (
              pushed.0,
              pushed.1,
              SameRows-trans w asked.1 pushed.1 known (
                  push_changes-SameRows g task_id op.repo_path op.commit_message env
                    (secrets_of env) asked.1),
              (env, w1, asked.1, given, refl),
              rw given refl,
            )
        | inr (e, raised) ↦ inr (e, asked.1, known, (w1, raised), rw raised refl)
      ])

module _ (task_id id : ℕ) (message : String) (op : GitOperation) (w v : World)
    (found : find_operation id w.db ≡ some op)
    (same : SameRows (set_status id (running_with message) w).1 v) where
  abbrev pub op1 : GitOperation
  op1 = changed (running_with message) op

  running_rows :
      v.db.git_operations
      ≡ set_row (λ x. x.id) id (changed (running_with message)) w.db.git_operations
  unfolding set_status
  running_rows = same.operations

  pub v_rows :
      (j : ℕ) → find_operation j v.db ≡ (if id == j then some op1 else find_operation j w.db)
  v_rows = rows_changed id op w found (running_with message) v running_rows

  pub v_found : find_operation id v.db ≡ some op1
  v_found = v_rows id ∙ rw (==_self id) refl

  pub v-Keyed : Keyed w.db → Keyed v.db
  v-Keyed = changed-Keyed id op w found (running_with message) v running_rows

  module _ (c : Changes) (kind : String) (payload : Fields) where
    abbrev pub closed : Result GitOperation × World
    closed = close_operation task_id id c kind payload v

    pub closed_rows :
        (j : ℕ)
        → find_operation j closed.1.db
          ≡ (if id == j then some (changed c op1) else find_operation j w.db)
    closed_rows j =
        let stored = (close_lem task_id id c kind payload op1 v v_found).1 in
        ground (arith, rows_changed id op1 v v_found c closed.1 stored j, v_rows j)

    pub closed-Keyed : Keyed w.db → Keyed closed.1.db
    closed-Keyed k =
        changed-Keyed id op1 v v_found c closed.1
          (close_lem task_id id c kind payload op1 v v_found).1 (v-Keyed k)

  pub settle-Ended :
      (r : Result String)
      → (op' : GitOperation) × ((j : ℕ)
          → find_operation j (settle task_id id r v).1.db
            ≡ (if id == j then some op' else find_operation j w.db))
        × (op'.commit_message ≡ message)
        × Ended op' r (settle task_id id r v).0
  unfolding settle
  settle-Ended (ok b) = (
    changed (completed_with b) op1,
    closed_rows (completed_with b) "git.completed" completed_payload,
    refl,
    (
      λ b' same. (
        refl,
        cc,
        (close_lem task_id id (completed_with b) "git.completed" completed_payload op1 v v_found).0,
      ),
      λ e h. absurd (cc),
      λ e h other. absurd (cc),
    ),
  )
  settle-Ended (err (git_command_error e)) = (
    changed (failed_with e) op1,
    closed_rows (failed_with e) "git.failed" (failed_payload e),
    refl,
    (
      λ b h. absurd (cc),
      λ e' same. (
        refl,
        cc,
        (close_lem task_id id (failed_with e) "git.failed" (failed_payload e) op1 v v_found).0,
      ),
      λ e' same other. absurd (other e (cc)),
    ),
  )
  settle-Ended (err e) =
      (op1, v_rows, refl, (λ b h. absurd (cc), λ e' h. absurd (cc), λ e' same other. (refl, cc)))

module _ (g : Git) (quiet : IsQuiet g) (user_id task_id : ℕ) (w : World) (keyed : Keyed w.db)
    (op : GitOperation) (found : find_operation op.id w.db ≡ some op)
    (opened : IsOpen user_id task_id op w.db) where
  -- How confirming an operation ends that is the user's and waits for its review. If the environment
  -- could be resolved, the result of the git commands, run with it and with the message, decides: with a
  -- branch, the operation is completed with this branch and returned; with the error of a git command, it
  -- is failed with this error and returned; any other exception goes up, and the operation is left
  -- running. An exception of the resolver goes up and leaves it running, too. In every case the message
  -- is stored, and no other operation changes. The callbacks are assumed to leave operations and tasks
  -- alone.
  pub confirm_outcome :
      (text : Option String)
      → let message = chosen_message text op.commit_message in
        let (returned, w') = confirm g user_id task_id op.id text w in
        (op' : GitOperation) × ((j : ℕ)
          → find_operation j w'.db ≡ (if op.id == j then some op' else find_operation j w.db))
        × (op'.commit_message ≡ message)
        × (((r : Result String) × IsPushed g quiet user_id task_id
                (record op { commit_message = message })
                r
              × Ended op' r returned)
            ⊎ ((e : Error) × ((u : World) × ((resolve_env g.env_resolver user_id op.repo_path u).0
                    ≡ err e))
                × (op'.status ≡ GitOperationStatus.running)
                × (returned ≡ err e)))
  unfolding confirm set_status
  confirm_outcome text =
      let m = chosen_message text op.commit_message in
      let w1 = (set_status op.id (running_with m) w).1 in
      let op1 = record op { commit_message = m } in
      rw (load_pending_open user_id task_id op.id w keyed op found opened)
        (elim (commit_and_push_cases g quiet user_id task_id op1 w1) [
          | inl (r, v, same, pushed, e) ↦
              let (op', rows, said, ends) = settle-Ended task_id op.id m op w v found same r in
              rw e (op', rows, said, inl (r, pushed, ends))
          | inr (e, v, same, thrown, up) ↦ rw up (
            changed (running_with m) op,
            v_rows task_id op.id m op w v found same,
            refl,
            inr (e, thrown, refl, refl),
          )
        ])
