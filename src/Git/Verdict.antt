-- ===== src/Git/Verdict.antt =====
-- What decides whether a confirmed operation is completed: the runs of the three git commands.
use phodex.Base.{
  ℕ, String, ◌≡◌, refl, ◌∙◌, Option, none, some, List, [], ◌∷◌, or_else, join, strip, Option-cases,
  inl, inr,
}
use phodex.Models.{GitOperation, GitOperationStatus}
use phodex.World.{World, Result, ok, err, git_command_error}
use phodex.Subprocess.{Variable, Command, Run, spawn, wait}
use phodex.Git.{
  Git, command, capture_command, command_error, heard, is_stdout, run_git_streamed, run_git_capture,
  push_changes, resolve_env, secrets_of, chosen_message, confirm, set_status, running_with, settle,
  changed, completed_with, failed_with, completed_payload, failed_payload,
}
use phodex.Git.Review.{find_operation, Keyed, IsOpen, load_pending_open}
use phodex.Git.Frame.{IsQuiet, close_lem}
use phodex.Git.Outcome.{commit_and_push_cases, v_found}

abbrev branch_args : List String
branch_args = "rev-parse" ∷ "--abbrev-ref" ∷ "HEAD" ∷ []

abbrev verdict_of : String → Option String → Result String
verdict_of b none = ok b
verdict_of b (some e) = err (git_command_error e)

module _ (g : Git) (answer : Command → Run)
    (answers : (c : Command) (v : World) → g.host c v ≡ ok (answer c)) (path message : String)
    (env : Option (List Variable)) where
  -- the text of the exception of one command, if it fails
  abbrev error_of : List String → Option String
  error_of args = command_error g args (secrets_of env) (answer (command path args env))

  -- that of the first of the three commands that fails
  abbrev pub first_error : Option String
  first_error = or_else (error_of ("add" ∷ "-A" ∷ [])) (
      or_else (error_of ("commit" ∷ "-m" ∷ message ∷ []))
        (error_of ("push" ∷ "-u" ∷ "origin" ∷ "HEAD" ∷ [])))

  abbrev pub branch : String
  branch =
      strip (strip (join "\n" (heard is_stdout (answer (capture_command path branch_args)).lines)))

  abbrev unit_of : Option String → Result (Unit {0})
  unit_of none = ok tt
  unit_of (some e) = err (git_command_error e)

  streamed_lem :
      (task_id : ℕ) (args : List String) (v : World)
      → (run_git_streamed g task_id path args env (secrets_of env) v).0 ≡ unit_of (error_of args)
  unfolding run_git_streamed spawn wait
  streamed_lem task_id args v =
      rw (answers (command path args env) v) (elim (Option-cases (error_of args)) [
        | inl fine ↦ rw fine refl
        | inr (e, failed) ↦ rw failed refl
      ])

  capture_lem :
      (v : World)
      → (run_git_capture g path branch_args v).0
        ≡ ok (strip (join "\n" (heard is_stdout (answer (capture_command path branch_args)).lines)))
  unfolding run_git_capture spawn wait
  capture_lem v = rw (answers (capture_command path branch_args) v) refl

  push_changes_lem :
      (task_id : ℕ) (v : World)
      → (push_changes g task_id path message env (secrets_of env) v).0
        ≡ verdict_of branch first_error
  unfolding push_changes
  push_changes_lem task_id v = elim (Option-cases (error_of ("add" ∷ "-A" ∷ []))) [
    | inr (e, failed) ↦ rw streamed_lem (rw failed refl)
    | inl added ↦ rw streamed_lem (
        rw added (elim (Option-cases (error_of ("commit" ∷ "-m" ∷ message ∷ []))) [
          | inr (e, failed) ↦ rw streamed_lem (rw failed refl)
          | inl committed ↦ rw streamed_lem (
              rw committed
                (elim (Option-cases (error_of ("push" ∷ "-u" ∷ "origin" ∷ "HEAD" ∷ []))) [
                  | inr (e, failed) ↦ rw streamed_lem (rw failed refl)
                  | inl pushed ↦ rw streamed_lem (rw pushed (rw capture_lem refl))
                ]))
        ]))
  ]

-- what is returned: completed with the branch if there is no error, and failed with it otherwise
abbrev Ends : String → Option String → Result GitOperation → Type 0
Ends pushed error r =
    (op' : GitOperation) × (r ≡ ok op')
    × (error ≡ none
        → (op'.status ≡ GitOperationStatus.completed) × (op'.pushed_branch ≡ some pushed))
    × ((e : String)
        → error ≡ some e
        → (op'.status ≡ GitOperationStatus.failed) × (op'.error_message ≡ some e))

settle-Ends :
    (task_id id : ℕ) (b : String) (error : Option String) (op : GitOperation) (v : World)
    → find_operation id v.db ≡ some op
    → Ends b error (settle task_id id (verdict_of b error) v).0
unfolding settle
settle-Ends task_id id b none op v found = (
  changed (completed_with b) op,
  (close_lem task_id id (completed_with b) "git.completed" completed_payload op v found).0,
  λ fine. (refl, refl),
  λ e failed. absurd (cc),
)
settle-Ends task_id id b (some error) op v found = (
  changed (failed_with error) op,
  (close_lem task_id id (failed_with error) "git.failed" (failed_payload error) op v found).0,
  λ fine. absurd (cc),
  λ e failed. (refl, failed),
)

module _ (g : Git) (quiet : IsQuiet g) (answer : Command → Run)
    (answers : (c : Command) (v : World) → g.host c v ≡ ok (answer c)) (user_id task_id : ℕ)
    (w : World) (keyed : Keyed w.db) (op : GitOperation)
    (found : find_operation op.id w.db ≡ some op) (opened : IsOpen user_id task_id op w.db)
    (env : Option (List Variable))
    (resolved : (v : World) → (resolve_env g.env_resolver user_id op.repo_path v).0 ≡ ok env) where
  -- If git can be run and the environment is known, `confirm` returns the operation: completed, with
  -- the branch that git reports, when each of `git add`, `git commit` and `git push` exits in time
  -- with code 0, and otherwise failed, with the error of the first of them that does not.
  pub confirm_verdict :
      (text : Option String)
      → let message = chosen_message text op.commit_message in
        (op' : GitOperation) × ((confirm g user_id task_id op.id text w).0 ≡ ok op')
        × (first_error g answer answers op.repo_path message env ≡ none
            → (op'.status ≡ GitOperationStatus.completed)
              × (op'.pushed_branch ≡ some (branch g answer answers op.repo_path message env)))
        × ((e : String)
            → first_error g answer answers op.repo_path message env ≡ some e
            → (op'.status ≡ GitOperationStatus.failed) × (op'.error_message ≡ some e))
  unfolding confirm set_status
  confirm_verdict text =
      let m = chosen_message text op.commit_message in
      let error = first_error g answer answers op.repo_path m env in
      let b = branch g answer answers op.repo_path m env in
      let w1 = (set_status op.id (running_with m) w).1 in
      let op1 = record op { commit_message = m } in
      rw (load_pending_open user_id task_id op.id w keyed op found opened)
        (elim (commit_and_push_cases g quiet user_id task_id op1 w1) [
          | inl (r, v, same, (env', u, z, given, is), e) ↦
              let known : env' ≡ env = cc (resolved u) in
              let decided : r ≡ verdict_of b error =
                is ∙ rw known (push_changes_lem g answer answers op.repo_path m env task_id z) in
              rw e (
                rw decided (
                  settle-Ends task_id op.id b error (changed (running_with m) op) v
                    (v_found task_id op.id m op w v found same)))
          | inr (e, v, same, (u, raised), up) ↦ absurd (cc (resolved u))
        ])
