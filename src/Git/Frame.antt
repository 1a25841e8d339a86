-- ===== src/Git/Frame.antt =====
-- Running git and ending an operation: what they leave alone and what they store.
use phodex.Base.{
  ℕ, suc, String, ◌≡◌, refl, Bool, Option, some, arith, inl, inr, set_row, get_row-set_row,
  key-get_row, List, [], ◌∷◌, strip,
}
use phodex.Json.{Fields}
use phodex.Models.{GitOperation}
use phodex.World.{World, Result-cases, Exec, ok, pure, ◌>>=◌, ◌>>◌}
use phodex.Events.Sequence.{append_event_returns, append_event_stores}
use phodex.Subprocess.Rounds.{consume_rounds}
use phodex.Subprocess.{both, Variable, spawn, wait}
use phodex.Git.{
  Git, Changes, changed, set_status, reload, get_by_id, close_operation, run_git_streamed,
  run_git_capture, capture_command, push_changes, resolve_env,
}
use phodex.Git.Secrets.{IsCleanLog, run_git_streamed-Adds}
use phodex.Git.Review.{find_operation, SameRows, SameRows-refl, SameRows-trans, Adds-SameRows}

-- the callbacks leave the operations and the tasks alone
pub record IsQuiet (g : Git) : Type 0 where
  pub resolver :
      (u : ℕ) (path : String) (w : World) → SameRows w (resolve_env g.env_resolver u path w).1
  pub hook :
      (f : ℕ → String → Exec Bool)
      → g.discard_hook ≡ some f
      → (u : ℕ) (path : String) (w : World) → SameRows w (f u path w).1

pub bind-SameRows :
    {A B : Type 0} (m : Exec A) (f : A → Exec B) (w : World)
    → SameRows w (m w).1
    → ((a : A) (v : World) → SameRows v (f a v).1)
    → SameRows w ((m >>= f) w).1
bind-SameRows m f w h k = elim (Result-cases (m w).0) [
  | inl (a, done) ↦ rw done (SameRows-trans w (m w).1 _ h (k a (m w).1))
  | inr (e, raised) ↦ rw raised h
]

module _ (g : Git) (task_id : ℕ) (path : String) where
  streamed-SameRows :
      (args : List String) (env : Option (List Variable)) (secrets : List String) (w : World)
      → SameRows w (run_git_streamed g task_id path args env secrets w).1
  streamed-SameRows args env secrets w =
      Adds-SameRows (IsCleanLog task_id args secrets) w _
        (run_git_streamed-Adds g task_id path args env secrets w)

  capture-SameRows : (args : List String) (w : World) → SameRows w (run_git_capture g path args w).1
  unfolding run_git_capture spawn wait
  capture-SameRows args w = elim (Result-cases (g.host (capture_command path args) w)) [
    | inl (r, started) ↦
        let spawned = record w { calls = suc w.calls } in
        rw started (
          SameRows-trans w spawned _ (record { operations = refl; tasks = refl })
            (consume_rounds (λ line source. pure tt) SameRows SameRows-refl SameRows-trans
              (λ line source. SameRows-refl) r.lines both spawned))
    | inr (e, missing) ↦ rw missing (record { operations = refl; tasks = refl })
  ]

  module _ (message : String) (env : Option (List Variable)) (secrets : List String) where
    abbrev run : List String → Exec (Unit {0})
    run args = run_git_streamed g task_id path args env secrets

    abbrev read_branch : Exec String
    read_branch = do
      pushed_branch ← run_git_capture g path ("rev-parse" ∷ "--abbrev-ref" ∷ "HEAD" ∷ [])
      pure (strip pushed_branch)

    abbrev push_args : List String
    push_args = "push" ∷ "-u" ∷ "origin" ∷ "HEAD" ∷ []

    abbrev commit_args : List String
    commit_args = "commit" ∷ "-m" ∷ message ∷ []

    abbrev add_args : List String
    add_args = "add" ∷ "-A" ∷ []

    then-SameRows :
        (args : List String) (k : Exec String)
        → ((v : World) → SameRows v (k v).1)
        → (w : World) → SameRows w ((run args >> k) w).1
    then-SameRows args k keeps w =
        bind-SameRows (run args) (λ _. k) w (streamed-SameRows args env secrets w) (λ _. keeps)

    pub push_changes-SameRows :
        (w : World) → SameRows w (push_changes g task_id path message env secrets w).1
    unfolding push_changes
    push_changes-SameRows =
        then-SameRows add_args (run commit_args >> (run push_args >> read_branch)) (
          then-SameRows commit_args (run push_args >> read_branch) (
            then-SameRows push_args read_branch (λ w.
              bind-SameRows (run_git_capture g path ("rev-parse" ∷ "--abbrev-ref" ∷ "HEAD" ∷ []))
                (λ b. pure (strip b)) w (capture-SameRows _ w) (λ b. SameRows-refl))))

module _ (task_id id : ℕ) (c : Changes) (kind : String) (payload : Fields) (op : GitOperation)
    (w : World) (found : find_operation id w.db ≡ some op) where
  pub close_lem :
      let (r, w') = close_operation task_id id c kind payload w in
      (r ≡ ok (changed c op))
      × (w'.db.git_operations ≡ set_row (λ x. x.id) id (changed c) w.db.git_operations)
      × (w'.db.tasks ≡ w.db.tasks)
  unfolding close_operation set_status reload get_by_id
  close_lem =
      let after : find_operation id (set_status id c w).1.db ≡ some (changed c op) = ground (
        arith,
        key-get_row (λ (x : GitOperation). x.id) id w.db.git_operations op,
        get_row-set_row (λ (x : GitOperation). x.id) id id (changed c) w.db.git_operations
            (λ x. refl),
      ) in
      rw append_event_returns (
        rw append_event_stores
          (rw after (refl, rw append_event_stores refl, rw append_event_stores refl)))
