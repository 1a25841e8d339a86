-- ===== src/Orchestrator/Halt.antt =====
-- A job whose task was rejected or cancelled does not launch its runtime any more.
use phodex.Base.{ℕ, String, ◌≡◌, refl, sym, ◌∙◌, true, false, Option, some, IsKeyed, ==_self}
use phodex.Models.{Task, ApprovalRequest, is_cancelled, is_finished}
use phodex.World.{World, Exec}
use phodex.Tasks.{cancel_task}
use phodex.Tasks.Transitions.{find_task}
use phodex.Tasks.Cancellation.{cancel_task_outcome}
use phodex.Approvals.{reject}
use phodex.Approvals.Resolution.{find_approval, Keyed, IsOpen}
use phodex.Orchestrator.{Orchestrator, ExecutionContext, engine, time_out, crash}
use phodex.Orchestrator.Jobs.{
  Wake, signalled, timed_out, interrupted, resume_job, is_granted, find_state,
}
use phodex.Orchestrator.Contract.{IsQuiet, engine-IsLawful}
use phodex.Orchestrator.Verdicts.{reject-SameStates}
use phodex.Orchestrator.Launch.{no_launch}

-- the orchestrator with another runtime
abbrev pub with_run : Orchestrator → (ℕ → ℕ → ExecutionContext → Exec (Unit {0})) → Orchestrator
with_run o run = record o { run = run }

-- whatever the runtime is, and however the wait ends, the job does the same: it does not run it
abbrev pub NeverRuns : Orchestrator → (task_id ref : ℕ) → World → Type 0
NeverRuns o task_id ref v =
    (run : ℕ → ℕ → ExecutionContext → Exec (Unit {0})) (wake : Wake) (context : ExecutionContext)
    → resume_job (with_run o run) task_id ref wake context v
      ≡ resume_job o task_id ref wake context v

ungranted_NeverRuns :
    (o : Orchestrator) (task_id ref : ℕ) (v : World)
    → is_granted (find_state ref v) ≡ false
    → NeverRuns o task_id ref v
unfolding resume_job time_out crash
ungranted_NeverRuns o task_id ref v ungranted run signalled context =
    (no_launch (with_run o run) task_id ref context v).0 ungranted
    ∙ sym ((no_launch o task_id ref context v).0 ungranted)
ungranted_NeverRuns o task_id ref v ungranted run timed_out context = refl
ungranted_NeverRuns o task_id ref v ungranted run interrupted context = refl

gone_NeverRuns :
    (o : Orchestrator) (task_id ref : ℕ) (v : World) (t : Task)
    → find_task task_id v.db ≡ some t
    → is_cancelled t.status ≡ true
    → NeverRuns o task_id ref v
unfolding resume_job time_out crash
gone_NeverRuns o task_id ref v t found gone run signalled context =
    (no_launch (with_run o run) task_id ref context v).1 t found gone
    ∙ sym ((no_launch o task_id ref context v).1 t found gone)
gone_NeverRuns o task_id ref v t found gone run timed_out context = refl
gone_NeverRuns o task_id ref v t found gone run interrupted context = refl

module _ (o : Orchestrator) (user_id : ℕ) (w : World) where
  -- After a rejection that finds the request open, a job of the task that had no grant does not run its
  -- runtime, however its wait ends, in whatever world has left the job's state as it was.
  pub rejected-NeverRuns :
      (approval_id : ℕ) (note : Option String) (a : ApprovalRequest) (t : Task) (ref : ℕ)
      → Keyed w.db
      → find_approval approval_id w.db ≡ some a
      → IsOpen user_id a t w.db
      → is_granted (find_state ref w) ≡ false
      → (v : World)
      → find_state ref v ≡ find_state ref (reject (some (engine o)) user_id approval_id note w).1
      → NeverRuns o a.task_id ref v
  rejected-NeverRuns approval_id note a t ref keyed found opened ungranted v kept =
      let (_, heap, _) = reject-SameStates o user_id approval_id note w keyed a t found opened in
      ungranted_NeverRuns o a.task_id ref v (rw kept (rw heap ungranted))

  -- After a cancellation of a live task by its owner, no job of the task runs its runtime, granted or not
  -- and however its wait ends, in whatever world has left the task as it was. Writing to the process is
  -- assumed to succeed and to leave tasks and approval requests alone.
  pub cancelled-NeverRuns :
      IsQuiet o
      → (task_id : ℕ) (t : Task) (ref : ℕ) → IsKeyed (λ (x : Task). x.id) w.db.tasks
      → find_task task_id w.db ≡ some t
      → t.user_id ≡ user_id
      → is_finished t.status ≡ false
      → (v : World)
      → find_task task_id v.db
        ≡ find_task task_id (cancel_task (some (engine o)) user_id task_id w).1.db
      → NeverRuns o task_id ref v
  cancelled-NeverRuns quiet task_id t ref keyed found own live v kept =
      let outcome =
        cancel_task_outcome (some (engine o)) (engine-IsLawful o quiet) task_id user_id w keyed in
      let (t', _, is, _, _, rows) = ((outcome.1 t found).1 own).2 live in
      gone_NeverRuns o task_id ref v t' (kept ∙ rows task_id ∙ rw (==_self task_id) refl)
        (rw is refl)
