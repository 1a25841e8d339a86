-- ===== src/Orchestrator/Launch.antt =====
-- How a job that waited for its approval goes on.
use phodex.Base.{
  ℕ, suc, ◌≡◌, refl, true, false, none, some, arith, get_row-set_row, Bool-cases, inl, inr,
}
use phodex.Models.{TaskStatus, Task, is_cancelled}
use phodex.World.{World, ok}
use phodex.Events.Sequence.{append_event_returns, append_event_stores}
use phodex.Tasks.{get_status, transition_for_worker, with_changes, worker_changes}
use phodex.Tasks.Transitions.{find_task, moved, transition_stores}
use phodex.Orchestrator.{Orchestrator, ExecutionContext, time_out, launch_approved}
use phodex.Orchestrator.Runtime.{remove_state}
use phodex.Orchestrator.Jobs.{
  signalled, timed_out, interrupted, ended, resume_job, is_granted, find_state,
}

module _ (o : Orchestrator) (task_id ref : ℕ) (context : ExecutionContext) (w : World) where
  get_status_lem :
      (t : Task) → find_task task_id w.db ≡ some t → get_status task_id w ≡ (ok t.status, w)
  unfolding get_status
  get_status_lem t found = ground arith

  module _ (t : Task) (found : find_task task_id w.db ≡ some t) where
    -- the row that the timeout stores
    failed_row : Task
    failed_row =
        moved task_id TaskStatus.failed (some "approval_timeout") (some "Approval timed out") none w
          t

    stored :
        let (r, w') =
          transition_for_worker task_id TaskStatus.failed
            (some "approval_timeout")
            (some "Approval timed out")
            none
            w in
        (r ≡ ok failed_row) × (find_task task_id w'.db ≡ some failed_row)
    unfolding failed_row
    stored =
        let e =
          transition_stores task_id TaskStatus.failed (some "approval_timeout")
            (some "Approval timed out") none w t found in
        (
          e.0,
          rw (e.1) (
              ground (
                arith,
                get_row-set_row (λ (x : Task). x.id) task_id task_id
                    (with_changes (w.env.now (suc w.calls)) TaskStatus.failed (
                      worker_changes (w.env.now w.calls) TaskStatus.failed t
                        (some "approval_timeout") (some "Approval timed out") none))
                    w.db.tasks (λ x. refl),
              )),
        )

    time_out_returns : (time_out o task_id w).0 ≡ ok tt
    unfolding time_out
    time_out_returns = rw (stored.0) (rw append_event_returns refl)

    time_out_stores : find_task task_id (time_out o task_id w).1.db ≡ some failed_row
    unfolding time_out
    time_out_stores = rw (stored.0) (rw append_event_returns (rw append_event_stores (stored.1)))

  -- A job that waited goes on to launch its runtime only with a grant, for a task that is not cancelled
  -- by then: without the grant, with the task cancelled, or interrupted, it ends, and all that it
  -- does is to give up its entry among the states.
  pub no_launch :
      (is_granted (find_state ref w) ≡ false
        → resume_job o task_id ref signalled context w ≡ (remove_state task_id ref w, ended))
      × ((t : Task)
          → find_task task_id w.db ≡ some t
          → is_cancelled t.status ≡ true
          → resume_job o task_id ref signalled context w ≡ (remove_state task_id ref w, ended))
      × (resume_job o task_id ref interrupted context w ≡ (remove_state task_id ref w, ended))
  unfolding resume_job launch_approved
  no_launch = (
    λ ungranted. rw ungranted refl,
    λ t found gone. elim (Bool-cases (is_granted (find_state ref w))) [
      | inl granted ↦ rw granted (rw (get_status_lem t found) (rw gone refl))
      | inr ungranted ↦ rw ungranted refl
    ],
    refl,
  )

  -- A wait that times out ends the job and stores a failed task whose error is the timeout, whatever the
  -- status and the error of the task were: also those of a task that was rejected or cancelled.
  pub time_out_overwrites :
      (t : Task)
      → find_task task_id w.db ≡ some t
      → let (w', point) = resume_job o task_id ref timed_out context w in
        (point ≡ ended)
        × (t' : Task) × (find_task task_id w'.db ≡ some t')
        × (t'.status ≡ TaskStatus.failed)
        × (t'.error_message ≡ some "Approval timed out")
  unfolding resume_job remove_state failed_row
  time_out_overwrites t found = (
    rw (time_out_returns t found) refl,
    failed_row t found,
    rw (time_out_returns t found) (time_out_stores t found),
    refl,
    refl,
  )
