-- ===== src/Tasks/Cancellation.antt =====
-- `cancel_task`, by the status and the owner of the task.
use phodex.Base.{
  ℕ, suc, ◌≡◌, refl, ◌≢◌, true, false, Option, none, some, arith, ◌==◌, if◌then◌else◌, set_row,
  get_row-set_row, All-set_row, IsKeyed, keep_if, first_row-IsKeyed, Option-cases, Bool-cases, inl,
  inr,
}
use phodex.Models.{TaskStatus, Task, is_finished, is_cancelled}
use phodex.World.{World, not_found, conflict, ok, err, or_raise}
use phodex.Worker.{WorkerEngine, Lawful, cancel_returns, cancel_keeps}
use phodex.Events.Sequence.{append_event_returns, append_event_stores}
use phodex.Tasks.{
  update_status, with_changes, no_changes, Changes, announce_cancel, finish_cancel, cancel_task,
  get_task, by_id_and_user, invalidate_usage,
}
use phodex.Tasks.Transitions.{find_task, update_status_lem}
use phodex.Tasks.Lifecycle.{IsTimed, AllTimed}

module _ (engine : Option WorkerEngine) (lawful : Lawful engine) (task_id : ℕ) where
  announce_cancel_keeps :
      (task : Task) (w : World)
      → let (r, w') = announce_cancel engine task_id task w in
        (r ≡ ok task) × (w'.db.tasks ≡ w.db.tasks)
  unfolding announce_cancel invalidate_usage
  announce_cancel_keeps task w = rw append_event_returns (
      rw (cancel_returns engine lawful task_id)
        (refl, rw (cancel_keeps engine lawful task_id) (rw append_event_stores)))

  abbrev cancel_changes : ℕ → Changes
  cancel_changes now = record no_changes {
    current_phase = some "cancelled";
    cancelled_at = some now;
    finished_at = some now;
  }

  -- the row of a task that is cancelled now
  abbrev cancelled_row : World → Task → Task
  cancelled_row w =
      with_changes (w.env.now (suc w.calls)) TaskStatus.cancelled
        (cancel_changes (w.env.now w.calls))

  finish_cancel_lem :
      (w : World) (t : Task)
      → find_task task_id w.db ≡ some t
      → let (r, w') = finish_cancel engine task_id w in
        (r ≡ ok (cancelled_row w t))
        × (w'.db.tasks ≡ set_row (λ x. x.id) task_id (cancelled_row w) w.db.tasks)
  unfolding finish_cancel
  finish_cancel_lem w t h =
      rw
        (update_status_lem task_id TaskStatus.cancelled (cancel_changes (w.env.now w.calls))
          (record w { calls = suc w.calls }) t h)
        (announce_cancel_keeps (cancelled_row w t) _)

  finish_cancel-AllTimed :
      (w : World) → AllTimed w.db → AllTimed (finish_cancel engine task_id w).1.db
  unfolding finish_cancel update_status
  finish_cancel-AllTimed w timed = elim (Option-cases (find_task task_id w.db)) [
    | inl missing ↦ rw missing timed
    | inr (t, found) ↦ rw ((finish_cancel_lem w t found).1) (
        All-set_row (λ (x : Task). x.id) IsTimed task_id (cancelled_row w) w.db.tasks timed
          (λ x e before. ground arith))
  ]

  -- Cancelling, whatever the outcome, keeps the times of every task in step with its status.
  pub cancel_task-AllTimed :
      (user_id : ℕ) (w : World)
      → AllTimed w.db
      → AllTimed (cancel_task engine user_id task_id w).1.db
  unfolding cancel_task get_task
  cancel_task-AllTimed user_id w timed = elim (Option-cases (by_id_and_user task_id user_id w.db)) [
    | inl missing ↦ rw missing timed
    | inr (t, found) ↦ elim (Bool-cases (is_cancelled t.status)) [
      | inl gone ↦ rw found (rw gone timed)
      | inr there ↦ elim (Bool-cases (is_finished t.status)) [
        | inl ended ↦ rw found (rw there (rw ended timed))
        | inr live ↦ rw found (rw there (rw live (finish_cancel-AllTimed w timed)))
      ]
    ]
  ]

  module _ (user_id : ℕ) (w : World) (keyed : IsKeyed (λ (t : Task). t.id) w.db.tasks) where
    by_id_and_user_lem :
        by_id_and_user task_id user_id w.db
        ≡ keep_if (λ t. t.user_id == user_id) (find_task task_id w.db)
    unfolding by_id_and_user
    by_id_and_user_lem =
        first_row-IsKeyed (λ (x : Task). x.id) (λ x. x.user_id == user_id) task_id w.db.tasks keyed

    get_task_lem :
        get_task user_id task_id w
        ≡ or_raise
            (not_found "Task not found")
            (keep_if (λ t. t.user_id == user_id) (find_task task_id w.db))
            w
    unfolding get_task
    get_task_lem = rw by_id_and_user_lem

    cancel_live :
        (t : Task)
        → find_task task_id w.db ≡ some t
        → t.user_id ≡ user_id
        → is_finished t.status ≡ false
        → cancel_task engine user_id task_id w ≡ finish_cancel engine task_id w
    unfolding cancel_task
    cancel_live t found own live = ground (arith, get_task_lem)

    -- Cancelling, case by case: a task that is missing or another user's is not found; one that is
    -- cancelled already is returned as it is; one that ended otherwise is a conflict; none of these
    -- changes anything. Any other task is cancelled now, and no other task changes.
    pub cancel_task_outcome :
        let (r, w') = cancel_task engine user_id task_id w in
        (find_task task_id w.db ≡ none
          → cancel_task engine user_id task_id w ≡ (err (not_found "Task not found"), w))
        × ((t : Task)
            → find_task task_id w.db ≡ some t
            → (t.user_id ≢ user_id
                → cancel_task engine user_id task_id w ≡ (err (not_found "Task not found"), w))
              × (t.user_id ≡ user_id
                  → (is_cancelled t.status ≡ true
                      → cancel_task engine user_id task_id w ≡ (ok t, w))
                    × (is_cancelled t.status ≡ false
                        → is_finished t.status ≡ true
                        → cancel_task engine user_id task_id w
                          ≡ (err (conflict "Cannot cancel a finished task"), w))
                    × (is_finished t.status ≡ false
                        → (t' : Task) × (r ≡ ok t')
                          × (t'.status ≡ TaskStatus.cancelled)
                          × (t'.finished_at ≡ some (w.env.now w.calls))
                          × (t'.cancelled_at ≡ some (w.env.now w.calls))
                          × ((j : ℕ)
                              → find_task j w'.db
                                ≡ (if task_id == j then some t' else find_task j w.db)))))
    unfolding cancel_task
    cancel_task_outcome = (
      λ missing. rw (get_task_lem, missing),
      λ t found. (
        λ foreign. ground (arith, get_task_lem),
        λ own. (
          λ done. ground (arith, get_task_lem),
          λ live ended. ground (arith, get_task_lem),
          λ live. (
            cancelled_row w t,
            rw (cancel_live t found own live) (finish_cancel_lem w t found).0,
            refl,
            refl,
            refl,
            λ j. rw (cancel_live t found own live) (
                rw (finish_cancel_lem w t found).1 (
                  ground (
                    arith,
                    get_row-set_row (λ (x : Task). x.id) j task_id (cancelled_row w) w.db.tasks
                        (λ x. refl),
                  ))),
          ),
        ),
      ),
    )
