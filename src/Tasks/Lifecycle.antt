-- ===== src/Tasks/Lifecycle.antt =====
-- The times and the status of a task across the writes of the task service.
use phodex.Base.{
  ℕ, suc, String, ◌≡◌, refl, true, Option, some, [], ◌∷◌, arith, ◌==◌, if◌then◌else◌, is_some,
  get_row-set_row, All, All-append, All-set_row, Option-cases, inl, inr,
}
use phodex.Models.{TaskStatus, Task, is_finished, is_started, is_cancelled}
use phodex.World.{World, Db, ok}
use phodex.Worker.{WorkerEngine, Lawful}
use phodex.Tasks.{with_changes, worker_changes, transition_for_worker, create_task}
use phodex.Tasks.Transitions.{find_task, moved, transition_missing, transition_stores}
use phodex.Tasks.Creation.{new_task, create_task_outcome}

-- A task that has ended has an end time, one that a worker has begun has a start time, and a
-- cancelled one the time of its cancellation.
pub record IsTimed (t : Task) : Type 0 where
  pub ended : is_finished t.status ≡ true → is_some t.finished_at ≡ true
  pub began : is_started t.status ≡ true → is_some t.started_at ≡ true
  pub dropped : is_cancelled t.status ≡ true → is_some t.cancelled_at ≡ true

abbrev pub AllTimed : Db → Type 0
AllTimed db = All IsTimed db.tasks

module _ (task_id : ℕ) (status : TaskStatus) (phase error summary : Option String) (w : World) where
  abbrev moved_task : Task → Task
  moved_task = moved task_id status phase error summary w

  -- A transition of a task that is there returns the row that it stores: the status is the one
  -- asked for, a start time once set is kept, a started task has one and a finished task ends now.
  -- No other task changes.
  pub transition_effect :
      (t : Task)
      → find_task task_id w.db ≡ some t
      → let (r, w') = transition_for_worker task_id status phase error summary w in
        (t' : Task) × (r ≡ ok t')
        × ((j : ℕ) → find_task j w'.db ≡ (if task_id == j then some t' else find_task j w.db))
        × (t'.status ≡ status)
        × ((s : ℕ) → t.started_at ≡ some s → t'.started_at ≡ some s)
        × (is_started status ≡ true → is_some t'.started_at ≡ true)
        × (is_finished status ≡ true → t'.finished_at ≡ some (w.env.now w.calls))
  transition_effect t h =
      let stored = transition_stores task_id status phase error summary w t h in
      (
        moved_task t,
        stored.0,
        λ j. rw stored.1 (
            ground (
              arith,
              get_row-set_row (λ (x : Task). x.id) j task_id
                  (with_changes (w.env.now (suc w.calls)) status
                    (worker_changes (w.env.now w.calls) status t phase error summary))
                  w.db.tasks (λ x. refl),
            )),
        refl,
        λ s e. ground arith,
        λ e. ground arith,
        λ e. ground arith,
      )

  moved-IsTimed :
      (t x : Task)
      → IsTimed (
          with_changes
            (w.env.now (suc w.calls))
            status
            (worker_changes (w.env.now w.calls) status t phase error summary)
            x)
  moved-IsTimed t x = record {
    ended = λ p. ground arith;
    began = λ p. ground arith;
    dropped = λ p. ground arith;
  }

  -- A transition by a worker keeps the times of every task in step with its status.
  pub transition-AllTimed :
      AllTimed w.db → AllTimed (transition_for_worker task_id status phase error summary w).1.db
  transition-AllTimed timed = elim (Option-cases (find_task task_id w.db)) [
    | inl missing ↦ rw (transition_missing task_id status phase error summary w missing) timed
    | inr (t, found) ↦ rw (transition_stores task_id status phase error summary w t found).1 (
        All-set_row (λ (x : Task). x.id) IsTimed task_id _ w.db.tasks timed
          (λ x e before. moved-IsTimed t x))
  ]

-- Creating a task, whatever the outcome, keeps the times of every task in step with its status.
pub create_task-AllTimed :
    (engine : Option WorkerEngine) (lawful : Lawful engine) (user_id : ℕ) (prompt : String)
    (context_id : Option ℕ) (title : Option String) (w : World)
    → AllTimed w.db
    → AllTimed (create_task engine user_id prompt context_id title w).1.db
create_task-AllTimed engine lawful user_id prompt context_id title w timed =
    elim (create_task_outcome engine lawful user_id prompt context_id title w) [
      | inl (full, same) ↦ rw same timed
      | inr (room, inl (_, same)) ↦ rw same timed
      | inr (room, inr (_, _, stored)) ↦ rw stored (
          All-append IsTimed w.db.tasks (new_task user_id prompt context_id title w ∷ []) timed
            (ground arith, tt))
    ]
