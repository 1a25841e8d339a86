-- ===== src/Tasks/Transitions.antt =====
-- What a worker's transition of a task stores.
use phodex.Base.{
  ℕ, suc, ◌-◌, String, ◌≡◌, refl, Option, none, some, List, [], ◌∷◌, ◌++◌, arith, if◌then◌else◌,
  get_row, set_row, get_row-set_row,
}
use mathlib.Core.List.{append-nil}
use phodex.Json.{str, end, field}
use phodex.Models.{TaskStatus, Task, is_finished}
use phodex.World.{World, Db, Env, Effect, transition, duration, not_found, ok, err}
use phodex.Push.{tokens_of}
use phodex.Push.Delivery.{pushes, notify_user_lem}
use phodex.Tasks.{
  drop_usage, with_changes, worker_changes, transition_for_worker, update_status,
  announce_transition, Changes, text_or, notify_transition, observe_duration,
}

abbrev pub find_task : ℕ → Db → Option Task
find_task task_id db = get_row (λ t. t.id) task_id db.tasks

module _ (status : TaskStatus) (task : Task) where
  -- the duration that is observed
  abbrev durations : List Effect
  durations = elim task.started_at [
    | none ↦ []
    | some started ↦ elim task.finished_at [
      | none ↦ []
      | some finished ↦ if is_finished status then duration status (finished - started) ∷ [] else []
    ]
  ]

  observe_duration_lem :
      (w : World)
      → observe_duration status task w ≡ (ok tt, record w { effects = w.effects ++ durations })
  unfolding observe_duration
  observe_duration_lem w = ground (arith, append-nil w.effects)

-- the push messages of a transition, to every token of the owner
abbrev pub notifications : TaskStatus → Task → Option String → Env → Db → List Effect
notifications TaskStatus.completed task error env db =
    if env.push_enabled
    then pushes "Task completed" (text_or task.title task.prompt)
        (field "task_id" (str (env.uuid_str task.id)) (field "type" (str "task.completed") end))
        (tokens_of task.user_id db)
    else []
notifications TaskStatus.failed task error env db =
    if env.push_enabled
    then pushes "Task failed" (text_or error (text_or task.title task.prompt))
        (field "task_id" (str (env.uuid_str task.id)) (field "type" (str "task.failed") end))
        (tokens_of task.user_id db)
    else []
notifications _ task error env db = []

notify_transition_lem :
    (status : TaskStatus) (task : Task) (error : Option String) (w : World)
    → notify_transition status task error w
      ≡ (ok tt, record w { effects = w.effects ++ notifications status task error w.env w.db })
unfolding notify_transition
notify_transition_lem TaskStatus.completed task error w = notify_user_lem _ _ _ _ w
notify_transition_lem TaskStatus.failed task error w = notify_user_lem _ _ _ _ w
notify_transition_lem _ task error w = ground (arith, append-nil w.effects)

-- A transition is announced by its metric, the duration of a finished task and the push messages of
-- a completed or failed one, and drops the owner's cached usage.
pub announce_transition_lem :
    (status : TaskStatus) (task : Task) (error : Option String) (w : World)
    → announce_transition status task error w ≡ (
      ok task,
      record w {
        effects =
            ((w.effects ++ transition status ∷ []) ++ durations status task)
            ++ notifications status task error w.env w.db;
        cache = drop_usage task.user_id w;
      },
    )
unfolding announce_transition
announce_transition_lem status task error w =
    rw (observe_duration_lem status task) (rw (notify_transition_lem status task error))

pub update_status_lem :
    (task_id : ℕ) (status : TaskStatus) (changes : Changes) (w : World) (t : Task)
    → find_task task_id w.db ≡ some t
    → update_status task_id status changes w ≡ (
      ok (some (with_changes (w.env.now w.calls) status changes t)),
      record w {
        db = record w.db {
          tasks =
              set_row
                (λ x. x.id)
                task_id
                (with_changes (w.env.now w.calls) status changes)
                w.db.tasks;
        };
        calls = suc w.calls;
      },
    )
unfolding update_status
update_status_lem task_id status changes w t h = ground (
  arith,
  get_row-set_row (λ (x : Task). x.id) task_id task_id
      (with_changes (w.env.now w.calls) status changes) w.db.tasks (λ x. refl),
)

module _ (task_id : ℕ) (status : TaskStatus) (phase error summary : Option String) (w : World) where
  -- the row after the transition
  abbrev pub moved : Task → Task
  moved t =
      with_changes (w.env.now (suc w.calls)) status
        (worker_changes (w.env.now w.calls) status t phase error summary) t

  pub transition_missing :
      find_task task_id w.db ≡ none
      → transition_for_worker task_id status phase error summary w
        ≡ (err (not_found "Task not found"), w)
  unfolding transition_for_worker
  transition_missing h = ground arith

  pub transition_stores :
      (t : Task)
      → find_task task_id w.db ≡ some t
      → ((transition_for_worker task_id status phase error summary w).0 ≡ ok (moved t))
        × ((transition_for_worker task_id status phase error summary w).1.db ≡ record w.db {
          tasks =
              set_row
                (λ x. x.id)
                task_id
                (with_changes
                  (w.env.now (suc w.calls))
                  status
                  (worker_changes (w.env.now w.calls) status t phase error summary))
                w.db.tasks;
        })
  unfolding transition_for_worker
  transition_stores t h = rw h (
      rw
        (update_status_lem task_id status
          (worker_changes (w.env.now w.calls) status t phase error summary)
          (record w { calls = suc w.calls }) t h)
        (rw announce_transition_lem (refl, refl)))
