-- ===== src/Tests/Tasks.antt =====
-- Runs of the theorems on events, tasks and push messages.
use phodex.Base.{
  ℕ, suc, ◌≤◌, ◌≡◌, ◌≢◌, refl, true, false, none, some, [], ◌∷◌, ◌++◌, arith, ◌==◌, if◌then◌else◌,
  is_some, length, ◌⊎◌,
}
use phodex.Json.{end}
use phodex.Models.{TaskStatus, Task, is_started, is_finished, is_cancelled}
use phodex.World.{Envelope, ok, err, conflict, not_found, limit_exceeded}
use phodex.Events.{append_event, list_envelopes}
use phodex.Events.Sequence.{
  IsSequenced, missed, of_task, append_event-IsSequenced, list_envelopes-eq-missed,
}
use phodex.Tasks.{create_task, cancel_task, transition_for_worker, count_concurrent, unfinished}
use phodex.Tasks.Transitions.{find_task}
use phodex.Tasks.Creation.{
  at_limit, has_context, new_task, create_task_outcome, create_task-IsWithin,
}
use phodex.Tasks.Lifecycle.{transition_effect}
use phodex.Tasks.Cancellation.{cancel_task_outcome}
use phodex.Tests.Samples.{world, codex, codex-Lawful, running_task, world-IsSequenced}

append_event-IsSequenced_example :
    (e : Envelope) × ((append_event 20 "task.progress" end world).0 ≡ ok e)
    × IsSequenced (append_event 20 "task.progress" end world).1
    × (e.sequence ≡ suc (length (of_task 20 world.db.events)))
    × (missed 20 (length (of_task 20 world.db.events)) (append_event 20 "task.progress" end world).1
        ≡ e ∷ [])
append_event-IsSequenced_example =
    append_event-IsSequenced 20 "task.progress" end world world-IsSequenced

list_envelopes-eq-missed_example : list_envelopes 20 0 world ≡ (ok (missed 20 0 world), world)
list_envelopes-eq-missed_example = list_envelopes-eq-missed 20 0 world world-IsSequenced

create_task_outcome_example :
    let created = create_task codex 1 "Add a test" (some 10) none world in
    ((at_limit 1 world ≡ true)
      × (created ≡ (
        err (limit_exceeded "Concurrent task limit reached" "CONCURRENT_TASK_LIMIT_REACHED"),
        world,
      )))
    ⊎ ((at_limit 1 world ≡ false)
        × (((has_context 1 (some 10) world.db ≡ false)
              × (created ≡ (err (not_found "Project context not found"), world)))
            ⊎ ((has_context 1 (some 10) world.db ≡ true)
                × (created.0 ≡ ok (new_task 1 "Add a test" (some 10) none world))
                × (created.1.db.tasks
                    ≡ world.db.tasks ++ new_task 1 "Add a test" (some 10) none world ∷ []))))
create_task_outcome_example =
    create_task_outcome codex codex-Lawful 1 "Add a test" (some 10) none world

within : (u : ℕ) → count_concurrent u unfinished world.db ≤ 3
unfolding count_concurrent
within u = ground arith

create_task-IsWithin_example :
    count_concurrent 1 unfinished (create_task codex 1 "Add a test" (some 10) none world).1.db ≤ 3
create_task-IsWithin_example =
    create_task-IsWithin codex codex-Lawful 1 "Add a test" (some 10) none world (omega arith) within
      1

transition_effect_example :
    let (r, w') = transition_for_worker 21 TaskStatus.completed none none (some "Done") world in
    (t' : Task) × (r ≡ ok t')
    × ((j : ℕ) → find_task j w'.db ≡ (if 21 == j then some t' else find_task j world.db))
    × (t'.status ≡ TaskStatus.completed)
    × ((s : ℕ) → some 30 ≡ some s → t'.started_at ≡ some s)
    × (is_started TaskStatus.completed ≡ true → is_some t'.started_at ≡ true)
    × (is_finished TaskStatus.completed ≡ true → t'.finished_at ≡ some 100)
transition_effect_example =
    transition_effect 21 TaskStatus.completed none none (some "Done") world running_task refl

cancel_task_outcome_example :
    let (r, w') = cancel_task codex 1 20 world in
    (find_task 20 world.db ≡ none
      → cancel_task codex 1 20 world ≡ (err (not_found "Task not found"), world))
    × ((t : Task)
        → find_task 20 world.db ≡ some t
        → (t.user_id ≢ 1 → cancel_task codex 1 20 world ≡ (err (not_found "Task not found"), world))
          × (t.user_id ≡ 1
              → (is_cancelled t.status ≡ true → cancel_task codex 1 20 world ≡ (ok t, world))
                × (is_cancelled t.status ≡ false
                    → is_finished t.status ≡ true
                    → cancel_task codex 1 20 world
                      ≡ (err (conflict "Cannot cancel a finished task"), world))
                × (is_finished t.status ≡ false
                    → (t' : Task) × (r ≡ ok t')
                      × (t'.status ≡ TaskStatus.cancelled)
                      × (t'.finished_at ≡ some 100)
                      × (t'.cancelled_at ≡ some 100)
                      × ((j : ℕ)
                          → find_task j w'.db
                            ≡ (if 20 == j then some t' else find_task j world.db)))))
cancel_task_outcome_example = cancel_task_outcome codex codex-Lawful 20 1 world (refl, (refl, tt))
