-- ===== src/Orchestrator/Dispatch.antt =====
-- Dispatching a task.
use phodex.Base.{ℕ, suc, ◌≡◌, refl, true, none, Bool-cases, inl, inr}
use phodex.World.{World, ok}
use phodex.Orchestrator.{Orchestrator, dispatch_task}
use phodex.Orchestrator.Runtime.{state_of, is_running, state_of-add_state}
use phodex.Orchestrator.Jobs.{find_state}

module _ (o : Orchestrator) (task_id : ℕ) where
  busy_lem :
      (w : World) → is_running (state_of task_id w) ≡ true → dispatch_task o task_id w ≡ (ok tt, w)
  unfolding dispatch_task
  busy_lem w busy = rw busy refl

  running_after :
      (w : World)
      → find_state (w.env.uuid w.calls) w ≡ none
      → is_running (state_of task_id (dispatch_task o task_id w).1) ≡ true
  unfolding dispatch_task is_running
  running_after w fresh = elim (Bool-cases (is_running (state_of task_id w))) [
    | inl busy ↦ rw busy busy
    | inr idle ↦ rw idle (
        rw
          (state_of-add_state task_id (w.env.uuid w.calls) (record w { calls = suc w.calls }) fresh)
          refl)
  ]

  -- After a dispatch the task has a job that is not done, if no state has the identity of a new object;
  -- and dispatching it again, as often as one likes, starts no second job and changes nothing.
  pub dispatch_once :
      (w : World)
      → find_state (w.env.uuid w.calls) w ≡ none
      → let w' = (dispatch_task o task_id w).1 in
        (is_running (state_of task_id w') ≡ true) × (dispatch_task o task_id w' ≡ (ok tt, w'))
  dispatch_once w fresh =
      let running = running_after w fresh in
      (running, busy_lem (dispatch_task o task_id w).1 running)
