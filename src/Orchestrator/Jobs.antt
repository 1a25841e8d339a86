-- ===== src/Orchestrator/Jobs.antt =====
-- `_run_task` of backend/workers/common/orchestrator.py as a job that starts, waits for the approval
-- and ends, with its `try`, `except` and `finally`.
use phodex.Base.{ℕ, ◌≡◌, Bool, true, false, Option, none, some, get_row, if◌then◌else◌}
use phodex.World.{
  error_text, World, RuntimeState, Job, Exec, Result, ok, err, cancelled_error, pure, raise, gets,
  ◌>>=◌, ◌>>◌,
}
use phodex.Orchestrator.{
  Orchestrator, ExecutionContext, begin_task, ask_approval, time_out, launch_approved, crash,
}
use phodex.Orchestrator.Runtime.{remove_state}

-- where the job stands: at the wait for the approval, or behind `finally`
pub data Point : Type 0 where
  waiting : ExecutionContext → Point
  ended : Point

-- how the wait ends: by the event, by `TimeoutError`, or by `CancelledError`
pub data Wake : Type 0 where
  signalled timed_out interrupted : Wake

abbrev pub find_state : ℕ → World → Option RuntimeState
find_state ref w = get_row (λ s. s.ref) ref w.heap

abbrev pub is_granted : Option RuntimeState → Bool
is_granted none = false
is_granted (some s) = elim s.approval_granted [ none ↦ false | some b ↦ b ]

module _ (o : Orchestrator) (task_id ref : ℕ) where
  -- the `except` clauses and `finally`, by how the body ended; a body that waits has not ended
  pub settle : Result (Option ExecutionContext) × World → World × Point
  settle (ok (some context), w) = (w, waiting context)
  settle (ok none, w) = (remove_state task_id ref w, ended)
  settle (err cancelled_error, w) = (remove_state task_id ref w, ended)
  settle (err e, w) = (remove_state task_id ref (crash o task_id (error_text e) w).1, ended)

  abbrev body : Exec (Option ExecutionContext)
  body = do
    context ← begin_task o task_id
    if o.require_initial_approval
        then (do ask_approval o task_id ref context; pure (some context))
        else (do o.run task_id ref context; pure none)

  -- `_run_task` up to the wait, or to its end
  unfoldable pub start_job : World → World × Point
  unfolding settle
  start_job w = settle (body w)

  abbrev rest : Wake → ExecutionContext → Exec (Option ExecutionContext)
  rest signalled context = do
    granted ← gets (λ w. is_granted (find_state ref w))
    if granted then (do launch_approved o task_id ref context; pure none) else pure none
  rest timed_out context = do time_out o task_id; pure none
  rest interrupted context = raise cancelled_error

  -- `_run_task` behind the wait
  unfoldable pub resume_job : Wake → ExecutionContext → World → World × Point
  unfolding settle
  resume_job wake context w = settle (rest wake context w)

-- when the wait of a job can end so: `wait_for` returns as soon as the event is set, and the loop
-- interrupts a job that was cancelled
abbrev pub CanWake : Wake → RuntimeState → Type 0
CanWake signalled s = s.approval_event ≡ true
CanWake timed_out s = s.approval_event ≡ false
CanWake interrupted s = s.job ≡ some Job.cancelling
