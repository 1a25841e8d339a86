-- ===== src/Managed.antt =====
-- backend/workers/managed: the engine that runs a task in a session which somebody else hosts.
--
-- A run is a start (`start_run`), and a driver that is given what comes: that the stream opened or did not,
-- an event, the end of the stream, the deadline, and how the wait for an approval ended (`drive_step`).
-- The thread of `_pump` and the clock decide which of these comes next; other requests stand between.
pub mod Client
pub mod Events
pub mod Run
pub mod Drive
pub mod Seen
pub mod Known
pub mod Replay
pub mod Starts
pub mod Reconnects
pub mod Verdict
pub mod Contract
pub mod Outcome
use phodex.Base.{ℕ, String, Bool, true, false, Option, none, some, ◌==◌, if◌then◌else◌}
use phodex.Json.{str, end, field}
use phodex.World.{RuntimeState, Exec, ok, pure, gets, modify, ◌>>=◌, ◌>>◌}
use phodex.Worker.{WorkerEngine}
use phodex.Events.{append_event}
use phodex.Orchestrator as Base
use phodex.Orchestrator.{Orchestrator}
use phodex.Orchestrator.Runtime.{state_of, write_state, queue_reply}
use Client.{Managed, interrupt_session, send_user_message}

-- backend/workers/managed/engine.py: the orchestrator, three of whose calls are overridden
-- what the constructor passes on of the runner and the label; `run` and the rest are those of `o`
abbrev pub session_orchestrator : Managed → Orchestrator → Orchestrator
session_orchestrator m o = record o {
  label = "Managed";
  prefix = "managed";
  write_to_stdin = λ task_id process content. send_user_message m task_id content >> pure tt;
}

module _ (m : Managed) (o : Orchestrator) where
  abbrev base : Orchestrator
  base = session_orchestrator m o

  -- ManagedAgentWorkerEngine.handle_approval: the part for a rejection
  unfoldable pub release : ℕ → Option RuntimeState → Exec (Unit {0})
  unfolding write_state
  release approval_id none w = (ok tt, w)
  release approval_id (some state) w = elim state.approval_id [
    | none ↦ (ok tt, w)
    | some id ↦
        phodex.World.when (id == approval_id)
          (modify (
            write_state state.ref
              (λ s. record s { approval_granted = some false; approval_event = true })))
          w
  ]

  -- ManagedAgentWorkerEngine.handle_approval
  unfoldable pub handle_approval : ℕ → ℕ → Bool → Exec (Unit {0})
  unfolding release state_of
  handle_approval task_id approval_id true = Base.handle_approval base task_id approval_id true
  handle_approval task_id approval_id false = do
    state ← gets (state_of task_id)
    release approval_id state

  unfoldable pub keep_reply : ℕ → String → Option RuntimeState → Exec (Unit {0})
  unfolding write_state
  keep_reply task_id content none = pure tt
  keep_reply task_id content (some state) = do
    modify (write_state state.ref (queue_reply content))
    append_event task_id "task.log" (
        field "message" (str "Worker queued follow-up for next execution step")
          (field "queued_followup" (str content) end))
    pure tt

  -- ManagedAgentWorkerEngine.handle_user_reply
  unfoldable pub handle_user_reply : ℕ → String → Exec (Unit {0})
  unfolding keep_reply state_of
  handle_user_reply task_id content = do
    sent ← send_user_message m task_id content
    if sent then pure tt else (do state ← gets (state_of task_id); keep_reply task_id content state)

  -- ManagedAgentWorkerEngine.cancel_task
  unfoldable pub cancel_task : ℕ → Exec (Unit {0})
  cancel_task task_id = do interrupt_session m task_id; Base.cancel_task base task_id

  abbrev pub engine : WorkerEngine
  engine = record {
    dispatch_task = Base.dispatch_task base;
    handle_approval = handle_approval;
    handle_user_reply = handle_user_reply;
    cancel_task = cancel_task;
  }
