-- ===== src/Orchestrator.antt =====
-- backend/workers/common/orchestrator.py with backend/workers/common/state.py: the engine that runs a
-- task in a subprocess. What builds the prompt and what runs the subprocess are its collaborators.
--
-- `_run_task` gives up control for long at one place, the wait for the approval. It is modelled as the
-- part before that wait and the part behind it; `Point` is where the job stands. The wait ends when
-- the event of the state is set, or by its timeout.
pub mod Halt
pub mod Runtime
pub mod Jobs
pub mod Verdicts
pub mod Contract
pub mod Launch
pub mod Dispatch
use phodex.Base.{
  ℕ, String, Bool, true, false, ◌&&◌, not, Option, none, some, List, [], ◌∷◌, ◌++◌, ◌==◌,
  if◌then◌else◌, concat, is_none,
}
use phodex.Json.{Json, Fields, str, bool, end, field, str_or_null}
use phodex.Models.{TaskStatus, ApprovalRequest, is_waiting, is_cancelled}
use phodex.World.{
  World, RuntimeState, Process, Job, Exec, Result, Error, ok, err, cancelled_error, runtime_error,
  not_found, unauthorized, forbidden, conflict, limit_exceeded, pure, gets, modify, when, uuid4,
  ◌>>=◌, ◌>>◌,
}
use phodex.Events.{append_event}
use phodex.Worker.{WorkerEngine}
use phodex.Tasks.{transition_for_worker, get_status, message}
use phodex.Approvals.{create_approval_request}
use Runtime.{state_of, write_state, new_state, add_state, remove_state, is_running, queue_reply}

-- `ExecutionContext` of state.py
pub record ExecutionContext : Type 0 where
  pub prompt_text : String
  pub workdir : Option String
  pub context_name : Option String
  pub branch : Option String

-- The arguments of `SubprocessWorkerOrchestrator.__init__` and the label of the engine; `prefix` is
-- the label in lower case. `ref` names the runtime state that `run` is given.
pub record Orchestrator : Type 0 where
  pub label : String
  pub prefix : String
  pub require_initial_approval : Bool
  pub risk_level : String
  pub build : ℕ → Exec ExecutionContext
  pub run : (task_id ref : ℕ) → ExecutionContext → Exec (Unit {0})
  pub command_preview : String
  pub write_to_stdin : ℕ → Process → String → Exec (Unit {0})

module _ (o : Orchestrator) where
  -- SubprocessWorkerOrchestrator.dispatch_task
  unfoldable pub dispatch_task : ℕ → Exec (Unit {0})
  unfolding is_running add_state state_of
  dispatch_task task_id = do
    existing ← gets (state_of task_id)
    when (not (is_running existing)) (do ref ← uuid4; modify (add_state task_id ref))

  -- the part of `handle_approval` under the lock
  unfoldable pub grant : ℕ → Bool → Option RuntimeState → Exec (Unit {0})
  unfolding write_state
  grant approval_id approved none w = pure tt w
  grant approval_id approved (some state) w = elim state.approval_id [
    | none ↦ pure tt w
    | some id ↦
        when (id == approval_id)
          (modify (
            write_state state.ref
              (λ s. record s { approval_granted = some approved; approval_event = true })))
          w
  ]

  -- SubprocessWorkerOrchestrator.handle_approval
  unfoldable pub handle_approval : ℕ → ℕ → Bool → Exec (Unit {0})
  unfolding grant state_of
  handle_approval task_id approval_id approved = do
    status ← get_status task_id
    when (is_waiting status) (do state ← gets (state_of task_id); grant approval_id approved state)

  -- the branch of `handle_user_reply` for a process that takes no input
  unfoldable pub keep_reply : ℕ → String → RuntimeState → Exec (Unit {0})
  unfolding write_state
  keep_reply task_id content state = do
    modify (write_state state.ref (queue_reply content))
    append_event task_id "task.log" (
        field "message" (str "Worker queued follow-up for next execution step")
          (field "queued_followup" (str content) end))
    pure tt

  unfoldable pub forward_reply : ℕ → String → Option RuntimeState → Exec (Unit {0})
  unfolding keep_reply
  forward_reply task_id content none w = pure tt w
  forward_reply task_id content (some state) w = elim state.process [
    | none ↦ keep_reply task_id content state w
    | some process ↦
        (if process.stdin_open
            then o.write_to_stdin task_id process content
            else keep_reply task_id content state)
          w
  ]

  -- SubprocessWorkerOrchestrator.handle_user_reply
  unfoldable pub handle_user_reply : ℕ → String → Exec (Unit {0})
  unfolding forward_reply state_of
  handle_user_reply task_id content = do
    state ← gets (state_of task_id)
    forward_reply task_id content state

  -- `terminate`, or `kill` after two seconds: the process has ended either way
  end_process : Option Process → Option Process
  end_process none = none
  end_process (some process) = some (record process { is_alive = false })

  -- `job.cancel()` on a job that is not done
  cancel_job : Option Job → Option Job
  cancel_job (some Job.running) = some Job.cancelling
  cancel_job job = job

  unfoldable pub stop_state : Option RuntimeState → World → World
  unfolding write_state end_process cancel_job
  stop_state none w = w
  stop_state (some state) w =
      write_state state.ref
        (λ s. record s { process = end_process s.process; job = cancel_job s.job }) w

  -- SubprocessWorkerOrchestrator.cancel_task
  unfoldable pub cancel_task : ℕ → Exec (Unit {0})
  unfolding stop_state state_of
  cancel_task task_id = do state ← gets (state_of task_id); modify (stop_state state)

  -- the engine that the services hold
  abbrev pub engine : WorkerEngine
  engine = record {
    dispatch_task = dispatch_task;
    handle_approval = handle_approval;
    handle_user_reply = handle_user_reply;
    cancel_task = cancel_task;
  }

  -- `_run_task` up to the test for an initial approval
  unfoldable pub begin_task : ℕ → Exec ExecutionContext
  begin_task task_id = do
    transition_for_worker task_id TaskStatus.starting
        (some (concat ("booting_" ∷ o.prefix ∷ "_worker" ∷ []))) none none
    append_event task_id "task.starting" (message (concat ("Starting " ∷ o.label ∷ " worker" ∷ [])))
    context ← o.build task_id
    transition_for_worker task_id TaskStatus.running
        (some (concat ("preparing_" ∷ o.prefix ∷ "_runtime" ∷ []))) none none
    append_event task_id "task.running" (
        field "message" (str (concat (o.label ∷ " worker is running" ∷ []))) (
          field "worker_engine" (str o.prefix) (field "workdir" (str_or_null context.workdir) end)))
    pure context

  -- `_run_task`: the request for the initial approval, up to the wait
  unfoldable pub ask_approval : ℕ → ℕ → ExecutionContext → Exec (Unit {0})
  unfolding write_state
  ask_approval task_id ref context = do
    approval ←
        create_approval_request task_id "command_execution"
          (concat ("Approve " ∷ o.label ∷ " runtime execution" ∷ []))
          (concat ("Worker requests permission to start the " ∷ o.label ∷ " runtime command." ∷ []))
          (field "command" (str o.command_preview) (
            field "workdir" (str_or_null context.workdir)
              (field "risk_level" (str o.risk_level) end)))
    modify (write_state ref (λ s. record s { approval_id = some approval.id }))
    transition_for_worker task_id TaskStatus.waiting_approval (some "awaiting_user_approval") none
        none
    append_event task_id "task.progress"
        (message (concat ("Waiting for approval before launching " ∷ o.label ∷ " runtime" ∷ [])))
    pure tt

  -- the handler of the timeout
  unfoldable pub time_out : ℕ → Exec (Unit {0})
  time_out task_id = do
    transition_for_worker task_id TaskStatus.failed (some "approval_timeout")
        (some "Approval timed out") none
    append_event task_id "task.failed" (
        field "message" (str "Approval timed out")
          (field "error_code" (str "APPROVAL_TIMEOUT") (field "is_retryable" (bool true) end)))
    pure tt

  -- `_run_task` behind the test of `approval_granted`
  unfoldable pub launch_approved : ℕ → ℕ → ExecutionContext → Exec (Unit {0})
  launch_approved task_id ref context = do
    current_status ← get_status task_id
    if is_cancelled current_status then pure tt else do
      transition_for_worker task_id TaskStatus.running
          (some (concat ("executing_" ∷ o.prefix ∷ "_runtime" ∷ []))) none none
      append_event task_id "task.running"
          (message (concat ("Approval granted, launching " ∷ o.label ∷ " runtime" ∷ [])))
      o.run task_id ref context

  -- `except Exception`: the task fails with the text of the exception
  unfoldable pub crash : ℕ → String → Exec (Unit {0})
  crash task_id error = do
    transition_for_worker task_id TaskStatus.failed (some "worker_error") (some error) none
    append_event task_id "task.failed" (
        field "message" (str (concat (o.label ∷ " worker crashed" ∷ []))) (
          field "error_code" (str "WORKER_ERROR")
            (field "error" (str error) (field "is_retryable" (bool true) end))))
    pure tt
