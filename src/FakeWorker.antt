-- ===== src/FakeWorker.antt =====
-- backend/workers/fake_worker.py. A job sleeps between its parts, and other requests run meanwhile; the
-- parts are functions of their own.
pub mod Progress
use phodex.Base.{
  ℕ, String, Bool, true, false, ◌&&◌, not, Option, none, some, List, [], ◌∷◌, ◌++◌, ◌==◌,
  if◌then◌else◌, get_row, update_rows, where_rows, concat,
}
use phodex.Json.{ℤ, Json, Fields, str, bool, int, arr, obj, nil, cons, end, field, pos}
use phodex.Models.{TaskStatus, is_waiting, is_cancelled}
use phodex.World.{
  World, Coroutine, until_approval, after_approval, Job, FakeJob, Exec, Result, ok, err,
  cancelled_error, error_text, pure, raise, gets, modify, when, attempt, ◌>>=◌, ◌>>◌,
}
use phodex.Events.{append_event}
use phodex.Worker.{WorkerEngine}
use phodex.Tasks.{transition_for_worker, get_status, append_assistant_message, message}
use phodex.Approvals.{create_approval_request}

abbrev pub is_running_status : TaskStatus → Bool
is_running_status TaskStatus.running = true
is_running_status _ = false

-- `running is not None and not running.done()`
abbrev pub is_busy : Option FakeJob → Bool
is_busy none = false
is_busy (some j) = elim j.job [ Job.done ↦ false | _ ↦ true ]

unfoldable pub job_of : ℕ → World → Option FakeJob
job_of task_id w = get_row (λ j. j.task_id) task_id w.fake_jobs

-- `self._task_jobs[task_id] = asyncio.create_task(…)`
unfoldable pub put_job : ℕ → Coroutine → World → World
put_job task_id coroutine w = record w {
  fake_jobs =
      record { task_id = task_id; coroutine = coroutine; job = Job.running }
      ∷ where_rows (λ j. not (j.task_id == task_id)) w.fake_jobs;
}

-- the part of `dispatch_task` and of `handle_approval` that starts a job, unless there is one
unfoldable pub start_job : ℕ → Coroutine → Exec (Unit {0})
unfolding job_of put_job
start_job task_id coroutine = do
  running ← gets (job_of task_id)
  when (not (is_busy running)) (modify (put_job task_id coroutine))

-- FakeWorkerEngine.dispatch_task
unfoldable pub dispatch_task : ℕ → Exec (Unit {0})
unfolding start_job
dispatch_task task_id = start_job task_id until_approval

-- a transition to FAILED and its event
unfoldable pub fail_with : ℕ → (phase error : String) → Fields → Exec (Unit {0})
fail_with task_id phase error payload = do
  transition_for_worker task_id TaskStatus.failed (some phase) (some error) none
  append_event task_id "task.failed" payload
  pure tt

-- FakeWorkerEngine.handle_approval
unfoldable pub handle_approval : (task_id approval_id : ℕ) → Bool → Exec (Unit {0})
unfolding start_job fail_with
handle_approval task_id approval_id approved = do
  current_status ← get_status task_id
  when (is_waiting current_status) (
      if approved
      then start_job task_id (after_approval approval_id)
      else fail_with task_id "approval_rejected" "Approval rejected" (
          field "message" (str "Task failed because approval was rejected")
            (field "error_code" (str "APPROVAL_REJECTED") (field "is_retryable" (bool false) end))))

-- FakeWorkerEngine.handle_user_reply
unfoldable pub handle_user_reply : ℕ → String → Exec (Unit {0})
handle_user_reply task_id content = do
  status ← get_status task_id
  if is_running_status status
      then (do
        append_event task_id "task.log"
            (message (concat ("Worker received follow-up: " ∷ content ∷ [])))
        pure tt)
      else when (is_waiting status) (do
        append_event task_id "task.log" (message "Follow-up received and queued until approval")
        pure tt)

abbrev cancelling : FakeJob → FakeJob
cancelling j = elim j.job [
  | Job.running ↦ record j { job = Job.cancelling }
  | Job.cancelling ↦ j
  | Job.done ↦ j
]

-- FakeWorkerEngine.cancel_task
unfoldable pub cancel_task : ℕ → Exec (Unit {0})
cancel_task task_id =
    modify
      (λ w. record w { fake_jobs = update_rows (λ j. j.task_id == task_id) cancelling w.fake_jobs })

abbrev pub engine : WorkerEngine
engine = record {
  dispatch_task = dispatch_task;
  handle_approval = handle_approval;
  handle_user_reply = handle_user_reply;
  cancel_task = cancel_task;
}

abbrev file_change : (action path : String) → (added removed : ℕ) → Json
file_change action path added removed = obj (
    field "action" (str action) (
      field "path" (str path)
        (field "added" (int (pos added)) (field "removed" (int (pos removed)) end))))

abbrev pub context_payload : Fields
context_payload = field "message" (str "Collected initial context") (
    field "stage" (str "context_scan") (
      field "tool_name" (str "repo.index") (
        field "tool_args"
          (obj (field "include_hidden" (bool false) (field "max_files" (int (pos 5000)) end)))
          (field "output_preview" (str "Indexed src/, tests/, docs/ and 147 files.") end))))

abbrev pub patch_payload : Fields
patch_payload = field "message" (str "Prepared patch preview") (
    field "stage" (str "patch_preview") (
      field "file_changes"
        (arr (
          cons (file_change "deleted" "index.html" 0 255)
            (cons (file_change "created" "index.html" 326 0) nil)))
        end))

-- `_run_until_approval` up to the first sleep
unfoldable pub boot : ℕ → Exec (Unit {0})
boot task_id = do
  transition_for_worker task_id TaskStatus.starting (some "booting_worker") none none
  append_event task_id "task.starting" (message "Starting worker")
  pure tt

-- between the sleeps: whether the job goes on
unfoldable pub analyze : ℕ → Exec Bool
analyze task_id = do
  status ← get_status task_id
  if is_cancelled status then pure false else do
    transition_for_worker task_id TaskStatus.running (some "analyzing_context") none none
    append_event task_id "task.running" (message "Task is running")
    append_event task_id "task.progress" (message "Reading repository structure")
    append_event task_id "task.log" context_payload
    append_assistant_message task_id "I analyzed the request and prepared an execution plan."
    append_event task_id "task.log" patch_payload
    pure true

-- behind the second sleep
unfoldable pub ask : ℕ → Exec (Unit {0})
ask task_id = do
  status ← get_status task_id
  if is_cancelled status then pure tt else do
    create_approval_request task_id "command_execution" "Approve command execution"
        "Fake worker needs approval to run a potentially risky operation."
        (field "command" (str "git clean -xdf") (field "risk_level" (str "high") end))
    transition_for_worker task_id TaskStatus.waiting_approval (some "awaiting_user_approval") none
        none
    append_event task_id "task.progress" (message "Waiting for approval to continue")
    pure tt

-- `_resume_after_approval` up to its first sleep
unfoldable pub resume : ℕ → String → Exec (Unit {0})
resume task_id approval_id = do
  transition_for_worker task_id TaskStatus.running (some "post_approval_execution") none none
  append_event task_id "task.running"
      (field "message" (str "Resuming after approval") (field "approval_id" (str approval_id) end))
  pure tt

abbrev pub applied_payload : Fields
applied_payload = field "message" (str "Applied changes to working tree") (
    field "stage" (str "apply_changes") (
      field "file_changes"
        (arr (
          cons (file_change "modified" "backend/app/workers/fake_worker.py" 42 8)
            (cons (file_change "created" "backend/tests/test_worker_trace_details.py" 58 0) nil)))
        end))

-- between its sleeps: whether the job goes on
unfoldable pub apply_changes : ℕ → Exec Bool
apply_changes task_id = do
  status ← get_status task_id
  if is_cancelled status then pure false else do
    append_event task_id "task.progress" (message "Applying approved action")
    append_event task_id "task.log" applied_payload
    append_assistant_message task_id "Approved action completed. Preparing final summary."
    pure true

-- behind its second sleep
unfoldable pub finish : ℕ → Exec (Unit {0})
finish task_id = do
  append_event task_id "task.completed" (
      field "message" (str "Task completed")
        (field "summary" (str "Fake worker completed successfully.") end))
  transition_for_worker task_id TaskStatus.completed (some "done") none
      (some "Fake worker completed successfully.")
  pure tt

-- the `except` clauses of a job
unfoldable pub guarded : ℕ → String → Result (Unit {0}) → Exec (Unit {0})
guarded task_id text (ok _) = pure tt
guarded task_id text (err cancelled_error) = raise cancelled_error
guarded task_id text (err e) = fail_with task_id "worker_error" (error_text e) (
    field "message" (str text) (
      field "error_code" (str "WORKER_ERROR")
        (field "error" (str (error_text e)) (field "is_retryable" (bool true) end))))

-- FakeWorkerEngine._run_until_approval, with nothing else happening meanwhile
unfoldable pub run_until_approval : ℕ → Exec (Unit {0})
run_until_approval task_id =
    attempt (do boot task_id; alive ← analyze task_id; if alive then ask task_id else pure tt)
      (guarded task_id "Worker crashed")

-- FakeWorkerEngine._resume_after_approval, with nothing else happening meanwhile
unfoldable pub resume_after_approval : ℕ → ℕ → Exec (Unit {0})
resume_after_approval task_id approval_id w =
    attempt
      (do
        resume task_id (w.env.uuid_str approval_id)
        alive ← apply_changes task_id
        if alive then finish task_id else pure tt)
      (guarded task_id "Worker failed after approval") w

abbrev pub coroutine_of : ℕ → Coroutine → Exec (Unit {0})
coroutine_of task_id until_approval = run_until_approval task_id
coroutine_of task_id (after_approval approval_id) = resume_after_approval task_id approval_id

abbrev pub done_at : FakeJob → FakeJob
done_at j = record j { job = Job.done }

-- the coroutine has been run to its end
abbrev pub end_job : ℕ → World → World
end_job task_id w = record w {
  fake_jobs = update_rows (λ j. j.task_id == task_id) done_at w.fake_jobs;
}

-- the event loop runs the coroutine of the task's job, if it is running, with nothing else happening
-- meanwhile; the job is done then
abbrev pub run_found : ℕ → Option FakeJob → Exec (Unit {0})
run_found task_id none w = (ok tt, w)
run_found task_id (some j) w = elim j.job [
  | Job.running ↦ let (r, w') = coroutine_of task_id j.coroutine w in (r, end_job task_id w')
  | _ ↦ (ok tt, w)
]

unfoldable pub run_job : ℕ → Exec (Unit {0})
run_job task_id w = run_found task_id (job_of task_id w) w
