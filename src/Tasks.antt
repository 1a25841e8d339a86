-- ===== src/Tasks.antt =====
-- backend/app/repositories/task_repo.py and the actions of backend/app/services/task_service.py that
-- change a task. A write to a row sets `updated_at` (`onupdate` of models/mixins.py).
mod Repo
pub use Repo.{Changes, no_changes, with_changes}
unfoldable pub use Repo.{count_concurrent, by_id_and_user, touch, update_status}
pub mod Transitions
pub mod Creation
pub mod Lifecycle
pub mod Cancellation
pub mod Queries
use phodex.Base.{
  ℕ, suc, ◌-◌, String, Bool, true, false, ◌&&◌, not, Option, none, some, List, [], ◌∷◌, ◌++◌, ltb,
  leb, ◌==◌, if◌then◌else◌, is_none, is_some, or_else, get_or, get_row, set_row, first_row,
  where_rows, order_by, is_empty, concat,
}
use phodex.Json.{Json, Fields, str, end, field}
use phodex.Models.{
  TaskStatus, Task, TaskMessage, TaskMessageRole, ProjectContext, ApprovalRequest, is_finished,
  is_started, is_cancelled,
}
use phodex.World.{
  World, Db, CachedUsage, Envelope, transition, duration, Exec, not_found, conflict, limit_exceeded,
  ok, pure, raise, gets, or_raise, raise_if, query, commit, modify, emit, when, utcnow, uuid4,
  ◌>>=◌, ◌>>◌,
}
use phodex.Events.{append_event, list_envelopes}
use phodex.Push.{notify_user}
use phodex.Worker.{WorkerEngine, dispatcher}

-- a payload that holds one message
abbrev pub message : String → Fields
message s = field "message" (str s) end

-- RedisService.delete for the key of the user, with a Redis that answers: what is left in the cache
abbrev pub drop_usage : ℕ → World → List CachedUsage
drop_usage user_id w =
    if w.env.redis_enabled then where_rows (λ c. not (c.user_id == user_id)) w.cache else w.cache

-- TaskService._invalidate_usage
unfoldable pub invalidate_usage : ℕ → Exec (Unit {0})
invalidate_usage user_id = modify (λ w. record w { cache = drop_usage user_id w })

abbrev pub unfinished : List TaskStatus
unfinished =
    TaskStatus.queued ∷ TaskStatus.starting ∷ TaskStatus.running ∷ TaskStatus.waiting_approval ∷ []

-- the first guard of TaskService.create_task
unfoldable pub check_limit : ℕ → Exec (Unit {0})
unfolding count_concurrent
check_limit user_id = do
  max_concurrent ← gets (λ w. w.settings.max_concurrent_tasks_per_user)
  running_count ← query (count_concurrent user_id unfinished)
  raise_if (ltb 0 max_concurrent && leb max_concurrent running_count)
      (limit_exceeded "Concurrent task limit reached" "CONCURRENT_TASK_LIMIT_REACHED")

owns_context : ℕ → ℕ → Db → Option ProjectContext
owns_context user_id context_id db =
    first_row (λ c. c.id == context_id && c.user_id == user_id) db.contexts

-- the second guard of TaskService.create_task
unfoldable pub check_context : ℕ → Option ℕ → Exec (Unit {0})
unfolding owns_context
check_context user_id none = pure tt
check_context user_id (some context_id) = do
  context ← query (owns_context user_id context_id)
  raise_if (is_none context) (not_found "Project context not found")

-- the rows that TaskService.create_task adds, in one transaction
unfoldable pub insert_task : ℕ → String → Option ℕ → Option String → Exec Task
insert_task user_id prompt context_id title = do
  id ← uuid4
  message_id ← uuid4
  now ← utcnow
  let task : Task = record {
    id = id;
    user_id = user_id;
    project_context_id = context_id;
    title = title;
    prompt = prompt;
    status = TaskStatus.queued;
    current_phase = some "queued";
    started_at = none;
    finished_at = none;
    error_message = none;
    final_summary = none;
    cancelled_at = none;
    created_at = now;
    updated_at = now;
  }
  let content : TaskMessage = record {
    id = message_id;
    task_id = id;
    role = TaskMessageRole.user;
    content = prompt;
    created_at = now;
  }
  commit (λ db. record db { tasks = db.tasks ++ task ∷ []; messages = db.messages ++ content ∷ [] })
  pure task

-- TaskService.create_task behind its commit
unfoldable pub announce_task : Option WorkerEngine → Task → Exec Task
announce_task engine task = do
  append_event task.id "task.created" (message "Task created and queued")
  emit (transition TaskStatus.queued)
  invalidate_usage task.user_id
  dispatcher engine (λ e. e.dispatch_task task.id)
  pure task

-- TaskService.create_task
unfoldable pub create_task : Option WorkerEngine → ℕ → String → Option ℕ → Option String → Exec Task
create_task engine user_id prompt context_id title = do
  check_limit user_id
  check_context user_id context_id
  task ← insert_task user_id prompt context_id title
  announce_task engine task

-- TaskService.get_task
unfoldable pub get_task : ℕ → ℕ → Exec Task
unfolding by_id_and_user
get_task user_id task_id = do
  found ← query (by_id_and_user task_id user_id)
  or_raise (not_found "Task not found") found

-- TaskService.add_reply
unfoldable pub add_reply : Option WorkerEngine → ℕ → ℕ → String → Exec TaskMessage
unfolding get_task touch
add_reply engine user_id task_id content = do
  task ← get_task user_id task_id
  raise_if (is_finished task.status) (conflict "Cannot reply to a finished task")
  id ← uuid4
  now ← utcnow
  let reply : TaskMessage = record {
    id = id;
    task_id = task.id;
    role = TaskMessageRole.user;
    content = content;
    created_at = now;
  }
  commit (λ db. record db {
    messages = db.messages ++ reply ∷ [];
    tasks = set_row (λ t. t.id) task.id (touch now) db.tasks;
  })
  append_event task_id "task.progress" (message "User follow-up received")
  dispatcher engine (λ e. e.handle_user_reply task_id content)
  pure reply

-- TaskService.cancel_task behind its commit
unfoldable pub announce_cancel : Option WorkerEngine → ℕ → Task → Exec Task
announce_cancel engine task_id task = do
  append_event task_id "task.cancelled" (message "Task cancelled by user")
  invalidate_usage task.user_id
  emit (transition TaskStatus.cancelled)
  dispatcher engine (λ e. e.cancel_task task_id)
  pure task

-- the part of TaskService.cancel_task behind its guards
unfoldable pub finish_cancel : Option WorkerEngine → ℕ → Exec Task
unfolding update_status
finish_cancel engine task_id = do
  now ← utcnow
  cancelled ← update_status task_id TaskStatus.cancelled (record no_changes {
    current_phase = some "cancelled";
    cancelled_at = some now;
    finished_at = some now;
  })
  task ← or_raise (not_found "Task not found") cancelled
  announce_cancel engine task_id task

-- TaskService.cancel_task
unfoldable pub cancel_task : Option WorkerEngine → ℕ → ℕ → Exec Task
unfolding get_task
cancel_task engine user_id task_id = do
  task ← get_task user_id task_id
  if is_cancelled task.status then pure task else do
    raise_if (is_finished task.status) (conflict "Cannot cancel a finished task")
    finish_cancel engine task_id

-- the fields that TaskService.transition_for_worker computes from the row as it was
abbrev pub worker_changes : ℕ → TaskStatus → Task → (phase error summary : Option String) → Changes
worker_changes now status task phase error summary = record {
  current_phase = phase;
  error_message = error;
  final_summary = summary;
  started_at = if is_started status && is_none task.started_at then some now else task.started_at;
  finished_at = if is_finished status then some now else task.finished_at;
  cancelled_at =
      if is_cancelled status && is_none task.cancelled_at then some now else task.cancelled_at;
}

-- the duration metric, for a finished task with both times
unfoldable pub observe_duration : TaskStatus → Task → Exec (Unit {0})
observe_duration status task = elim task.started_at [
  | none ↦ pure tt
  | some started ↦ elim task.finished_at [
    | none ↦ pure tt
    | some finished ↦ when (is_finished status) (emit (duration status (finished - started)))
  ]
]

-- Python's `a or b` on an optional text
abbrev pub text_or : Option String → String → String
text_or none b = b
text_or (some a) b = if is_empty a then b else a

unfoldable pub notify_transition : TaskStatus → Task → Option String → Exec (Unit {0})
notify_transition TaskStatus.completed task error w =
    notify_user task.user_id "Task completed" (text_or task.title task.prompt)
      (field "task_id" (str (w.env.uuid_str task.id)) (field "type" (str "task.completed") end)) w
notify_transition TaskStatus.failed task error w =
    notify_user task.user_id "Task failed" (text_or error (text_or task.title task.prompt))
      (field "task_id" (str (w.env.uuid_str task.id)) (field "type" (str "task.failed") end)) w
notify_transition _ task error w = pure tt w

-- what TaskService.transition_for_worker does behind the write
unfoldable pub announce_transition : TaskStatus → Task → Option String → Exec Task
unfolding observe_duration invalidate_usage notify_transition
announce_transition status task error = do
  emit (transition status)
  observe_duration status task
  invalidate_usage task.user_id
  notify_transition status task error
  pure task

-- TaskService.transition_for_worker
unfoldable pub transition_for_worker :
    ℕ → TaskStatus → (phase error summary : Option String) → Exec Task
unfolding update_status
transition_for_worker task_id status phase error summary = do
  found ← query (λ db. get_row (λ t. t.id) task_id db.tasks)
  before ← or_raise (not_found "Task not found") found
  now ← utcnow
  updated ← update_status task_id status (worker_changes now status before phase error summary)
  task ← or_raise (not_found "Task not found") updated
  announce_transition status task error

-- TaskService.append_assistant_message
unfoldable pub append_assistant_message : ℕ → String → Exec TaskMessage
append_assistant_message task_id content = do
  id ← uuid4
  now ← utcnow
  let reply : TaskMessage = record {
    id = id;
    task_id = task_id;
    role = TaskMessageRole.assistant;
    content = content;
    created_at = now;
  }
  commit (λ db. record db { messages = db.messages ++ reply ∷ [] })
  pure reply

-- TaskService.get_status
unfoldable pub get_status : ℕ → Exec TaskStatus
get_status task_id = do
  found ← query (λ db. get_row (λ t. t.id) task_id db.tasks)
  task ← or_raise (not_found "Task not found") found
  pure task.status

-- TaskService.get_user_id
unfoldable pub get_user_id : ℕ → Exec ℕ
get_user_id task_id = do
  found ← query (λ db. get_row (λ t. t.id) task_id db.tasks)
  task ← or_raise (not_found "Task not found") found
  pure task.user_id
