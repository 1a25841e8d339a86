-- ===== src/Approvals.antt =====
-- backend/app/repositories/approval_repo.py and backend/app/services/approval_service.py. `_resolve`
-- locks the approval request and its task, so it is one step.
pub mod Resolution
pub mod Effects
pub mod Request
use phodex.Base.{
  ℕ, String, Bool, true, false, ◌&&◌, not, Option, none, some, List, [], ◌∷◌, ◌++◌, ◌==◌,
  if◌then◌else◌, is_none, get_row, set_row, first_row, where_rows, order_by,
}
use phodex.Json.{Json, Fields, str, null, bool, end, field, set_field, str_or_null}
use phodex.Models.{TaskStatus, Task, ApprovalStatus, ApprovalRequest, is_pending, is_waiting}
use phodex.World.{
  World, Db, Exec, not_found, conflict, pure, raise, gets, or_raise, raise_if, query, commit, when,
  utcnow, uuid4, ◌>>=◌, ◌>>◌,
}
use phodex.Events.{append_event}
use phodex.Push.{notify_user}
use phodex.Worker.{WorkerEngine, dispatcher}
use phodex.Tasks.{invalidate_usage}

-- the join with the task: whether it belongs to the user
abbrev pub owns : ℕ → Option Task → Bool
owns user_id none = false
owns user_id (some t) = t.user_id == user_id

abbrev pub task_of : ApprovalRequest → Db → Option Task
task_of a db = get_row (λ t. t.id) a.task_id db.tasks

-- ApprovalRepository.list_pending
unfoldable pub list_pending : ℕ → Db → List ApprovalRequest
list_pending user_id db =
    order_by (λ a. a.created_at)
      (where_rows (λ a. owns user_id (task_of a db) && is_pending a.status) db.approvals)

-- ApprovalRepository.list_for_task
unfoldable pub list_for_task : ℕ → ℕ → Db → List ApprovalRequest
list_for_task user_id task_id db =
    order_by (λ a. a.created_at)
      (where_rows (λ a. owns user_id (task_of a db) && a.task_id == task_id) db.approvals)

-- ApprovalRepository.get_with_task
unfoldable pub get_with_task : ℕ → ℕ → Db → Option ApprovalRequest
get_with_task approval_id user_id db =
    first_row (λ a. a.id == approval_id && owns user_id (task_of a db)) db.approvals

-- `{**payload_json, "resolution_note": note}`, if there is a note
abbrev pub with_note : Option String → Fields → Fields
with_note none payload = payload
with_note (some note) payload = set_field "resolution_note" (str note) payload

-- the assignments of ApprovalRepository.update_status
abbrev pub resolved : ApprovalStatus → ℕ → Option String → ApprovalRequest → ApprovalRequest
resolved status now note a = record a {
  status = status;
  resolved_at = some now;
  payload_json = with_note note a.payload_json;
}

-- the assignments of `_resolve` to the task of a rejected request
abbrev pub failed_by_rejection : ℕ → ℕ → Task → Task
failed_by_rejection now later t = record t {
  status = TaskStatus.failed;
  error_message = some "Approval rejected";
  finished_at = some now;
  current_phase = some "approval_rejected";
  updated_at = later;
}

abbrev pub is_rejected : ApprovalStatus → Bool
is_rejected ApprovalStatus.rejected = true
is_rejected _ = false

-- the writes of ApprovalService._resolve
unfoldable pub write_resolution :
    ApprovalRequest → ApprovalStatus → Option String → Exec ApprovalRequest
write_resolution approval status note = do
  now ← utcnow
  commit (λ db. record db {
    approvals = set_row (λ a. a.id) approval.id (resolved status now note) db.approvals;
  })
  when (is_rejected status) (do
    finished ← utcnow
    updated ← utcnow
    commit (λ db. record db {
      tasks = set_row (λ t. t.id) approval.task_id (failed_by_rejection finished updated) db.tasks;
    }))
  pure (resolved status now note approval)

-- ApprovalService._resolve
unfoldable pub resolve : ℕ → ℕ → ApprovalStatus → Option String → Exec ApprovalRequest
unfolding get_with_task
resolve user_id approval_id status note = do
  found ← query (get_with_task approval_id user_id)
  approval ← or_raise (not_found "Approval request not found") found
  raise_if (not (is_pending approval.status)) (conflict "Approval request already resolved")
  of_request ← query (task_of approval)
  task ← or_raise (not_found "Task not found") of_request
  raise_if (not (is_waiting task.status)) (conflict "Task is not waiting for approval")
  write_resolution approval status note

-- ApprovalService._invalidate_usage_for_task
unfoldable pub invalidate_usage_for_task : ℕ → Exec (Unit {0})
invalidate_usage_for_task task_id w = elim (get_row (λ t. t.id) task_id w.db.tasks) [
  | none ↦ pure tt w
  | some task ↦ invalidate_usage task.user_id w
]

abbrev pub approved_payload : String → Option String → Fields
approved_payload id note = field "approval_id" (str id) (field "note" (str_or_null note) end)

-- ApprovalService.approve behind `_resolve`
unfoldable pub announce_approval :
    Option WorkerEngine → Option String → ApprovalRequest → Exec ApprovalRequest
announce_approval engine note approval = do
  id ← gets (λ w. w.env.uuid_str approval.id)
  append_event approval.task_id "approval.approved" (approved_payload id note)
  dispatcher engine (λ e. e.handle_approval approval.task_id approval.id true)
  invalidate_usage_for_task approval.task_id
  pure approval

-- ApprovalService.approve
unfoldable pub approve : Option WorkerEngine → ℕ → ℕ → Option String → Exec ApprovalRequest
approve engine user_id approval_id note = do
  approval ← resolve user_id approval_id ApprovalStatus.approved note
  announce_approval engine note approval

abbrev pub rejection : Fields
rejection = field "error_code" (str "APPROVAL_REJECTED") (field "is_retryable" (bool false) end)

abbrev pub rejected_payload : String → Option String → Fields
rejected_payload id note =
    field "approval_id" (str id) (
      field "note" (str_or_null note) (field "message" (str "Approval rejected by user") rejection))

abbrev pub failure_payload : Fields
failure_payload = field "message" (str "Task failed because approval was rejected") rejection

-- ApprovalService.reject behind `_resolve`
unfoldable pub announce_rejection :
    Option WorkerEngine → Option String → ApprovalRequest → Exec ApprovalRequest
announce_rejection engine note approval = do
  id ← gets (λ w. w.env.uuid_str approval.id)
  append_event approval.task_id "approval.rejected" (rejected_payload id note)
  append_event approval.task_id "task.failed" failure_payload
  dispatcher engine (λ e. e.handle_approval approval.task_id approval.id false)
  invalidate_usage_for_task approval.task_id
  pure approval

-- ApprovalService.reject
unfoldable pub reject : Option WorkerEngine → ℕ → ℕ → Option String → Exec ApprovalRequest
reject engine user_id approval_id note = do
  approval ← resolve user_id approval_id ApprovalStatus.rejected note
  announce_rejection engine note approval

-- the owner's push message of ApprovalService.create_approval_request
unfoldable pub notify_owner : Option Task → ApprovalRequest → Exec (Unit {0})
notify_owner none approval w = pure tt w
notify_owner (some task) approval w =
    notify_user task.user_id "Approval needed" approval.title
      (field "task_id" (str (w.env.uuid_str approval.task_id)) (
        field "approval_id" (str (w.env.uuid_str approval.id))
          (field "type" (str "approval.requested") end)))
      w

-- the row that ApprovalService.create_approval_request adds
unfoldable pub insert_approval :
    ℕ → (kind title description : String) → Fields → Exec ApprovalRequest
insert_approval task_id kind title description payload_json = do
  id ← uuid4
  now ← utcnow
  let approval : ApprovalRequest = record {
    id = id;
    task_id = task_id;
    kind = kind;
    title = title;
    description = description;
    payload_json = payload_json;
    status = ApprovalStatus.pending;
    created_at = now;
    resolved_at = none;
  }
  commit (λ db. record db { approvals = db.approvals ++ approval ∷ [] })
  pure approval

-- ApprovalService.create_approval_request
unfoldable pub create_approval_request :
    ℕ → (kind title description : String) → Fields → Exec ApprovalRequest
unfolding insert_approval notify_owner
create_approval_request task_id kind title description payload_json = do
  approval ← insert_approval task_id kind title description payload_json
  task ← query (task_of approval)
  id ← gets (λ w. w.env.uuid_str approval.id)
  append_event task_id "approval.requested" (
      field "approval_id" (str id) (
        field "kind" (str kind)
          (field "title" (str title) (field "description" (str description) end))))
  notify_owner task approval
  pure approval
