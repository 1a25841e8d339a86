-- ===== src/Tasks/Queries.antt =====
-- The actions of backend/app/services/task_service.py that read.
use phodex.Base.{
  starts_with, ℕ, ◌≡◌, refl, String, Bool, false, ◌||◌, Option, none, some, List, map, arith, ◌==◌,
  str_eq, where_rows, order_by, Option-cases, inl, inr, ◌⊎◌,
}
use phodex.Json.{Json, Fields, get_field, truthy}
use phodex.Models.{Task, TaskMessage, ApprovalRequest}
use phodex.World.{World, Db, Envelope, Exec, not_found, ok, err, pure, query, ◌>>=◌, ◌>>◌}
use phodex.Events.{list_envelopes, list_by_task, to_envelope}
use phodex.Tasks.{get_task, by_id_and_user}

-- TaskService.list_tasks, the newest first
unfoldable pub list_tasks : ℕ → Db → List Task
list_tasks user_id db =
    mathlib.Core.List.reverse
      (order_by (λ t. t.created_at) (where_rows (λ t. t.user_id == user_id) db.tasks))

-- TaskRepository.list_messages
abbrev pub messages_of : ℕ → Db → List TaskMessage
messages_of task_id db =
    order_by (λ m. m.created_at) (where_rows (λ m. m.task_id == task_id) db.messages)

-- the query for the approvals in TaskService.get_task_detail
abbrev pub approvals_of : ℕ → Db → List ApprovalRequest
approvals_of task_id db =
    order_by (λ a. a.created_at) (where_rows (λ a. a.task_id == task_id) db.approvals)

-- what TaskService.get_task_detail returns
pub record TaskDetail : Type 0 where
  pub task : Task
  pub messages : List TaskMessage
  pub events : List Envelope
  pub approvals : List ApprovalRequest

-- TaskService.get_task_detail
unfoldable pub get_task_detail : ℕ → ℕ → Exec TaskDetail
get_task_detail user_id task_id = do
  task ← get_task user_id task_id
  messages ← query (messages_of task_id)
  approvals ← query (approvals_of task_id)
  events ← list_envelopes task_id 0
  pure (record { task = task; messages = messages; events = events; approvals = approvals })

-- TaskService.list_messages
unfoldable pub list_messages : ℕ → ℕ → Exec (List TaskMessage)
list_messages user_id task_id = do get_task user_id task_id; query (messages_of task_id)

-- TaskService.list_events
unfoldable pub list_events : ℕ → ℕ → Exec (List Envelope)
list_events user_id task_id = do get_task user_id task_id; list_envelopes task_id 0

-- `bool(data.get("error_code"))`
abbrev has_error_code : Fields → Bool
has_error_code payload = elim (get_field "error_code" payload) [ none ↦ false | some v ↦ truthy v ]

-- the test for an issue
abbrev pub is_issue : Envelope → Bool
is_issue event =
    has_error_code event.payload
    || (str_eq event.event_type "task.failed"
        || (str_eq event.event_type "approval.rejected" || starts_with event.event_type "error."))

-- `TaskIssueOut`
pub record TaskIssue : Type 0 where
  pub sequence : ℕ
  pub event_type : String
  pub timestamp : ℕ
  pub code : Option Json
  pub message : String
  pub payload : Fields

-- the issue of an event; `python_str` is Python's `str`
abbrev pub issue_of : (Json → String) → Envelope → TaskIssue
issue_of python_str event = record {
  sequence = event.sequence;
  event_type = event.event_type;
  timestamp = event.timestamp;
  code = get_field "error_code" event.payload;
  message = elim (get_field "message" event.payload) [
    | none ↦ event.event_type
    | some v ↦ python_str v
  ];
  payload = event.payload;
}

-- TaskService.list_issues
unfoldable pub list_issues : (Json → String) → ℕ → ℕ → Exec (List TaskIssue)
list_issues python_str user_id task_id = do
  get_task user_id task_id
  events ← list_envelopes task_id 0
  pure (map (issue_of python_str) (where_rows is_issue events))

module _ (user_id task_id : ℕ) (w : World) where
  abbrev Denied : {A : Type 0} → Exec A → Type 0
  Denied m = m w ≡ (err (not_found "Task not found"), w)

  denied :
      by_id_and_user task_id user_id w.db ≡ none
      → get_task user_id task_id w ≡ (err (not_found "Task not found"), w)
  unfolding get_task
  denied missing = ground arith

  granted :
      (t : Task)
      → by_id_and_user task_id user_id w.db ≡ some t
      → get_task user_id task_id w ≡ (ok t, w)
  unfolding get_task
  granted t found = ground arith

  -- Nothing of a task is shown to a user who does not have it: its detail, messages, events and issues
  -- raise the same error as a task that does not exist. Its owner gets the detail with the messages,
  -- events and approvals of the task, and no read changes anything.
  reads_are_owned :
      (python_str : Json → String)
      → ((by_id_and_user task_id user_id w.db ≡ none)
          × Denied (get_task_detail user_id task_id)
          × Denied (list_messages user_id task_id)
          × Denied (list_events user_id task_id)
          × Denied (list_issues python_str user_id task_id))
        ⊎ ((t : Task) × (by_id_and_user task_id user_id w.db ≡ some t)
            × (get_task_detail user_id task_id w ≡ (
              ok (record {
                task = t;
                messages = messages_of task_id w.db;
                events = map to_envelope (list_by_task task_id 0 w.db);
                approvals = approvals_of task_id w.db;
              }),
              w,
            ))
            × ((list_messages user_id task_id w).1 ≡ w)
            × ((list_events user_id task_id w).1 ≡ w)
            × ((list_issues python_str user_id task_id w).1 ≡ w))
  unfolding get_task_detail list_messages list_events list_issues list_envelopes
  reads_are_owned python_str = elim (Option-cases (by_id_and_user task_id user_id w.db)) [
    | inl missing ↦ inl (
      missing,
      rw (denied missing) refl,
      rw (denied missing) refl,
      rw (denied missing) refl,
      rw (denied missing) refl,
    )
    | inr (t, found) ↦ inr (
      t,
      found,
      rw (granted t found) refl,
      rw (granted t found) refl,
      rw (granted t found) refl,
      rw (granted t found) refl,
    )
  ]
