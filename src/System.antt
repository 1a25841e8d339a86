-- ===== src/System.antt =====
-- The backend as a whole, as sequences of the steps of app/services/task_service.py,
-- app/services/approval_service.py and app/services/event_service.py that workers and requests take
-- in any order.
pub mod Frame
pub mod Numbering
pub mod Once
use phodex.Base.{
  arith, All-set_row, ℕ, String, ◌≡◌, refl, Option, ◌⊎◌, inl, inr, Option-cases, Bool-cases,
}
use phodex.Json.{Fields}
use phodex.Models.{Task, TaskStatus, ApprovalStatus, ApprovalRequest, is_pending, is_waiting}
use phodex.World.{World}
use phodex.Worker.{WorkerEngine, Lawful, reply_keeps}
use Frame.{add_reply-Holds, approve-Holds, reject-Holds}
use phodex.Events.{append_event}
use phodex.Events.Sequence.{append_event_stores}
use phodex.Tasks.{
  create_task, cancel_task, add_reply, touch, transition_for_worker, append_assistant_message,
}
use phodex.Tasks.Lifecycle.{IsTimed, AllTimed, create_task-AllTimed, transition-AllTimed}
use phodex.Tasks.Cancellation.{cancel_task-AllTimed}
use phodex.Approvals.Request.{request_lem}
use phodex.Approvals.{
  approve, reject, resolve, get_with_task, task_of, write_resolution, create_approval_request,
}
use phodex.Approvals.Effects.{write_tasks, failed-IsTimed}

-- One call of a service, by whomever and with whatever arguments, that leads from `w` to `w'`: a request of
-- a user (create_task, cancel_task, add_reply, approve, reject), or a part of a worker's job
-- (transition_for_worker, create_approval_request, append_event, append_assistant_message). The git
-- service writes to these tables by append_event alone.
pub data Step (engine : Option WorkerEngine) (w w' : World) : Type 0 where
  created :
      (user_id : ℕ) (prompt : String) (context_id : Option ℕ) (title : Option String)
      → w' ≡ (create_task engine user_id prompt context_id title w).1
      → Step engine w w'
  cancelled :
      (user_id task_id : ℕ) → w' ≡ (cancel_task engine user_id task_id w).1 → Step engine w w'
  moved :
      (task_id : ℕ) (status : TaskStatus) (phase error summary : Option String)
      → w' ≡ (transition_for_worker task_id status phase error summary w).1
      → Step engine w w'
  requested :
      (task_id : ℕ) (kind title description : String) (payload : Fields)
      → w' ≡ (create_approval_request task_id kind title description payload w).1
      → Step engine w w'
  replied :
      (user_id task_id : ℕ) (content : String)
      → w' ≡ (add_reply engine user_id task_id content w).1
      → Step engine w w'
  approved :
      (user_id approval_id : ℕ) (note : Option String)
      → w' ≡ (approve engine user_id approval_id note w).1
      → Step engine w w'
  rejected :
      (user_id approval_id : ℕ) (note : Option String)
      → w' ≡ (reject engine user_id approval_id note w).1
      → Step engine w w'
  logged :
      (task_id : ℕ) (kind : String) (payload : Fields)
      → w' ≡ (append_event task_id kind payload w).1
      → Step engine w w'
  answered :
      (task_id : ℕ) (text : String)
      → w' ≡ (append_assistant_message task_id text w).1
      → Step engine w w'

-- a sequence of steps
pub data Reach (engine : Option WorkerEngine) : World → World → Type 0 where
  done : (w : World) → Reach engine w w
  next : {u v w : World} → Step engine u v → Reach engine v w → Reach engine u w

-- a resolution changes nothing, or writes to one request
pub resolve_any :
    (user_id approval_id : ℕ) (status : ApprovalStatus) (remark : Option String) (w : World)
    → ((resolve user_id approval_id status remark w).1 ≡ w)
      ⊎ ((a : ApprovalRequest) × ((resolve user_id approval_id status remark w).1
            ≡ (write_resolution a status remark w).1))
unfolding resolve
resolve_any user_id approval_id status remark w =
    elim (Option-cases (get_with_task approval_id user_id w.db)) [
      | inl missing ↦ inl (rw missing refl)
      | inr (a, found) ↦ elim (Bool-cases (is_pending a.status)) [
        | inr settled ↦ inl (rw found (rw settled refl))
        | inl open_one ↦ elim (Option-cases (task_of a w.db)) [
          | inl orphan ↦ inl (rw found (rw open_one (rw orphan refl)))
          | inr (t, has) ↦ elim (Bool-cases (is_waiting t.status)) [
            | inr busy ↦ inl (rw found (rw open_one (rw has (rw busy refl))))
            | inl waits ↦ inr (a, rw found (rw open_one (rw has (rw waits refl))))
          ]
        ]
      ]
    ]

resolve_any-AllTimed :
    (user_id approval_id : ℕ) (status : ApprovalStatus) (note : Option String) (w : World)
    → AllTimed w.db
    → AllTimed (resolve user_id approval_id status note w).1.db
resolve_any-AllTimed user_id approval_id status note w timed =
    elim (resolve_any user_id approval_id status note w) [
      | inl same ↦ rw same timed
      | inr (a, written) ↦
          rw written (rw (write_tasks a status note w) (failed-IsTimed a status note w timed))
    ]

append_event-AllTimed :
    (task_id : ℕ) (kind : String) (payload : Fields) (w : World)
    → AllTimed w.db
    → AllTimed (append_event task_id kind payload w).1.db
append_event-AllTimed task_id kind payload w timed = rw append_event_stores timed

module _ (engine : Option WorkerEngine) (lawful : Lawful engine) where
  reply-AllTimed :
      (user_id task_id : ℕ) (content : String) (w : World)
      → AllTimed w.db
      → AllTimed (add_reply engine user_id task_id content w).1.db
  unfolding touch
  reply-AllTimed =
      add_reply-Holds AllTimed engine lawful append_event-AllTimed
        (λ db id now ms timed.
          All-set_row (λ (t : Task). t.id) IsTimed id (touch now) db.tasks timed
            (λ t found before. ground arith))
        (λ id s w timed. rw (reply_keeps engine lawful id s w) timed)

  step-AllTimed : (u v : World) → Step engine u v → AllTimed u.db → AllTimed v.db
  unfolding append_assistant_message
  step-AllTimed u v (created user_id prompt context_id title e) timed =
      rw e (create_task-AllTimed engine lawful user_id prompt context_id title u timed)
  step-AllTimed u v (cancelled user_id task_id e) timed =
      rw e (cancel_task-AllTimed engine lawful task_id user_id u timed)
  step-AllTimed u v (replied user_id task_id content e) timed =
      rw e (reply-AllTimed user_id task_id content u timed)
  step-AllTimed u v (approved user_id approval_id note e) timed = rw e (
      approve-Holds AllTimed engine lawful append_event-AllTimed
        (λ user id status text final. resolve_any-AllTimed user id status text) user_id approval_id
        note u timed)
  step-AllTimed u v (rejected user_id approval_id note e) timed = rw e (
      reject-Holds AllTimed engine lawful append_event-AllTimed
        (λ user id status text final. resolve_any-AllTimed user id status text) user_id approval_id
        note u timed)
  step-AllTimed u v (moved task_id status phase error summary e) timed =
      rw e (transition-AllTimed task_id status phase error summary u timed)
  step-AllTimed u v (requested task_id kind title description payload e) timed =
      rw e (rw ((request_lem task_id kind title description payload u).1) timed)
  step-AllTimed u v (logged task_id kind payload e) timed =
      rw e (append_event-AllTimed task_id kind payload u timed)
  step-AllTimed u v (answered task_id text e) timed = rw e timed

  -- Over every sequence of calls of create_task, add_reply, cancel_task, approve, reject,
  -- transition_for_worker, create_approval_request, append_event and append_assistant_message, in any
  -- order, every task that has ended keeps an end time, every task that has begun a start time, and every
  -- cancelled one the time of its cancellation. The engine is assumed to keep its contract.
  pub Reach-AllTimed : (u w : World) → Reach engine u w → AllTimed u.db → AllTimed w.db
  Reach-AllTimed u w (done _) timed = timed
  Reach-AllTimed u w (next {v = v} step rest) timed =
      Reach-AllTimed v w rest (step-AllTimed u v step timed)
