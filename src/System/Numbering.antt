-- ===== src/System/Numbering.antt =====
-- The numbering of the events over sequences of calls.
use phodex.Base.{ℕ, String, ◌≡◌, refl, false, Option, inl, inr, arith}
use phodex.Json.{Fields}
use phodex.Models.{ApprovalStatus, is_pending}
use phodex.World.{World, Db}
use phodex.Worker.{WorkerEngine, Lawful, dispatcher}
use phodex.Events.{append_event}
use phodex.Events.Sequence.{IsSequenced, Numbered, append_event-IsSequenced}
use phodex.Approvals.{create_approval_request, resolve, write_resolution}
use phodex.Approvals.Request.{request_events}
use phodex.System.{Step, Reach, done, next, resolve_any}
use phodex.System.Frame.{
  Holds, create_task-Holds, cancel_task-Holds, add_reply-Holds, approve-Holds, reject-Holds,
  transition-Holds, message-Holds,
}

-- the events of every task are numbered, as a property of the tables
abbrev Sequenced : Db → Type 0
Sequenced db = (t : ℕ) → Numbered t 0 db.events

append_event-Sequenced :
    (task_id : ℕ) (kind : String) (payload : Fields)
    → Holds Sequenced (append_event task_id kind payload)
append_event-Sequenced task_id kind payload w seq =
    let (_, _, after, _, _) = append_event-IsSequenced task_id kind payload w seq in after

request-Sequenced :
    (task_id : ℕ) (kind title description : String) (payload : Fields)
    → Holds Sequenced (create_approval_request task_id kind title description payload)
request-Sequenced task_id kind title description payload w seq =
    let (v, same, after) = request_events task_id kind title description payload w in
    λ t. rw after (append_event-Sequenced task_id "approval.requested" _ v (λ t. rw same (seq t)) t)

resolve-Sequenced :
    (user_id approval_id : ℕ) (status : ApprovalStatus) (remark : Option String)
    → is_pending status ≡ false
    → Holds Sequenced (resolve user_id approval_id status remark)
unfolding write_resolution
resolve-Sequenced user_id approval_id status remark final w seq =
    let same : (resolve user_id approval_id status remark w).1.db.events ≡ w.db.events =
      elim (resolve_any user_id approval_id status remark w) [
        | inl idle ↦ rw idle refl
        | inr (a, stores) ↦ rw stores (ground arith)
      ] in
    λ t. rw same (seq t)

-- a reply that is passed to the engine keeps the events numbered
abbrev pub Orderly : Option WorkerEngine → Type 0
Orderly engine =
    (task_id : ℕ) (content : String) (w : World)
    → IsSequenced w
    → IsSequenced (dispatcher engine (λ e. e.handle_user_reply task_id content) w).1

module _ (engine : Option WorkerEngine) (lawful : Lawful engine) (orderly : Orderly engine) where
  step-IsSequenced : (u v : World) → Step engine u v → IsSequenced u → IsSequenced v
  step-IsSequenced u v (Step.created user_id prompt context_id title e) seq = rw e (
      create_task-Holds Sequenced engine lawful append_event-Sequenced (λ db ts ms h. h) user_id
        prompt context_id title u seq)
  step-IsSequenced u v (Step.cancelled user_id task_id e) seq = rw e (
      cancel_task-Holds Sequenced engine lawful append_event-Sequenced (λ db ts ms h. h) user_id
        task_id u seq)
  step-IsSequenced u v (Step.replied user_id task_id content e) seq = rw e (
      add_reply-Holds Sequenced engine lawful append_event-Sequenced (λ db id now ms h. h) orderly
        user_id task_id content u seq)
  step-IsSequenced u v (Step.approved user_id approval_id note e) seq = rw e (
      approve-Holds Sequenced engine lawful append_event-Sequenced resolve-Sequenced user_id
        approval_id note u seq)
  step-IsSequenced u v (Step.rejected user_id approval_id note e) seq = rw e (
      reject-Holds Sequenced engine lawful append_event-Sequenced resolve-Sequenced user_id
        approval_id note u seq)
  step-IsSequenced u v (Step.moved task_id status phase error summary e) seq = rw e (
      transition-Holds Sequenced engine lawful append_event-Sequenced (λ db ts ms h. h) task_id
        status phase error summary u seq)
  step-IsSequenced u v (Step.requested task_id kind title description payload e) seq =
      rw e (request-Sequenced task_id kind title description payload u seq)
  step-IsSequenced u v (Step.logged task_id kind payload e) seq =
      rw e (append_event-Sequenced task_id kind payload u seq)
  step-IsSequenced u v (Step.answered task_id text e) seq = rw e (
      message-Holds Sequenced engine lawful append_event-Sequenced (λ db ts ms h. h) task_id text u
        seq)

  -- Over every sequence of calls of create_task, add_reply, cancel_task, approve, reject,
  -- transition_for_worker, create_approval_request, append_event and append_assistant_message, in any
  -- order, the events of every task stay numbered 1, 2, 3, … in the order in which they were appended,
  -- without a gap and without a number that stands twice. The engine is assumed to keep its contract, and
  -- to keep the events numbered when it is passed a reply.
  pub Reach-IsSequenced : (u w : World) → Reach engine u w → IsSequenced u → IsSequenced w
  Reach-IsSequenced u w (done _) seq = seq
  Reach-IsSequenced u w (next {v = v} step rest) seq =
      Reach-IsSequenced v w rest (step-IsSequenced u v step seq)
