-- ===== src/Orchestrator/Contract.antt =====
-- The orchestrator as the engine that the services rely on.
use phodex.Base.{
  true, false, if◌then◌else◌, ℕ, String, ◌≡◌, refl, Bool, Option, none, some, arith, Option-cases,
  Bool-cases, inl, inr,
}
use phodex.World.{World, RuntimeState, Process, ok}
use phodex.Events.Sequence.{
  IsSequenced, append_event-IsSequenced, append_event_returns, append_event_stores,
}
use phodex.Worker.{IsLawful}
use phodex.Tasks.{get_status}
use phodex.Orchestrator.{
  Orchestrator, dispatch_task, grant, handle_approval, keep_reply, forward_reply, handle_user_reply,
  stop_state, cancel_task, engine,
}
use phodex.Orchestrator.Runtime.{state_of, write_state, add_state, is_running}

-- what the orchestrator relies on of its process runner: writing to the process succeeds and leaves
-- the tasks and the approval requests alone
pub record IsQuiet (o : Orchestrator) : Type 0 where
  pub write_ok :
      (id : ℕ) (p : Process) (s : String) (w : World) → (o.write_to_stdin id p s w).0 ≡ ok tt
  pub write_tasks :
      (id : ℕ) (p : Process) (s : String) (w : World)
      → (o.write_to_stdin id p s w).1.db.tasks ≡ w.db.tasks
  pub write_approvals :
      (id : ℕ) (p : Process) (s : String) (w : World)
      → (o.write_to_stdin id p s w).1.db.approvals ≡ w.db.approvals

module _ (o : Orchestrator) (quiet : IsQuiet o) where
  dispatch_lem :
      (id : ℕ) (w : World)
      → ((dispatch_task o id w).0 ≡ ok tt) × ((dispatch_task o id w).1.db ≡ w.db)
  unfolding dispatch_task add_state
  dispatch_lem id w = elim (Bool-cases (is_running (state_of id w))) [
    | inl busy ↦ rw busy (refl, refl)
    | inr idle ↦ rw idle (refl, refl)
  ]

  cancel_lem :
      (id : ℕ) (w : World) → ((cancel_task o id w).0 ≡ ok tt) × ((cancel_task o id w).1.db ≡ w.db)
  unfolding cancel_task stop_state write_state
  cancel_lem id w = elim (Option-cases (state_of id w)) [
    | inl none_there ↦ rw none_there (refl, refl)
    | inr (s, there) ↦ rw there (refl, refl)
  ]

  grant_db :
      (approval : ℕ) (b : Bool) (s : Option RuntimeState) (w : World)
      → (grant o approval b s w).1.db ≡ w.db
  unfolding grant write_state
  grant_db approval b none w = refl
  grant_db approval b (some s) w = elim (Option-cases s.approval_id) [
    | inl unasked ↦ rw unasked refl
    | inr (id, asked) ↦ ground arith
  ]

  approval_lem :
      (id approval : ℕ) (b : Bool) (w : World) → (handle_approval o id approval b w).1.db ≡ w.db
  unfolding handle_approval get_status
  approval_lem id approval b w = ground (arith, grant_db approval b (state_of id w) w)

  keep_lem :
      (id : ℕ) (s : String) (state : RuntimeState) (w : World)
      → ((keep_reply o id s state w).0 ≡ ok tt)
        × ((keep_reply o id s state w).1.db.tasks ≡ w.db.tasks)
        × ((keep_reply o id s state w).1.db.approvals ≡ w.db.approvals)
  unfolding keep_reply write_state
  keep_lem id s state w = (
    rw append_event_returns refl,
    rw append_event_returns (rw append_event_stores refl),
    rw append_event_returns (rw append_event_stores refl),
  )

  forward_lem :
      (id : ℕ) (s : String) (state : Option RuntimeState) (w : World)
      → ((forward_reply o id s state w).0 ≡ ok tt)
        × ((forward_reply o id s state w).1.db.tasks ≡ w.db.tasks)
        × ((forward_reply o id s state w).1.db.approvals ≡ w.db.approvals)
  unfolding forward_reply
  forward_lem id s none w = (refl, refl, refl)
  forward_lem id s (some state) w = elim (Option-cases state.process) [
    | inl unstarted ↦ rw unstarted (keep_lem id s state w)
    | inr (p, started) ↦ elim (Bool-cases p.stdin_open) [
      | inl opened ↦ (
        ground (arith, quiet.write_ok id p s w),
        ground (arith, quiet.write_tasks id p s w),
        ground (arith, quiet.write_approvals id p s w),
      )
      | inr closed ↦
          let (a, b, c) = keep_lem id s state w in
          (ground (arith, a), ground (arith, b), ground (arith, c))
    ]
  ]

  reply_lem :
      (id : ℕ) (s : String) (w : World)
      → ((handle_user_reply o id s w).0 ≡ ok tt)
        × ((handle_user_reply o id s w).1.db.tasks ≡ w.db.tasks)
        × ((handle_user_reply o id s w).1.db.approvals ≡ w.db.approvals)
  unfolding handle_user_reply
  reply_lem id s w = forward_lem id s (state_of id w) w

  -- The orchestrator keeps the contract of an engine, if writing to its process succeeds and leaves the
  -- tasks and the approval requests alone: dispatching, cancelling and passing on a reply succeed, the
  -- first two and a verdict change no table, and a reply changes neither tasks nor approvals.
  pub engine-IsLawful : IsLawful (engine o)
  engine-IsLawful = record {
    dispatch_ok = λ id w. (dispatch_lem id w).0;
    dispatch_db = λ id w. (dispatch_lem id w).1;
    cancel_ok = λ id w. (cancel_lem id w).0;
    cancel_db = λ id w. (cancel_lem id w).1;
    reply_ok = λ id s w. (reply_lem id s w).0;
    reply_tasks = λ id s w. (reply_lem id s w).1;
    reply_approvals = λ id s w. (reply_lem id s w).2;
    approval_db = approval_lem;
  }

-- a reply that the engine is passed keeps the events of every task numbered, if writing to the process does
module _ (o : Orchestrator)
    (writes : (id : ℕ) (p : Process) (s : String) (w : World)
      → IsSequenced w
      → IsSequenced (o.write_to_stdin id p s w).1) where
  keep-IsSequenced :
      (id : ℕ) (s : String) (state : RuntimeState) (w : World)
      → IsSequenced w
      → IsSequenced (keep_reply o id s state w).1
  unfolding keep_reply write_state
  keep-IsSequenced id s state w seq =
      rw append_event_returns
        (let (_, _, after, _, _) = append_event-IsSequenced id _ _ _ seq in after)

  sent-IsSequenced :
      (id : ℕ) (s : String) (state : RuntimeState) (p : Process) (w : World)
      → IsSequenced w
      → (b : Bool)
      → IsSequenced ((if b then o.write_to_stdin id p s else keep_reply o id s state) w).1
  sent-IsSequenced id s state p w seq true = writes id p s w seq
  sent-IsSequenced id s state p w seq false = keep-IsSequenced id s state w seq

  forward-IsSequenced :
      (id : ℕ) (s : String) (state : Option RuntimeState) (w : World)
      → IsSequenced w
      → IsSequenced (forward_reply o id s state w).1
  unfolding forward_reply
  forward-IsSequenced id s none w seq = seq
  forward-IsSequenced id s (some state) w seq = elim (Option-cases state.process) [
    | inl unstarted ↦ rw unstarted (keep-IsSequenced id s state w seq)
    | inr (p, started) ↦ rw started (sent-IsSequenced id s state p w seq p.stdin_open)
  ]

  pub reply-IsSequenced :
      (id : ℕ) (s : String) (w : World) → IsSequenced w → IsSequenced (handle_user_reply o id s w).1
  unfolding handle_user_reply
  reply-IsSequenced id s w = forward-IsSequenced id s (state_of id w) w
