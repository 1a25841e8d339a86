-- ===== src/Managed/Contract.antt =====
-- The engine of managed sessions as the engine that the services rely on.
use phodex.Base.{
  ℕ, String, ◌≡◌, refl, ◌∙◌, Bool, true, false, Option, none, some, arith, Option-cases, inl, inr,
  is_some,
}
use phodex.World.{World, RuntimeState, LiveEntry, SessionInput, user_message, interrupt, ok}
use phodex.Events.Sequence.{append_event_returns, append_event_stores}
use phodex.Worker.{IsLawful}
use phodex.Orchestrator as Base
use phodex.Orchestrator.{Orchestrator}
use phodex.Orchestrator.Contract as BaseContract
use phodex.Orchestrator.Runtime.{state_of, write_state}
use phodex.Managed.Client.{
  Managed, interrupt_session, interrupt_live, live_of, forward, send_user_message,
}
use phodex.Managed.Verdict.{send_ok}
use phodex.Managed.{
  session_orchestrator, handle_approval, release, keep_reply, handle_user_reply, cancel_task,
  engine,
}

-- what leaves the tasks and the approval requests alone
abbrev SameWork : World → World → Type 0
SameWork w w' = (w'.db.tasks ≡ w.db.tasks) × (w'.db.approvals ≡ w.db.approvals)

module _ (m : Managed)
    (accepts : (k : Option String) (id : String) (i : SessionInput) (v : World)
      → m.accept v k id i ≡ ok tt) where
  forward_lem :
      (task_id : ℕ) (s : String) (entry : Option LiveEntry) (w : World)
      → ((forward m task_id s entry w).0 ≡ ok (is_some entry))
        × SameWork w (forward m task_id s entry w).1
  unfolding forward
  forward_lem task_id s none w = (refl, (refl, refl))
  forward_lem task_id s (some entry) w =
      let e = send_ok m entry.api_key entry.session_id (user_message s) w (accepts _ _ _ w) in
      (
        rw e (rw append_event_returns refl),
        (
          rw e (rw append_event_returns (rw append_event_stores refl)),
          rw e (rw append_event_returns (rw append_event_stores refl)),
        ),
      )

  interrupt_lem :
      (task_id : ℕ) (w : World)
      → ((interrupt_session m task_id w).0 ≡ ok tt) × ((interrupt_session m task_id w).1.db ≡ w.db)
  unfolding interrupt_session interrupt_live
  interrupt_lem task_id w = elim (Option-cases (live_of m task_id w)) [
    | inl missing ↦ rw missing (refl, refl)
    | inr (entry, there) ↦
        rw there
          (rw (send_ok m entry.api_key entry.session_id interrupt w (accepts _ _ _ w)) (refl, refl))
  ]

  module _ (o : Orchestrator) where
    abbrev base : Orchestrator
    base = session_orchestrator m o

    base-IsQuiet : BaseContract.IsQuiet base
    unfolding send_user_message
    base-IsQuiet = record {
      write_ok = λ id p s w. let (r, same) = forward_lem id s (live_of m id w) w in rw r refl;
      write_tasks =
          λ id p s w. let (r, same) = forward_lem id s (live_of m id w) w in rw r (same.0);
      write_approvals =
          λ id p s w. let (r, same) = forward_lem id s (live_of m id w) w in rw r (same.1);
    }

    base-IsLawful : IsLawful (Base.engine base)
    base-IsLawful = BaseContract.engine-IsLawful base base-IsQuiet

    cancel_lem :
        (id : ℕ) (w : World)
        → ((cancel_task m o id w).0 ≡ ok tt) × ((cancel_task m o id w).1.db ≡ w.db)
    unfolding cancel_task
    cancel_lem id w =
        let (r, same) = interrupt_lem id w in
        let w1 = (interrupt_session m id w).1 in
        (rw r (base-IsLawful.cancel_ok id w1), rw r (base-IsLawful.cancel_db id w1 ∙ same))

    release_db :
        (approval : ℕ) (s : Option RuntimeState) (w : World)
        → (release m o approval s w).1.db ≡ w.db
    unfolding release write_state
    release_db approval none w = refl
    release_db approval (some s) w = elim (Option-cases s.approval_id) [
      | inl unasked ↦ rw unasked refl
      | inr (id, asked) ↦ ground arith
    ]

    approval_lem :
        (id approval : ℕ) (b : Bool) (w : World) → (handle_approval m o id approval b w).1.db ≡ w.db
    unfolding handle_approval
    approval_lem id approval true w = base-IsLawful.approval_db id approval true w
    approval_lem id approval false w = release_db approval (state_of id w) w

    keep_lem :
        (id : ℕ) (s : String) (state : Option RuntimeState) (w : World)
        → ((keep_reply m o id s state w).0 ≡ ok tt) × SameWork w (keep_reply m o id s state w).1
    unfolding keep_reply write_state
    keep_lem id s none w = (refl, (refl, refl))
    keep_lem id s (some state) w = (
      rw append_event_returns refl,
      (
        rw append_event_returns (rw append_event_stores refl),
        rw append_event_returns (rw append_event_stores refl),
      ),
    )

    reply_cases :
        (id : ℕ) (s : String) (entry : Option LiveEntry) (w : World)
        → live_of m id w ≡ entry
        → ((handle_user_reply m o id s w).0 ≡ ok tt) × SameWork w (handle_user_reply m o id s w).1
    unfolding handle_user_reply send_user_message
    reply_cases id s none w missing =
        let (r, same) = keep_lem id s (state_of id w) w in rw missing (r, (same.0, same.1))
    reply_cases id s (some entry) w there =
        let (r, same) = forward_lem id s (some entry) w in rw there (rw r (refl, same))

    -- The engine of managed sessions keeps the contract of an engine, if the API takes what is sent to
    -- a session: dispatching, cancelling and passing on a reply succeed, the first two and a verdict
    -- change no table, and a reply changes neither tasks nor approvals.
    pub managed_engine-IsLawful : IsLawful (engine m o)
    managed_engine-IsLawful = record {
      dispatch_ok = base-IsLawful.dispatch_ok;
      dispatch_db = base-IsLawful.dispatch_db;
      cancel_ok = λ id w. (cancel_lem id w).0;
      cancel_db = λ id w. (cancel_lem id w).1;
      reply_ok = λ id s w. (reply_cases id s (live_of m id w) w refl).0;
      reply_tasks = λ id s w. (reply_cases id s (live_of m id w) w refl).1.0;
      reply_approvals = λ id s w. (reply_cases id s (live_of m id w) w refl).1.1;
      approval_db = approval_lem;
    }
