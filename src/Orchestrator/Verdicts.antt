-- ===== src/Orchestrator/Verdicts.antt =====
-- What an approval and a rejection do to the job that waits for them.
use phodex.Base.{
  ℕ, String, ◌≡◌, refl, Bool, true, false, Option, some, arith, set_row, get_row-set_row,
  key-get_row, ◌∙◌,
}
use phodex.Json.{Fields}
use phodex.Events.{append_event}
use phodex.Worker.{dispatcher}
use phodex.Models.{Task, ApprovalStatus, ApprovalRequest, is_waiting}
use phodex.World.{World, RuntimeState, ok, pure, ◌>>◌}
use phodex.Events.Sequence.{append_event_returns, append_event_stores, append_event-SameRuntime}
use phodex.Tasks.{get_status, invalidate_usage}
use phodex.Tasks.Transitions.{find_task}
use phodex.Approvals.{
  approve, reject, invalidate_usage_for_task, write_resolution, announce_rejection,
  announce_approval, approved_payload, rejected_payload, failure_payload,
}
use phodex.Approvals.Resolution.{find_approval, Keyed, IsOpen, resolve_found}
use phodex.Approvals.Effects.{
  write_returns, write_tasks, write_resolution-SameRuntime, settled, failed_task,
}
use phodex.Orchestrator.{Orchestrator, engine, handle_approval, grant}
use phodex.Orchestrator.Runtime.{state_of, state_of_same, state_of-get_row, write_state}
use phodex.Orchestrator.Jobs.{find_state, signalled, CanWake}

-- the runtime states of the engine
abbrev pub SameStates : World → World → Type 0
SameStates w w' = (w'.heap ≡ w.heap) × (w'.states ≡ w.states)

-- the engine takes no notice of a verdict on a task that does not wait
handle_approval_idle :
    (o : Orchestrator) (task_id approval_id : ℕ) (approved : Bool) (t : Task) (w : World)
    → find_task task_id w.db ≡ some t
    → is_waiting t.status ≡ false
    → handle_approval o task_id approval_id approved w ≡ (ok tt, w)
unfolding handle_approval get_status
handle_approval_idle o task_id approval_id approved t w found idle = ground arith

pub invalidate_lem :
    (task_id : ℕ) (w : World)
    → ((invalidate_usage_for_task task_id w).0 ≡ ok tt)
      × ((invalidate_usage_for_task task_id w).1.db ≡ w.db)
      × SameStates w (invalidate_usage_for_task task_id w).1
unfolding invalidate_usage_for_task invalidate_usage
invalidate_lem task_id w = ground arith

abbrev pub Same-trans : (u v w : World) → SameStates u v → SameStates v w → SameStates u w
Same-trans u v w p q = (q.0 ∙ p.0, q.1 ∙ p.1)

pub append_event-SameStates :
    (task_id : ℕ) (kind : String) (payload : Fields) (w : World)
    → SameStates w (append_event task_id kind payload w).1
append_event-SameStates task_id kind payload w =
    let s = append_event-SameRuntime task_id kind payload w in (s.heap, s.states)

pub invalidate_then :
    (a : ApprovalRequest) (w : World)
    → SameStates w ((invalidate_usage_for_task a.task_id >> pure a) w).1
invalidate_then a w = let (r, _, s) = invalidate_lem a.task_id w in ground (arith, r, s)

module _ (o : Orchestrator) (note : Option String) (a : ApprovalRequest) (t : Task) (w : World)
    (found : find_task a.task_id w.db ≡ some t) (ended : is_waiting t.status ≡ false) where
  found_after :
      (kind : String) (payload : Fields) (v : World)
      → find_task a.task_id v.db ≡ some t
      → find_task a.task_id (append_event a.task_id kind payload v).1.db ≡ some t
  found_after kind payload v h = rw append_event_stores h

  announce_rejection-SameStates : SameStates w (announce_rejection (some (engine o)) note a w).1
  unfolding announce_rejection dispatcher
  announce_rejection-SameStates =
      let p = rejected_payload (w.env.uuid_str a.id) note in
      let w1 = (append_event a.task_id "approval.rejected" p w).1 in
      let w2 = (append_event a.task_id "task.failed" failure_payload w1).1 in
      let idle =
        handle_approval_idle o a.task_id a.id false t w2
          (found_after "task.failed" failure_payload w1 (found_after "approval.rejected" p w found))
          ended in
      let same =
        Same-trans w w1 w2 (append_event-SameStates a.task_id "approval.rejected" p w)
          (append_event-SameStates a.task_id "task.failed" failure_payload w1) in
      rw append_event_returns (
        rw append_event_returns (
          rw idle (
            Same-trans w w2 ((invalidate_usage_for_task a.task_id >> pure a) w2).1 same
              (invalidate_then a w2))))

  announce_rejection_returns : (announce_rejection (some (engine o)) note a w).0 ≡ ok a
  unfolding announce_rejection dispatcher
  announce_rejection_returns =
      let p = rejected_payload (w.env.uuid_str a.id) note in
      let w1 = (append_event a.task_id "approval.rejected" p w).1 in
      let w2 = (append_event a.task_id "task.failed" failure_payload w1).1 in
      let idle =
        handle_approval_idle o a.task_id a.id false t w2
          (found_after "task.failed" failure_payload w1 (found_after "approval.rejected" p w found))
          ended in
      rw append_event_returns
        (rw append_event_returns (rw idle (rw ((invalidate_lem a.task_id w2).0) refl)))

module _ (o : Orchestrator) (a : ApprovalRequest) (t : Task) (s : RuntimeState)
    (waits : is_waiting t.status ≡ true) (asks : s.approval_id ≡ some a.id) where
  abbrev woken : RuntimeState
  woken = record s { approval_granted = some true; approval_event = true }

  handle_approval_lem :
      (w : World)
      → find_task a.task_id w.db ≡ some t
      → state_of a.task_id w ≡ some s
      → handle_approval o a.task_id a.id true w ≡ (
        ok tt,
        record w {
          heap =
              set_row
                (λ (x : RuntimeState). x.ref)
                s.ref
                (λ x. record x { approval_granted = some true; approval_event = true })
                w.heap;
        },
      )
  unfolding handle_approval get_status grant write_state
  handle_approval_lem w found has = ground arith

  announce_approval_wakes :
      (note : Option String) (w : World)
      → find_task a.task_id w.db ≡ some t
      → state_of a.task_id w ≡ some s
      → find_state s.ref (announce_approval (some (engine o)) note a w).1 ≡ some woken
  unfolding announce_approval dispatcher
  announce_approval_wakes note w found has =
      let p = approved_payload (w.env.uuid_str a.id) note in
      let w1 = (append_event a.task_id "approval.approved" p w).1 in
      let same = append_event-SameStates a.task_id "approval.approved" p w in
      rw append_event_returns (
        rw
          (handle_approval_lem w1 (rw append_event_stores found)
            (state_of_same a.task_id w w1 same.0 same.1 ∙ has))
          (rw
            ((invalidate_then a (record w1 {
              heap =
                  set_row (λ (x : RuntimeState). x.ref) s.ref
                    (λ x. record x { approval_granted = some true; approval_event = true }) w1.heap;
            })).0)
            (rw (same.0) (
              ground (
                arith,
                state_of-get_row a.task_id s w has,
                get_row-set_row (λ (x : RuntimeState). x.ref) s.ref s.ref
                    (λ x. record x { approval_granted = some true; approval_event = true }) w.heap
                    (λ x. refl),
              )))))

module _ (o : Orchestrator) (user_id approval_id : ℕ) (note : Option String) (w : World)
    (keyed : Keyed w.db) (a : ApprovalRequest) (t : Task)
    (found : find_approval approval_id w.db ≡ some a) (opened : IsOpen user_id a t w.db) where
  -- A rejection that succeeds leaves every runtime state of the engine as it was: the engine finds the
  -- task failed already and returns, so that the job that waits for the verdict is not woken.
  pub reject-SameStates :
      let (r, w') = reject (some (engine o)) user_id approval_id note w in
      ((a' : ApprovalRequest) × (r ≡ ok a')) × (w'.heap ≡ w.heap) × (w'.states ≡ w.states)
  unfolding reject
  reject-SameStates =
      let e =
        resolve_found user_id approval_id ApprovalStatus.rejected note w keyed a t found opened in
      let named = key-get_row (λ (x : Task). x.id) a.task_id w.db.tasks t opened.of_request in
      let w1 = (write_resolution a ApprovalStatus.rejected note w).1 in
      let a1 = settled a ApprovalStatus.rejected note w a in
      let t1 = failed_task a ApprovalStatus.rejected note w t in
      let stored : find_task a.task_id w1.db ≡ some t1 =
        rw (write_tasks a ApprovalStatus.rejected note w) (
          ground (
            arith,
            opened.of_request,
            get_row-set_row (λ (x : Task). x.id) a.task_id a.task_id
                (failed_task a ApprovalStatus.rejected note w) w.db.tasks (λ x. refl),
          )) in
      let same = write_resolution-SameRuntime a ApprovalStatus.rejected note w in
      let after = announce_rejection-SameStates o note a1 t1 w1 stored refl in
      rw e (
        rw (write_returns a ApprovalStatus.rejected note w) (
          (a1, announce_rejection_returns o note a1 t1 w1 stored refl),
          after.0 ∙ same.heap,
          after.1 ∙ same.states,
        ))

  -- An approval that succeeds sets the event of the state that waits for this request, with the grant.
  pub approve_wakes :
      (s : RuntimeState)
      → state_of a.task_id w ≡ some s
      → s.approval_id ≡ some a.id
      → let (r, w') = approve (some (engine o)) user_id approval_id note w in
        (s' : RuntimeState) × (find_state s.ref w' ≡ some s')
        × CanWake signalled s'
        × (s'.approval_granted ≡ some true)
  unfolding approve
  approve_wakes s has waits =
      let e =
        resolve_found user_id approval_id ApprovalStatus.approved note w keyed a t found opened in
      let w1 = (write_resolution a ApprovalStatus.approved note w).1 in
      let a1 = settled a ApprovalStatus.approved note w a in
      let same = write_resolution-SameRuntime a ApprovalStatus.approved note w in
      let s1 = woken o a1 t s opened.waiting waits in
      rw e (
        rw (write_returns a ApprovalStatus.approved note w) (
          s1,
          announce_approval_wakes o a1 t s opened.waiting waits note w1
              (rw (write_tasks a ApprovalStatus.approved note w) (opened.of_request))
              (state_of_same a.task_id w w1 same.heap same.states ∙ has),
          refl,
          refl,
        ))
