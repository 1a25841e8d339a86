-- ===== src/Managed/Verdict.antt =====
-- What a rejection does to a session that waits for the verdict on a tool.
use mathlib.Core.List.{append_assoc}
use phodex.Base.{
  ap, ℕ, suc, String, ◌≡◌, refl, ◌∙◌, true, false, Option, some, List, [], ◌∷◌, ◌++◌, arith,
  set_row, get_row-set_row,
}
use phodex.Json.{Fields}
use phodex.Models.{Task, ApprovalStatus, ApprovalRequest}
use phodex.World.{
  Effect, World, RuntimeState, LiveEntry, SessionInput, tool_confirmation, interrupt, session_input,
  ok,
}
use phodex.Worker.{dispatcher}
use phodex.Events.{append_event}
use phodex.Events.Sequence.{append_event_returns}
use phodex.Approvals.{
  write_resolution, reject, announce_rejection, rejected_payload, failure_payload,
}
use phodex.Approvals.Resolution.{find_approval, Keyed, IsOpen, resolve_found}
use phodex.Approvals.Effects.{write_returns, write_resolution-SameRuntime, settled}
use phodex.Orchestrator.{Orchestrator}
use phodex.Orchestrator.Runtime.{state_of, state_of_same, state_of-get_row, write_state}
use phodex.Orchestrator.Jobs.{find_state, signalled, CanWake, is_granted}
use phodex.Orchestrator.Verdicts.{Same-trans, append_event-SameStates, invalidate_then}
use phodex.Managed.Client.{Managed, LiveSession, send, interrupt_session, live_of, text_field}
use phodex.Managed.Events.{finished, after_wait, act_on_verdict, tool_of}
use phodex.Managed.Run.{Driver}
use phodex.Managed.Drive.{ending, on_woken}
use phodex.Managed.{handle_approval, release, engine}

abbrev pub denied : RuntimeState → RuntimeState
denied s = record s { approval_granted = some false; approval_event = true }

module _ (m : Managed) (o : Orchestrator) (a : ApprovalRequest) (s : RuntimeState)
    (asks : s.approval_id ≡ some a.id) where
  abbrev released : World → World
  released w = record w { heap = set_row (λ (x : RuntimeState). x.ref) s.ref denied w.heap }

  release_lem :
      (w : World)
      → state_of a.task_id w ≡ some s
      → handle_approval m o a.task_id a.id false w ≡ (ok tt, released w)
  unfolding handle_approval release write_state
  release_lem w has = ground arith

  announce_rejection_denies :
      (note : Option String) (w : World)
      → state_of a.task_id w ≡ some s
      → find_state s.ref (announce_rejection (some (engine m o)) note a w).1 ≡ some (denied s)
  unfolding announce_rejection dispatcher
  announce_rejection_denies note w has =
      let p = rejected_payload (w.env.uuid_str a.id) note in
      let w1 = (append_event a.task_id "approval.rejected" p w).1 in
      let w2 = (append_event a.task_id "task.failed" failure_payload w1).1 in
      let same =
        Same-trans w w1 w2 (append_event-SameStates a.task_id "approval.rejected" p w)
          (append_event-SameStates a.task_id "task.failed" failure_payload w1) in
      rw append_event_returns (
        rw append_event_returns (
          rw (release_lem w2 (state_of_same a.task_id w w2 same.0 same.1 ∙ has)) (
            rw ((invalidate_then a (released w2)).0) (
              rw (same.0) (
                ground (
                  arith,
                  state_of-get_row a.task_id s w has,
                  get_row-set_row (λ (x : RuntimeState). x.ref) s.ref s.ref denied w.heap
                      (λ x. refl),
                ))))))

pub send_ok :
    (m : Managed) (k : Option String) (id : String) (i : SessionInput) (w : World)
    → m.accept w k id i ≡ ok tt
    → send m k id i w
      ≡ (ok tt, record w { effects = w.effects ++ session_input id i ∷ []; calls = suc w.calls })
unfolding send
send_ok m k id i w taken = rw taken refl

-- what is sent without a grant: the refusal of the tool, and the interrupt
abbrev pub refusal : Managed → (task_id ref : ℕ) → LiveSession → LiveEntry → List Effect
refusal m task_id ref live entry =
    session_input live.session_id (
      tool_confirmation (text_field m "id" "" (tool_of m task_id ref live)) false
        (some "The user rejected this action."))
    ∷ session_input entry.session_id interrupt
    ∷ []

module _ (m : Managed) (task_id ref : ℕ) (live : LiveSession) (entry : LiveEntry) (w : World)
    (there : live_of m task_id w ≡ some entry)
    (accepts : (k : Option String) (id : String) (i : SessionInput) (v : World)
      → m.accept v k id i ≡ ok tt)
    (not_granted : is_granted (find_state ref w) ≡ false) where
  after_wait_denies : after_wait m task_id ref live signalled w ≡ (
    ok finished,
    record w { effects = w.effects ++ refusal m task_id ref live entry; calls = suc (suc w.calls) },
  )
  unfolding after_wait act_on_verdict interrupt_session
  after_wait_denies =
      let w1 = record w {
        effects =
            w.effects
            ++ session_input live.session_id (
                tool_confirmation (text_field m "id" "" (tool_of m task_id ref live)) false
                  (some "The user rejected this action."))
              ∷ [];
        calls = suc w.calls;
      } in
      rw not_granted (
        rw (send_ok m live.api_key live.session_id _ w (accepts _ _ _ w)) (
          rw there (
            rw (send_ok m entry.api_key entry.session_id interrupt w1 (accepts _ _ _ w1)) (
              ap (λ es. (ok finished, record w { effects = es; calls = suc (suc w.calls) }))
                (append_assoc w.effects _ _)))))

on_woken_denies :
    (m : Managed) (task_id ref : ℕ) (d : Driver) (rest : List Fields) (entry : LiveEntry)
    (w : World)
    → live_of m task_id w ≡ some entry
    → ((k : Option String) (id : String) (i : SessionInput) (v : World) → m.accept v k id i ≡ ok tt)
    → is_granted (find_state ref w) ≡ false
    → on_woken m task_id ref d rest signalled w ≡ (
      ok (ending d),
      record w {
        effects = w.effects ++ refusal m task_id ref d.live entry;
        calls = suc (suc w.calls);
      },
    )
unfolding on_woken
on_woken_denies m task_id ref d rest entry w there accepts not_granted =
    rw (after_wait_denies m task_id ref d.live entry w there accepts not_granted) refl

module _ (m : Managed) (o : Orchestrator) (user_id approval_id : ℕ) (note : Option String)
    (w : World) (keyed : Keyed w.db) (a : ApprovalRequest) (t : Task)
    (found : find_approval approval_id w.db ≡ some a) (opened : IsOpen user_id a t w.db)
    (s : RuntimeState) (has : state_of a.task_id w ≡ some s)
    (asks : s.approval_id ≡ some a.id) where
  reject_releases :
      find_state s.ref (reject (some (engine m o)) user_id approval_id note w).1 ≡ some (denied s)
  unfolding reject
  reject_releases =
      let e =
        resolve_found user_id approval_id ApprovalStatus.rejected note w keyed a t found opened in
      let w1 = (write_resolution a ApprovalStatus.rejected note w).1 in
      let same = write_resolution-SameRuntime a ApprovalStatus.rejected note w in
      rw e (
        rw (write_returns a ApprovalStatus.rejected note w) (
          announce_rejection_denies m o (settled a ApprovalStatus.rejected note w a) s asks note w1
            (state_of_same a.task_id w w1 same.heap same.states ∙ has)))

  -- With the engine of managed sessions, a rejection that finds the request open wakes the run that
  -- waits for it, without a grant; and the run, whatever has changed meanwhile but its own state, its
  -- entry among the sessions, and an API that takes what is sent, denies the tool to the session,
  -- interrupts it, and ends, and changes no table.
  pub reject_denies :
      (v : World) (d : Driver) (rest : List Fields) (entry : LiveEntry)
      → find_state s.ref v ≡ some (denied s)
      → live_of m a.task_id v ≡ some entry
      → ((k : Option String) (id : String) (i : SessionInput) (u : World)
          → m.accept u k id i ≡ ok tt)
      → (find_state s.ref (reject (some (engine m o)) user_id approval_id note w).1
          ≡ some (denied s))
        × CanWake signalled (denied s)
        × (let (r, v') = on_woken m a.task_id s.ref d rest signalled v in
            (r ≡ ok (ending d))
            × (v'.effects ≡ v.effects ++ refusal m a.task_id s.ref d.live entry)
            × (v'.db ≡ v.db))
  reject_denies v d rest entry is there accepts = (
    reject_releases,
    refl,
    rw (on_woken_denies m a.task_id s.ref d rest entry v there accepts (rw is refl))
        (refl, refl, refl),
  )
