-- ===== src/Managed/Seen.antt =====
-- Which events of a session have been handled: the ids that are remembered.
use phodex.Base.{
  ℕ, String, ◌≡◌, Bool, true, false, not, Option, none, some, List, [], ◌∷◌, arith, str_eq,
  is_empty, if◌then◌else◌, Bool-cases, inl, inr,
}
use phodex.Json.{Fields, get_field}
use phodex.Models.{TaskStatus}
use phodex.World.{tool_confirmation, Exec, pure, user_message, ◌>>◌}
use phodex.World.Yields.{Yields, bind-Yields}
use phodex.Orchestrator.Runtime.{write_state}
use phodex.Orchestrator.Jobs.{Wake, signalled, timed_out, interrupted, is_granted, find_state}
use phodex.Runners.{returned}
use phodex.Tasks.{transition_for_worker}
use phodex.Managed.Client.{interrupt_session, fail, send, Managed, LiveSession, is_in, text_field}
use phodex.Managed.Events.{
  rejection_note, complete_idle, is_budget, tool_runs, tool_of, act_on_verdict, after_wait, queued,
  drop_reply, requires_action, Handled, next, finished, asks, log, on_message, on_tool_use,
  on_tool_result, confirm_tool, go_on, idle, on_idle, end_failed, on_terminated, handle_kind,
  output_of,
}

-- the ids that are remembered
abbrev pub Remembers : List String → Handled → Type 0
Remembers ids (next live) = live.seen_event_ids ≡ ids
Remembers ids finished = Unit
Remembers ids (asks live) = live.seen_event_ids ≡ ids

pub if_Yields :
    {A : Type 0} (P : A → Type 0) (b : Bool) (m k : Exec A)
    → Yields P m
    → Yields P k
    → Yields P (if b then m else k)
if_Yields P true m k h h' = h
if_Yields P false m k h h' = h'

module _ (m : Managed) (task_id ref : ℕ) (ids : List String) where
  abbrev Keeps : Exec Handled → Type 0
  Keeps action = Yields (Remembers ids) action

  log-Keeps :
      (kind text : String) (live : LiveSession)
      → live.seen_event_ids ≡ ids
      → Keeps (log m task_id ref kind text live)
  unfolding log
  log-Keeps kind text live same w = ground arith

  end_failed-Keeps :
      (phase text code : String) (retryable : Bool)
      → Keeps (end_failed m task_id ref phase text code retryable)
  unfolding end_failed
  end_failed-Keeps phase text code retryable w = ground arith

  module _ (live : LiveSession) (same : live.seen_event_ids ≡ ids) where
    on_message-Keeps : (event : Fields) → Keeps (on_message m task_id ref live event)
    unfolding on_message
    on_message-Keeps event w = ground arith

    on_tool_use-Keeps : (event : Fields) → Keeps (on_tool_use m task_id ref live event)
    unfolding on_tool_use
    on_tool_use-Keeps event w = ground arith

    on_tool_result-Keeps : (event : Fields) → Keeps (on_tool_result m task_id ref live event)
    unfolding on_tool_result
    on_tool_result-Keeps event w = elim (Bool-cases (is_empty (output_of m task_id ref event))) [
      | inl blank ↦ rw blank same
      | inr full ↦ rw full (log-Keeps "task.log" _ (record live { pending_tool = none }) same w)
    ]

    confirm_tool-Keeps : (tool : Fields) → Keeps (confirm_tool m task_id ref live tool)
    unfolding confirm_tool
    confirm_tool-Keeps tool w = ground arith

    go_on-Keeps :
        (event : Fields) (replies : List String) → Keeps (go_on m task_id ref live event replies)
    unfolding go_on complete_idle
    go_on-Keeps event [] w =
        if_Yields (Remembers ids) (is_budget (get_field "stop_reason" event))
          (end_failed m task_id ref "managed_budget_reached" "Managed session reached its budget"
            "MANAGED_BUDGET_REACHED" false)
          (complete_idle m task_id ref) (end_failed-Keeps _ _ _ false) (λ w. ground arith) w
    go_on-Keeps event (reply ∷ rest) w =
        let text : String = "Sent queued follow-up to the managed session" in
        bind-Yields (Remembers ids) (send m live.api_key live.session_id (user_message reply))
          (λ _. log m task_id ref "task.log" text live) (λ _. log-Keeps "task.log" text live same)
          (write_state ref (drop_reply rest) w)

    on_idle-Keeps :
        (event : Fields) (tool : Option Fields) → Keeps (on_idle m task_id ref live event tool)
    unfolding on_idle idle
    on_idle-Keeps event none = λ w. go_on-Keeps event (queued (find_state ref w)) w
    on_idle-Keeps event (some tool) =
        bind-Yields (Remembers ids) (returned (requires_action (get_field "stop_reason" event)))
          (λ asking.
            if asking then confirm_tool m task_id ref live tool else idle m task_id ref live event)
          (λ asking.
            if_Yields (Remembers ids) asking _ _ (confirm_tool-Keeps tool)
              (λ w. go_on-Keeps event (queued (find_state ref w)) w))

    on_terminated-Keeps : Keeps (on_terminated m task_id ref live)
    unfolding on_terminated
    on_terminated-Keeps w = ground (
      arith,
      end_failed-Keeps "managed_session_terminated"
          "Managed session ended before the task completed" "MANAGED_SESSION_TERMINATED" true w,
    )

    pub handle_kind-Keeps :
        (event : Fields) (etype : String) → Keeps (handle_kind m task_id ref live event etype)
    unfolding handle_kind
    handle_kind-Keeps event etype =
        let R = Remembers ids in
        if_Yields R (str_eq etype "agent.message") _ _ (on_message-Keeps event) (
          if_Yields R (str_eq etype "agent.thinking") _ _ (log-Keeps _ _ live same) (
            if_Yields R (is_in etype ("agent.tool_use" ∷ "agent.mcp_tool_use" ∷ [])) _ _
              (on_tool_use-Keeps event)
              (if_Yields R (is_in etype ("agent.tool_result" ∷ "agent.mcp_tool_result" ∷ [])) _ _
                (on_tool_result-Keeps event)
                (if_Yields R (str_eq etype "session.status_running") _ _ (log-Keeps _ _ live same) (
                  if_Yields R (str_eq etype "session.status_idle") _ _
                    (on_idle-Keeps event live.pending_tool)
                    (if_Yields R (str_eq etype "session.error") _ _ (end_failed-Keeps _ _ _ true) (
                      if_Yields R (str_eq etype "session.status_terminated") _ _ on_terminated-Keeps
                        (λ w. same))))))))

  tool_runs-Keeps :
      (live : LiveSession) (name : String)
      → live.seen_event_ids ≡ ids
      → Keeps (tool_runs m task_id ref live name)
  unfolding tool_runs
  tool_runs-Keeps live name same =
      bind-Yields (Remembers ids)
        (transition_for_worker task_id TaskStatus.running (some "executing_managed_session") none
          none)
        _ (λ _ w. ground arith)

  act_on_verdict-Keeps :
      (live : LiveSession) (granted : Bool)
      → live.seen_event_ids ≡ ids
      → Keeps (act_on_verdict m task_id ref live granted)
  unfolding act_on_verdict
  act_on_verdict-Keeps live granted same =
      bind-Yields (Remembers ids)
        (send m live.api_key live.session_id (
          tool_confirmation (text_field m "id" "" (tool_of m task_id ref live)) granted
            (rejection_note m task_id ref granted)))
        _
        (λ _.
          if_Yields (Remembers ids) (not granted) (interrupt_session m task_id >> pure finished) _
            (bind-Yields (Remembers ids) (interrupt_session m task_id) (λ _. pure finished)
              (λ _ w. tt))
            (tool_runs-Keeps live (text_field m "name" "tool" (tool_of m task_id ref live)) same))

  pub after_wait-Keeps :
      (live : LiveSession) (wake : Wake)
      → live.seen_event_ids ≡ ids
      → Keeps (after_wait m task_id ref live wake)
  unfolding after_wait
  after_wait-Keeps live signalled same w =
      act_on_verdict-Keeps live (is_granted (find_state ref w)) same w
  after_wait-Keeps live timed_out same w =
      let text : String = "Approval timed out" in
      bind-Yields (Remembers ids) (interrupt_session m task_id)
        (λ _. fail task_id "approval_timeout" text "APPROVAL_TIMEOUT" true >> pure finished)
        (λ _.
          bind-Yields (Remembers ids) (fail task_id "approval_timeout" text "APPROVAL_TIMEOUT" true)
            (λ _. pure finished) (λ _ w. tt))
        w
  after_wait-Keeps live interrupted same w = tt
