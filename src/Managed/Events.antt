-- ===== src/Managed/Events.antt =====
-- What backend/workers/managed/session_runner.py does on an event of a session: _handle_event with
-- _confirm_tool, which is cut in two at the wait for the approval.
use phodex.Base.{
  ℕ, String, Bool, true, false, not, Option, none, some, List, [], ◌∷◌, ◌||◌, if◌then◌else◌, str_eq,
  is_empty, concat, or_else, ◌++◌,
}
use phodex.Json.{Json, Fields, null, str, end, field, get_field, truthy}
use phodex.Models.{TaskStatus, is_finished}
use phodex.World.{
  RuntimeState, Exec, Result, user_message, tool_confirmation, ok, cancelled_error, pure, raise,
  gets, modify, ◌>>=◌, ◌>>◌,
}
use phodex.Events.{append_event}
use phodex.Tasks.{transition_for_worker, append_assistant_message, get_status, message}
use phodex.Approvals.{create_approval_request}
use phodex.Orchestrator.Runtime.{write_state}
use phodex.Orchestrator.Jobs.{Wake, signalled, timed_out, interrupted, find_state, is_granted}
use phodex.Runners.{returned, set_summary, summary_or}
use phodex.Managed.Client.{
  Managed, LiveSession, in_set, is_in, text_field, text_of, summarize_input, shown, send,
  interrupt_session, fail, complete,
}

-- what `_handle_event` returns: `False`, or `True`; it may also wait for an approval
pub data Handled : Type 0 where
  next : LiveSession → Handled
  finished : Handled
  asks : LiveSession → Handled

abbrev pub default_summary : String
default_summary = "Managed agent completed the task."

-- `stop_reason in {None, "requires_action"}`
abbrev pub requires_action : Option Json → Result Bool
requires_action none = ok true
requires_action (some null) = ok true
requires_action (some v) = in_set v ("requires_action" ∷ [])

abbrev pub is_budget : Option Json → Bool
is_budget (some (str s)) = str_eq s "budget_reached"
is_budget _ = false

abbrev pub queued : Option RuntimeState → List String
queued none = []
queued (some s) = s.pending_replies

abbrev pub drop_reply : List String → RuntimeState → RuntimeState
drop_reply rest s = record s { pending_replies = rest }

-- `_get(event, "message") or _get(event, "error") or "Session error"`
abbrev pub or_text : Option Json → Option Json → Option Json
or_text none b = b
or_text (some a) b = if truthy a then some a else b

module _ (m : Managed) (task_id ref : ℕ) where
  abbrev pub error_text_of : Fields → String
  error_text_of event = elim (or_text (get_field "message" event) (get_field "error" event)) [
    | none ↦ "Session error"
    | some v ↦ if truthy v then shown m v else "Session error"
  ]

  unfoldable pub log : (kind text : String) → LiveSession → Exec Handled
  log kind text live = do append_event task_id kind (message text); pure (next live)

  -- the branch of `agent.message`
  unfoldable pub on_message : LiveSession → Fields → Exec Handled
  unfolding write_state
  on_message live event =
      let text = text_of m (get_field "content" event) in
      if is_empty text then pure (next live) else do
        append_assistant_message task_id text
        modify (write_state ref (set_summary text))
        pure (next live)

  -- the branch of the uses of a tool
  unfoldable pub on_tool_use : LiveSession → Fields → Exec Handled
  on_tool_use live event = do
    let name = text_field m "name" "tool" event
    let input = summarize_input m (get_field "input" event)
    append_event task_id "task.log" (
        field "message" (str (concat ("Tool call: " ∷ name ∷ "(" ∷ input ∷ ")" ∷ [])))
          (field "tool" (str name) end))
    pure (next (record live { pending_tool = some event }))

  -- `_text_of(...) or _summarize_input(...)`
  abbrev pub output_of : Fields → String
  output_of event =
      let text = text_of m (get_field "content" event) in
      if is_empty text then summarize_input m (get_field "output" event) else text

  -- the branch of the results of a tool
  unfoldable pub on_tool_result : LiveSession → Fields → Exec Handled
  unfolding log
  on_tool_result live event =
      let live' = record live { pending_tool = none } in
      let output = output_of event in
      if is_empty output
      then pure (next live')
      else log "task.log" (concat ("Tool result: " ∷ summarize_input m (some (str output)) ∷ []))
          live'

  -- `_confirm_tool` up to the wait
  unfoldable pub confirm_tool : LiveSession → Fields → Exec Handled
  unfolding write_state
  confirm_tool live tool = do
    let name = text_field m "name" "tool" tool
    approval ←
        create_approval_request task_id "tool_use" (concat ("Allow " ∷ name ∷ "?" ∷ []))
          (concat
            ("The managed agent wants to run the " ∷ name ∷ " tool in the cloud sandbox." ∷ []))
          (field "tool" (str name) (
            field "input" (phodex.Base.get_or (get_field "input" tool) null) (
              field "session_id" (str live.session_id)
                (field "risk_level" (str m.risk_level) end))))
    modify (
        write_state ref (λ s. record s {
          approval_id = some approval.id;
          approval_granted = none;
          approval_event = false;
        }))
    transition_for_worker task_id TaskStatus.waiting_approval (some "awaiting_tool_approval") none
        none
    append_event task_id "task.progress" (
        field "message" (str (concat ("Waiting for approval to run " ∷ name ∷ [])))
          (field "tool" (str name) end))
    pure (asks live)

  -- `_fail` and `return True`
  unfoldable pub end_failed : (phase text code : String) → (retryable : Bool) → Exec Handled
  end_failed phase text code retryable = do fail task_id phase text code retryable; pure finished

  -- ManagedSessionRunner._complete and `return True`, behind which nobody reads `live.completed`
  unfoldable pub complete_idle : Exec Handled
  complete_idle = do
    summary ← gets (λ w. summary_or default_summary (find_state ref w))
    complete task_id summary
    pure finished

  -- the part of the branch of `session.status_idle` for queued replies and the end
  unfoldable pub go_on : LiveSession → Fields → List String → Exec Handled
  unfolding write_state log complete_idle end_failed
  go_on live event (reply ∷ rest) = do
    modify (write_state ref (drop_reply rest))
    send m live.api_key live.session_id (user_message reply)
    log "task.log" "Sent queued follow-up to the managed session" live
  go_on live event [] =
      if is_budget (get_field "stop_reason" event)
      then end_failed "managed_budget_reached" "Managed session reached its budget"
          "MANAGED_BUDGET_REACHED" false
      else complete_idle

  unfoldable pub idle : LiveSession → Fields → Exec Handled
  unfolding go_on
  idle live event = do replies ← gets (λ w. queued (find_state ref w)); go_on live event replies

  -- the branch of `session.status_idle`
  unfoldable pub on_idle : LiveSession → Fields → Option Fields → Exec Handled
  unfolding idle confirm_tool
  on_idle live event none = idle live event
  on_idle live event (some tool) = do
    asking ← returned (requires_action (get_field "stop_reason" event))
    if asking then confirm_tool live tool else idle live event

  -- the branch of `session.status_terminated`
  unfoldable pub on_terminated : LiveSession → Exec Handled
  unfolding end_failed
  on_terminated live = if live.completed then pure finished else do
    current ← get_status task_id
    if is_finished current
        then pure finished
        else end_failed "managed_session_terminated"
            "Managed session ended before the task completed" "MANAGED_SESSION_TERMINATED" true

  -- the branches of `_handle_event` by the type of the event
  unfoldable pub handle_kind : LiveSession → Fields → String → Exec Handled
  unfolding on_message on_tool_use on_tool_result on_idle on_terminated
  handle_kind live event etype =
      if str_eq etype "agent.message"
      then on_message live event
      else if str_eq etype "agent.thinking"
      then log "task.progress" "Agent is thinking" live
      else if is_in etype ("agent.tool_use" ∷ "agent.mcp_tool_use" ∷ [])
      then on_tool_use live event
      else if is_in etype ("agent.tool_result" ∷ "agent.mcp_tool_result" ∷ [])
      then on_tool_result live event
      else if str_eq etype "session.status_running"
      then log "task.progress" "Managed agent is working" live
      else if str_eq etype "session.status_idle"
      then on_idle live event live.pending_tool
      else if str_eq etype "session.error"
      then end_failed "worker_error" (error_text_of event) "WORKER_ERROR" true
      else if str_eq etype "session.status_terminated"
      then on_terminated live
      else pure (next live)

  abbrev pub remember : String → LiveSession → LiveSession
  remember id live = record live { seen_event_ids = id ∷ live.seen_event_ids }

  -- whether the event has an id that was seen
  abbrev pub is_seen : Option Json → LiveSession → Result Bool
  is_seen none live = ok false
  is_seen (some id) live = if truthy id then in_set id live.seen_event_ids else ok false

  abbrev pub noted : Option Json → LiveSession → LiveSession
  noted none live = live
  noted (some id) live = if truthy id then remember (shown m id) live else live

  -- ManagedSessionRunner._handle_event
  unfoldable pub handle_event : LiveSession → Fields → Exec Handled
  unfolding handle_kind
  handle_event live event = do
    let event_id = get_field "id" event
    seen ← returned (is_seen event_id live)
    if seen
        then pure (next live)
        else handle_kind (noted event_id live) event (text_field m "type" "" event)

  abbrev pub tool_of : LiveSession → Fields
  tool_of live = phodex.Base.get_or live.pending_tool end

  -- the end of `_confirm_tool` for a grant
  unfoldable pub tool_runs : LiveSession → String → Exec Handled
  tool_runs live name = do
    transition_for_worker task_id TaskStatus.running (some "executing_managed_session") none none
    append_event task_id "task.running"
        (message (concat ("Approval granted, " ∷ name ∷ " is running" ∷ [])))
    pure (next (record live { pending_tool = none }))

  -- the message of a denied confirmation
  abbrev pub rejection_note : Bool → Option String
  rejection_note true = none
  rejection_note false = some "The user rejected this action."

  -- `_confirm_tool` behind the wait, by the tool, the verdict, and how the wait ended
  unfoldable pub act_on_verdict : LiveSession → Bool → Exec Handled
  unfolding tool_runs
  act_on_verdict live granted = do
    let name = text_field m "name" "tool" (tool_of live)
    send m live.api_key live.session_id
        (tool_confirmation (text_field m "id" "" (tool_of live)) granted (rejection_note granted))
    if not granted then (do interrupt_session m task_id; pure finished) else tool_runs live name

  unfoldable pub after_wait : LiveSession → Wake → Exec Handled
  unfolding act_on_verdict
  after_wait live timed_out = do
    interrupt_session m task_id
    fail task_id "approval_timeout" "Approval timed out" "APPROVAL_TIMEOUT" true
    pure finished
  after_wait live signalled = do
    granted ← gets (λ w. is_granted (find_state ref w))
    act_on_verdict live granted
  after_wait live interrupted = raise cancelled_error
