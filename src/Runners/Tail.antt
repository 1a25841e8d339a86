-- ===== src/Runners/Tail.antt =====
-- The lines of the standard error that a runtime state keeps.
use phodex.Base.{
  ℕ, suc, ◌≤◌, ◌-◌, String, ◌≡◌, Bool, true, false, Option, none, some, List, [], ◌∷◌, ◌++◌, arith,
  length, drop, if◌then◌else◌, inl, inr, All, All-set_row, not, is_empty, strip, concat,
}
use phodex.Json.{Json, Fields, obj, get_field, str, bool, end, field, str_or_null}
use phodex.Parsers.{is_text}
use phodex.Parsers.Codex.{extract_assistant_message, extract_final_summary}
use phodex.Parsers.Claude.{
  is_system_init, is_result_event, is_error_result, extract_result_summary, extract_result_subtype,
  extract_assistant_text, extract_tool_use_summaries,
}
use phodex.World.{
  Envelope, World, RuntimeState, Exec, Result-cases, pure, modify, when, ◌>>=◌, ◌>>◌,
}
use phodex.Events.{append_event}
use phodex.Events.Sequence.{append_event-SameRuntime}
use phodex.Tasks.{append_assistant_message}
use phodex.Orchestrator.Runtime.{write_state}
use phodex.Subprocess.{Source, stdout, stderr, is_stderr, Run, wait, both}
use phodex.Subprocess.Rounds.{consume_rounds}
use phodex.Runners.{Machine, push_stderr, keep_stderr, set_summary, log_line}
use phodex.Runners.Codex
use phodex.Runners.Claude

abbrev IsShort : RuntimeState → Type 0
IsShort s = length s.stderr_tail ≤ 200

-- every runtime state keeps at most 200 lines
abbrev pub AllShort : World → Type 0
AllShort w = All IsShort w.heap

length-drop : (n : ℕ) (xs : List String) → length (drop n xs) ≡ length xs - n
length-drop ℕ.zero xs = omega arith
length-drop (suc n) [] = omega arith
length-drop (suc n) (x ∷ xs) = omega (arith, length-drop n xs)

push_stderr-IsShort : (line : String) (s : RuntimeState) → IsShort (push_stderr line s)
push_stderr-IsShort line s =
    let tail = s.stderr_tail ++ line ∷ [] in ground (arith, length-drop (length tail - 200) tail)

Keeps : {A : Type 0} → Exec A → Type 0
Keeps m = (w : World) → AllShort w → AllShort (m w).1

module _ {A B : Type 0} where
  bind-Keeps : (m : Exec A) (f : A → Exec B) → Keeps m → ((a : A) → Keeps (f a)) → Keeps (m >>= f)
  unfolding Keeps
  bind-Keeps m f h k w short = elim (Result-cases (m w).0) [
    | inl (a, done) ↦ rw done (k a (m w).1 (h w short))
    | inr (e, raised) ↦ rw raised (h w short)
  ]

if-Keeps : {A : Type 0} (b : Bool) (m n : Exec A) → Keeps m → Keeps n → Keeps (if b then m else n)
if-Keeps true m n h k = h
if-Keeps false m n h k = k

when-Keeps : (b : Bool) (m : Exec (Unit {0})) → Keeps m → Keeps (when b m)
unfolding Keeps
when-Keeps true m h = h
when-Keeps false m h = λ w short. short

append_event-Keeps :
    (task_id : ℕ) (kind : String) (payload : Fields) → Keeps (append_event task_id kind payload)
unfolding Keeps
append_event-Keeps task_id kind payload w short =
    let s = append_event-SameRuntime task_id kind payload w in rw s.heap short

write_state-Keeps :
    (ref : ℕ) (f : RuntimeState → RuntimeState)
    → ((s : RuntimeState) → IsShort s → IsShort (f s))
    → Keeps (modify (write_state ref f))
unfolding Keeps write_state
write_state-Keeps ref f h w short =
    All-set_row (λ (s : RuntimeState). s.ref) IsShort ref f w.heap short (λ s e. h s)

keep_stderr-Keeps :
    (ref : ℕ) (line : String) (source : Source) → Keeps (keep_stderr ref line source)
unfolding keep_stderr
keep_stderr-Keeps ref line source =
    when-Keeps (is_stderr source) (modify (write_state ref (push_stderr line)))
      (write_state-Keeps ref (push_stderr line) (λ s _. push_stderr-IsShort line s))

reply-Keeps : (task_id : ℕ) (text : String) → Keeps (append_assistant_message task_id text)
unfolding Keeps append_assistant_message
reply-Keeps task_id text w short = short

pure-Keeps : {A : Type 0} (a : A) → Keeps (pure a)
unfolding Keeps
pure-Keeps a w short = short

event-Keeps :
    (task_id : ℕ) (kind : String) (payload : Fields)
    → Keeps (append_event task_id kind payload >> pure tt)
event-Keeps task_id kind payload =
    bind-Keeps (append_event task_id kind payload) (λ _. pure tt)
      (append_event-Keeps task_id kind payload) (λ a. pure-Keeps tt)

log_line-Keeps :
    (task_id : ℕ) (line : String) (source : Source) → Keeps (log_line task_id line source)
unfolding log_line
log_line-Keeps task_id line source = event-Keeps task_id "task.log" _

-- a message of the assistant that becomes the summary
message-Keeps :
    (task_id ref : ℕ) (text : String)
    → Keeps (append_assistant_message task_id text >> modify (write_state ref (set_summary text)))
message-Keeps task_id ref text =
    bind-Keeps (append_assistant_message task_id text)
      (λ _. modify (write_state ref (set_summary text))) (reply-Keeps task_id text)
      (λ a. write_state-Keeps ref (set_summary text) (λ s short. short))

module _ (task_id ref : ℕ) where
  keep_message-Keeps : (message : Option String) → Keeps (Codex.keep_message task_id ref message)
  unfolding Codex.keep_message
  keep_message-Keeps none = pure-Keeps tt
  keep_message-Keeps (some message) =
      when-Keeps (not (is_empty (strip message)))
        (append_assistant_message task_id (strip message)
          >> modify (write_state ref (set_summary (strip message))))
        (message-Keeps task_id ref (strip message))

  keep_summary-Keeps : (summary : Option String) → Keeps (Codex.keep_summary ref summary)
  unfolding Codex.keep_summary
  keep_summary-Keeps none = pure-Keeps tt
  keep_summary-Keeps (some summary) =
      when-Keeps (not (is_empty (strip summary)))
        (modify (write_state ref (set_summary (strip summary))))
        (write_state-Keeps ref (set_summary (strip summary)) (λ s short. short))

  codex_payload-Keeps :
      (source : Source) (payload : Fields) → Keeps (Codex.handle_payload task_id ref source payload)
  unfolding Codex.handle_payload
  codex_payload-Keeps source payload =
      let progress = append_event task_id "task.progress" (Codex.progress_payload payload) in
      let output = append_event task_id "task.log" (Codex.output_payload source payload) in
      let is_progress = is_text "task.progress" (get_field "event_type" payload) in
      let said = extract_assistant_message payload in
      let summary = extract_final_summary payload in
      let logged : Exec Envelope = if is_progress then progress else output in
      bind-Keeps (Codex.keep_message task_id ref said)
        (λ _. Codex.keep_summary ref summary >> (logged >> pure tt)) (keep_message-Keeps said)
        (λ _.
          bind-Keeps (Codex.keep_summary ref summary) (λ _. logged >> pure tt)
            (keep_summary-Keeps summary)
            (λ _.
              bind-Keeps logged (λ _. pure tt)
                (if-Keeps is_progress progress output (append_event-Keeps task_id _ _)
                  (append_event-Keeps task_id _ _))
                (λ _. pure-Keeps tt)))

  keep_text-Keeps : (text : Option String) → Keeps (Claude.keep_text task_id ref text)
  unfolding Claude.keep_text
  keep_text-Keeps none = pure-Keeps tt
  keep_text-Keeps (some text) =
      if-Keeps (is_empty text) (pure tt)
        (append_assistant_message task_id text >> modify (write_state ref (set_summary text)))
        (pure-Keeps tt) (message-Keeps task_id ref text)

  log_tools-Keeps :
      (source : Source) (tools : List String) → Keeps (Claude.log_tools task_id source tools)
  unfolding Claude.log_tools
  log_tools-Keeps source [] = pure-Keeps tt
  log_tools-Keeps source (tool ∷ tools) =
      bind-Keeps (log_line task_id (concat ("Tool call: " ∷ tool ∷ [])) source)
        (λ _. Claude.log_tools task_id source tools) (log_line-Keeps task_id _ source)
        (λ _. log_tools-Keeps source tools)

  set_result-IsShort :
      (text : Option String) (b : Bool) (s : RuntimeState)
      → IsShort s
      → IsShort (Claude.set_result text b s)
  set_result-IsShort none b s short = short
  set_result-IsShort (some text) b s short = short

  handle_result-Keeps : (payload : Fields) → Keeps (Claude.handle_result task_id ref payload)
  unfolding Claude.handle_result
  handle_result-Keeps payload =
      let f = Claude.set_result (extract_result_summary payload) (is_error_result payload) in
      let fs = field "message" (str "Claude runtime finished its turn") (
        field "is_error" (bool (is_error_result payload))
          (field "subtype" (str_or_null (extract_result_subtype payload)) end)) in
      bind-Keeps (modify (write_state ref f))
        (λ _. append_event task_id "task.progress" fs >> pure tt)
        (write_state-Keeps ref f (set_result-IsShort _ _)) (λ _. event-Keeps task_id _ fs)

  claude_payload-Keeps :
      (json_str : Json → String) (source : Source) (payload : Fields)
      → Keeps (Claude.handle_payload json_str task_id ref source payload)
  unfolding Claude.handle_payload
  claude_payload-Keeps json_str source payload =
      let text = extract_assistant_text payload in
      let tools = extract_tool_use_summaries json_str payload in
      let finished = Claude.handle_result task_id ref payload in
      let told = Claude.keep_text task_id ref text >> Claude.log_tools task_id source tools in
      if-Keeps (is_system_init payload) (log_line task_id "Claude runtime started" source)
        (if is_result_event payload then finished else told) (log_line-Keeps task_id _ source)
        (if-Keeps (is_result_event payload) finished told (handle_result-Keeps payload) (
          bind-Keeps (Claude.keep_text task_id ref text)
            (λ _. Claude.log_tools task_id source tools) (keep_text-Keeps text)
            (λ _. log_tools-Keeps source tools)))

module _ (m : Machine) (task_id ref : ℕ) where
  codex_json-Keeps :
      (line : String) (source : Source) (v : Option Json)
      → Keeps (Codex.handle_json m task_id ref line source v)
  unfolding Codex.handle_json
  codex_json-Keeps line source none = log_line-Keeps task_id line source
  codex_json-Keeps line source (some (obj payload)) = codex_payload-Keeps task_id ref source payload
  codex_json-Keeps line source (some v) = log_line-Keeps task_id (m.json_str v) source

  codex_line-Keeps :
      (c : Codex.Settings) (line : String) (source : Source)
      → Keeps (Codex.handle_output_line m c task_id ref line source)
  unfolding Codex.handle_output_line
  codex_line-Keeps c line source =
      bind-Keeps (keep_stderr ref line source)
        (λ _. Codex.handle_json m task_id ref line source (m.loads line))
        (keep_stderr-Keeps ref line source) (λ _. codex_json-Keeps line source (m.loads line))

  claude_json-Keeps :
      (c : Claude.Settings) (line : String) (source : Source) (v : Option Json)
      → Keeps (Claude.handle_json m c task_id ref line source v)
  unfolding Claude.handle_json
  claude_json-Keeps c line source none = log_line-Keeps task_id line source
  claude_json-Keeps c line source (some (obj payload)) =
      claude_payload-Keeps task_id ref m.json_str source payload
  claude_json-Keeps c line source (some v) = log_line-Keeps task_id (m.json_str v) source

  claude_line-Keeps :
      (c : Claude.Settings) (line : String) (source : Source)
      → Keeps (Claude.handle_output_line m c task_id ref line source)
  unfolding Claude.handle_output_line
  claude_line-Keeps c line stderr =
      bind-Keeps (keep_stderr ref line stderr) (λ _. log_line task_id line stderr)
        (keep_stderr-Keeps ref line stderr) (λ _. log_line-Keeps task_id line stderr)
  claude_line-Keeps c line stdout = claude_json-Keeps c line stdout (m.loads line)

  -- However much a runtime prints, on whichever of its streams, a runtime state that keeps at most
  -- 200 lines of the standard error keeps at most 200 afterwards, for Codex and for Claude.
  wait-AllShort :
      (codex : Codex.Settings) (claude : Claude.Settings) (run : Run) (w : World)
      → AllShort w
      → AllShort (wait (Codex.handle_output_line m codex task_id ref) run w).1
        × AllShort (wait (Claude.handle_output_line m claude task_id ref) run w).1
  unfolding wait Keeps
  wait-AllShort codex claude run w short = (
    consume_rounds (Codex.handle_output_line m codex task_id ref) (λ u v. AllShort u → AllShort v)
        (λ v h. h) (λ u v x h k s. k (h s)) (codex_line-Keeps codex) run.lines both w short,
    consume_rounds (Claude.handle_output_line m claude task_id ref) (λ u v. AllShort u → AllShort v)
        (λ v h. h) (λ u v x h k s. k (h s)) (claude_line-Keeps claude) run.lines both w short,
  )
