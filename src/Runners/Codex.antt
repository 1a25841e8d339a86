-- ===== src/Runners/Codex.antt =====
-- backend/workers/codex/process_runner.py.
use phodex.Base.{
  ℕ, String, Bool, true, false, ◌||◌, not, Option, none, some, List, [], ◌∷◌, ◌++◌, map, str_eq,
  if◌then◌else◌, is_empty, strip, join, concat, contains,
}
use phodex.Json.{
  ℤ, Json, Fields, str, bool, int, arr, obj, end, field, get_field, set_field, str_or_null, is_zero,
}
use phodex.Models.{UserAiSettings, is_cancelled}
use phodex.World.{
  RuntimeState, Process, Exec, Result, ok, err, runtime_error, file_not_found, pure, raise, gets,
  query, modify, emit, input, when, raise_if, attempt, ◌>>=◌, ◌>>◌,
}
use phodex.Events.{append_event}
use phodex.Tasks.{get_status, get_user_id, append_assistant_message}
use phodex.AiSettings.{get_by_user_id, decrypt_key}
use phodex.Subprocess.{Source, source_name, OnLine, Run, spawn, wait}
use phodex.Parsers.{is_text, as_dict}
use phodex.Parsers.Codex.{extract_assistant_message, extract_final_summary}
use phodex.Orchestrator.{ExecutionContext}
use phodex.Orchestrator.Runtime.{write_state}
use phodex.Orchestrator.Jobs.{find_state}
use phodex.Runners.{
  Machine, Overrides, no_overrides, returned, key_env, model_args, last_lines, items, keep_stderr,
  set_summary, log_line, resolve_cwd, set_process, fail_task, complete_task, summary_or, tail_of,
  write_line,
}

-- the settings of the runtime
pub record Settings : Type 0 where
  pub codex_command : String
  pub codex_args : String
  pub codex_prompt_stdin : Bool
  pub codex_timeout_seconds : ℕ

-- is_blocked_outcome of output_parser.py
unfoldable pub is_blocked_outcome : (upper : String → String) → String → Bool
is_blocked_outcome upper summary =
    contains (upper summary) "OUTCOME: BLOCKED" || contains (upper summary) "**BLOCKED**"

-- `--model` goes behind the subcommand `exec`, or to the end
unfoldable pub insert_model : Option String → List String → List String
insert_model model [] = model_args model
insert_model model (token ∷ tokens) =
    if str_eq token "exec"
    then token ∷ model_args model ++ tokens
    else (token ∷ tokens) ++ model_args model

abbrev pub bullet : String → String
bullet item = concat ("- " ∷ item ∷ [])

-- the prompt with the replies that came before the start
unfoldable pub prompt_payload : String → List String → String
prompt_payload prompt [] = prompt
prompt_payload prompt (reply ∷ replies) = concat (
    prompt
    ∷ "\n\nAdditional follow-up instructions received before start:\n"
    ∷ join "\n" (map bullet (reply ∷ replies))
    ∷ [])

-- `{"message": ...}` of a progress line without a dict `data`
abbrev message_or : Option Json → Json
message_or none = str "Worker progress update"
message_or (some v) = v

unfoldable pub progress_payload : Fields → Fields
progress_payload payload = elim (as_dict (get_field "data" payload)) [
  | some event_payload ↦ event_payload
  | none ↦ field "message" (message_or (get_field "message" payload)) end
]

-- `if key not in d: d[key] = v`
abbrev set_default : String → Json → Fields → Fields
set_default key v fs = elim (get_field key fs) [ none ↦ set_field key v fs | some _ ↦ fs ]

unfoldable pub output_payload : Source → Fields → Fields
output_payload source payload =
    set_default "message" (str "Worker output")
      (set_default "source" (str (source_name source)) payload)

unfoldable pub keep_message : ℕ → ℕ → Option String → Exec (Unit {0})
unfolding write_state
keep_message task_id ref none = pure tt
keep_message task_id ref (some message) = when (not (is_empty (strip message))) (do
  append_assistant_message task_id (strip message)
  modify (write_state ref (set_summary (strip message))))

unfoldable pub keep_summary : ℕ → Option String → Exec (Unit {0})
unfolding write_state
keep_summary ref none = pure tt
keep_summary ref (some summary) =
    when (not (is_empty (strip summary))) (modify (write_state ref (set_summary (strip summary))))

-- `_handle_output_line` behind `json.loads`, with a dict
unfoldable pub handle_payload : ℕ → ℕ → Source → Fields → Exec (Unit {0})
unfolding keep_message keep_summary
handle_payload task_id ref source payload = do
  keep_message task_id ref (extract_assistant_message payload)
  keep_summary ref (extract_final_summary payload)
  if is_text "task.progress" (get_field "event_type" payload)
      then append_event task_id "task.progress" (progress_payload payload)
      else append_event task_id "task.log" (output_payload source payload)
  pure tt

unfoldable pub handle_json : Machine → ℕ → ℕ → String → Source → Option Json → Exec (Unit {0})
handle_json m task_id ref line source none = log_line task_id line source
handle_json m task_id ref line source (some (obj payload)) =
    handle_payload task_id ref source payload
handle_json m task_id ref line source (some v) = log_line task_id (m.json_str v) source

module _ (m : Machine) (c : Settings) where
  -- ProcessRunner._handle_output_line
  unfoldable pub handle_output_line : ℕ → ℕ → OnLine
  unfolding keep_stderr handle_json
  handle_output_line task_id ref line source = do
    keep_stderr ref line source
    handle_json m task_id ref line source (m.loads line)

  abbrev overrides_of : Option UserAiSettings → Result Overrides
  overrides_of none = ok no_overrides
  overrides_of (some row) = elim (decrypt_key m.secrets row.openai_api_key_encrypted) [
    | err e ↦ err e
    | ok key ↦
        ok (record {
          env = key_env "OPENAI_API_KEY" m.environ key;
          model = row.preferred_codex_model;
        })
  ]

  -- ProcessRunner._resolve_overrides
  unfoldable pub resolve_overrides : ℕ → Exec Overrides
  unfolding get_by_user_id
  resolve_overrides task_id = do
    user_id ← get_user_id task_id
    row ← query (get_by_user_id user_id)
    returned (overrides_of row)

  -- ProcessRunner.command_preview
  unfoldable pub command_preview : Result String
  command_preview = elim (m.split c.codex_args) [
    | ok tokens ↦ ok (strip (join " " (c.codex_command ∷ tokens)))
    | err e ↦ err e
  ]

  abbrev pub pending_replies_of : Option RuntimeState → List String
  pending_replies_of none = []
  pending_replies_of (some s) = s.pending_replies

  -- the prompt goes to the standard input, which is closed then
  unfoldable pub send_prompt : ℕ → Run → String → Exec (Unit {0})
  unfolding set_process
  send_prompt ref run payload =
      when c.codex_prompt_stdin
        (do emit (input run.pid (concat (payload ∷ "\n" ∷ []))); set_process ref run false)

  -- what `run` does with the result of `spawn`
  unfoldable pub on_spawn : ℕ → ℕ → ExecutionContext → Result Run → Exec (Option Run)
  unfolding set_process send_prompt write_state
  on_spawn task_id ref context (err (file_not_found e)) = do
    fail_task task_id "runtime_unavailable" e none (
        field "message" (str "Codex runtime command not found") (
          field "error_code" (str "WORKER_RUNTIME_UNAVAILABLE") (
            field "error" (str e)
              (field "command" (str c.codex_command) (field "is_retryable" (bool false) end)))))
    pure none
  on_spawn task_id ref context (err e) = raise e
  on_spawn task_id ref context (ok run) = do
    set_process ref run c.codex_prompt_stdin
    replies ← gets (λ w. pending_replies_of (find_state ref w))
    modify (write_state ref (λ s. record s { pending_replies = [] }))
    send_prompt ref run (prompt_payload context.prompt_text replies)
    pure (some run)

  -- `run` up to the start of the streaming
  unfoldable pub launch : ℕ → ℕ → ExecutionContext → Exec (Option Run)
  unfolding resolve_cwd spawn
  launch task_id ref context = do
    o ← resolve_overrides task_id
    arg_tokens ← returned (m.split c.codex_args)
    raise_if (is_empty c.codex_command) (runtime_error "CODEX_COMMAND is empty")
    cwd ← resolve_cwd m task_id context.workdir
    preview ← returned command_preview
    append_event task_id "task.log" (
        field "message" (str "Launching Codex runtime process")
          (field "command" (str preview) (field "workdir" (str_or_null cwd) end)))
    attempt
        (spawn m.host (record {
          args = c.codex_command ∷ insert_model o.model arg_tokens;
          cwd = cwd;
          use_stdin = c.codex_prompt_stdin;
          env = o.env;
          timeout_seconds = c.codex_timeout_seconds;
        }))
        (on_spawn task_id ref context)

  -- `run` behind `wait`, for a task that is not cancelled
  unfoldable pub report_exit : ℕ → ℤ → Bool → Option RuntimeState → Exec (Unit {0})
  report_exit task_id exit_code true state =
      fail_task task_id "runtime_timeout" "Codex runtime timed out" none (
        field "message" (str "Codex runtime timed out")
          (field "error_code" (str "WORKER_TIMEOUT") (field "is_retryable" (bool true) end)))
  report_exit task_id exit_code false state =
      let summary = summary_or "Codex worker completed successfully." state in
      if not (is_zero exit_code)
      then fail_task task_id "runtime_exit_nonzero"
          (concat ("Codex runtime exited with code " ∷ m.int_str exit_code ∷ [])) none
          (field "message" (str "Codex runtime exited with non-zero status") (
            field "error_code" (str "WORKER_EXIT_NONZERO") (
              field "exit_code" (int exit_code) (
                field "stderr_tail" (arr (items (last_lines 20 (tail_of state))))
                  (field "is_retryable" (bool true) end)))))
      else if is_blocked_outcome m.upper summary
      then fail_task task_id "runtime_blocked" summary (some summary) (
          field "message" (str "Codex runtime reported a blocked outcome") (
            field "error_code" (str "WORKER_BLOCKED") (
              field "summary" (str summary)
                (field "exit_code" (int exit_code) (field "is_retryable" (bool true) end)))))
      else complete_task task_id summary (
          field "message" (str "Task completed")
            (field "summary" (str summary) (field "exit_code" (int exit_code) end)))

  -- `run` behind `wait`
  unfoldable pub report : ℕ → ℕ → ℤ → Bool → Exec (Unit {0})
  report task_id ref exit_code timed_out = do
    current_status ← get_status task_id
    state ← gets (find_state ref)
    if is_cancelled current_status then pure tt else report_exit task_id exit_code timed_out state

  abbrev follow : ℕ → ℕ → Option Run → Exec (Unit {0})
  follow task_id ref none = pure tt
  follow task_id ref (some run) = do
    (exit_code, timed_out) ← wait (handle_output_line task_id ref) run
    report task_id ref exit_code timed_out

  -- ProcessRunner.run, with nothing else happening meanwhile
  unfoldable pub run : ℕ → ℕ → ExecutionContext → Exec (Unit {0})
  unfolding launch report
  run task_id ref context = do launched ← launch task_id ref context; follow task_id ref launched

-- ProcessRunner.write_to_stdin
unfoldable pub write_to_stdin : ℕ → Process → String → Exec (Unit {0})
unfolding write_line
write_to_stdin = write_line "Forwarded follow-up to running Codex process"
