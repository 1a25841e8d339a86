-- ===== src/Runners/Claude.antt =====
-- backend/workers/claude/process_runner.py.
use phodex.Base.{
  ℕ, String, Bool, true, false, not, Option, none, some, List, [], ◌∷◌, ◌++◌, if◌then◌else◌,
  is_empty, strip, join, concat,
}
use phodex.Json.{ℤ, Json, Fields, str, bool, int, arr, obj, end, field, str_or_null, is_zero}
use phodex.Models.{UserAiSettings, is_cancelled}
use phodex.World.{
  RuntimeState, Process, Exec, Result, ok, err, runtime_error, file_not_found, pure, raise, gets,
  query, modify, raise_if, attempt, ◌>>=◌, ◌>>◌,
}
use phodex.Events.{append_event}
use phodex.Tasks.{get_status, get_user_id, append_assistant_message}
use phodex.AiSettings.{get_by_user_id, decrypt_key}
use phodex.Subprocess.{Source, stdout, stderr, OnLine, Run, spawn, wait}
use phodex.Parsers.Claude.{
  is_system_init, is_result_event, is_error_result, extract_result_summary, extract_result_subtype,
  extract_assistant_text, extract_tool_use_summaries,
}
use phodex.Orchestrator.{ExecutionContext}
use phodex.Orchestrator.Runtime.{write_state}
use phodex.Orchestrator.Jobs.{find_state}
use phodex.Runners.{
  Machine, Overrides, no_overrides, returned, key_env, model_args, last_lines, items, keep_stderr,
  set_summary, log_line, resolve_cwd, set_process, fail_task, complete_task, summary_or, tail_of,
  reported_error, write_line,
}

-- the settings of the runtime
pub record Settings : Type 0 where
  pub claude_command : String
  pub claude_permission_mode : String
  pub claude_extra_args : String
  pub claude_timeout_seconds : ℕ

unfoldable pub keep_text : ℕ → ℕ → Option String → Exec (Unit {0})
unfolding write_state
keep_text task_id ref none = pure tt
keep_text task_id ref (some text) =
    if is_empty text
    then pure tt
    else do append_assistant_message task_id text; modify (write_state ref (set_summary text))

-- one log line for each call of a tool
unfoldable pub log_tools : ℕ → Source → List String → Exec (Unit {0})
log_tools task_id source [] = pure tt
log_tools task_id source (tool ∷ tools) = do
  log_line task_id (concat ("Tool call: " ∷ tool ∷ [])) source
  log_tools task_id source tools

-- `if result_text: ...` and the error flag
abbrev pub set_result : Option String → Bool → RuntimeState → RuntimeState
set_result none is_error s = record s { runtime_reported_error = is_error }
set_result (some text) is_error s = record s {
  runtime_reported_error = is_error;
  final_summary = if is_empty text then s.final_summary else some text;
}

unfoldable pub handle_result : ℕ → ℕ → Fields → Exec (Unit {0})
unfolding write_state
handle_result task_id ref payload = do
  modify (write_state ref (set_result (extract_result_summary payload) (is_error_result payload)))
  append_event task_id "task.progress" (
      field "message" (str "Claude runtime finished its turn") (
        field "is_error" (bool (is_error_result payload))
          (field "subtype" (str_or_null (extract_result_subtype payload)) end)))
  pure tt

-- `_handle_output_line` behind `json.loads`, with a dict
unfoldable pub handle_payload :
    (json_str : Json → String) → ℕ → ℕ → Source → Fields → Exec (Unit {0})
unfolding handle_result keep_text log_tools
handle_payload json_str task_id ref source payload =
    if is_system_init payload
    then log_line task_id "Claude runtime started" source
    else if is_result_event payload
    then handle_result task_id ref payload
    else do
      keep_text task_id ref (extract_assistant_text payload)
      log_tools task_id source (extract_tool_use_summaries json_str payload)

module _ (m : Machine) (c : Settings) where
  -- ProcessRunner._base_args
  unfoldable pub base_args : String → Option String → Result (List String)
  base_args prompt model = elim (m.split c.claude_extra_args) [
    | err e ↦ err e
    | ok extra ↦ ok (
        c.claude_command
          ∷ "-p"
          ∷ prompt
          ∷ "--output-format"
          ∷ "stream-json"
          ∷ "--verbose"
          ∷ "--permission-mode"
          ∷ c.claude_permission_mode
          ∷ model_args model
        ++ extra)
  ]

  -- ProcessRunner.command_preview
  unfoldable pub command_preview : Result String
  unfolding base_args
  command_preview = elim (base_args "<prompt>" none) [
    | ok tokens ↦ ok (strip (join " " tokens))
    | err e ↦ err e
  ]

  abbrev overrides_of : Option UserAiSettings → Result Overrides
  overrides_of none = ok no_overrides
  overrides_of (some row) = elim (decrypt_key m.secrets row.anthropic_api_key_encrypted) [
    | err e ↦ err e
    | ok key ↦ ok (record {
      env = key_env "ANTHROPIC_API_KEY" m.environ key;
      model = row.preferred_claude_model;
    })
  ]

  -- ProcessRunner._resolve_overrides
  unfoldable pub resolve_overrides : ℕ → Exec Overrides
  unfolding get_by_user_id
  resolve_overrides task_id = do
    user_id ← get_user_id task_id
    row ← query (get_by_user_id user_id)
    returned (overrides_of row)

  -- what `run` does with the result of `spawn`
  unfoldable pub on_spawn : ℕ → ℕ → Result Run → Exec (Option Run)
  unfolding set_process
  on_spawn task_id ref (err (file_not_found e)) = do
    fail_task task_id "runtime_unavailable" e none (
        field "message" (str "Claude runtime command not found") (
          field "error_code" (str "WORKER_RUNTIME_UNAVAILABLE") (
            field "error" (str e)
              (field "command" (str c.claude_command) (field "is_retryable" (bool false) end)))))
    pure none
  on_spawn task_id ref (err e) = raise e
  on_spawn task_id ref (ok run) = do set_process ref run false; pure (some run)

  -- `run` up to the start of the streaming
  unfoldable pub launch : ℕ → ℕ → ExecutionContext → Exec (Option Run)
  unfolding resolve_cwd spawn
  launch task_id ref context = do
    o ← resolve_overrides task_id
    command ← returned (base_args context.prompt_text o.model)
    raise_if (is_empty c.claude_command) (runtime_error "CLAUDE_COMMAND is empty")
    cwd ← resolve_cwd m task_id context.workdir
    preview ← returned command_preview
    append_event task_id "task.log" (
        field "message" (str "Launching Claude runtime process")
          (field "command" (str preview) (field "workdir" (str_or_null cwd) end)))
    attempt
        (spawn m.host (record {
          args = command;
          cwd = cwd;
          use_stdin = false;
          env = o.env;
          timeout_seconds = c.claude_timeout_seconds;
        }))
        (on_spawn task_id ref)

  unfoldable pub handle_json : ℕ → ℕ → String → Source → Option Json → Exec (Unit {0})
  unfolding handle_payload
  handle_json task_id ref line source none = log_line task_id line source
  handle_json task_id ref line source (some (obj payload)) =
      handle_payload m.json_str task_id ref source payload
  handle_json task_id ref line source (some v) = log_line task_id (m.json_str v) source

  -- ProcessRunner._handle_output_line
  unfoldable pub handle_output_line : ℕ → ℕ → OnLine
  unfolding keep_stderr handle_json
  handle_output_line task_id ref line stderr = do
    keep_stderr ref line stderr
    log_line task_id line stderr
  handle_output_line task_id ref line stdout = handle_json task_id ref line stdout (m.loads line)

  -- `run` behind `wait`, for a task that is not cancelled
  unfoldable pub report_exit : ℕ → ℤ → Bool → Option RuntimeState → Exec (Unit {0})
  report_exit task_id exit_code true state =
      fail_task task_id "runtime_timeout" "Claude runtime timed out" none (
        field "message" (str "Claude runtime timed out")
          (field "error_code" (str "WORKER_TIMEOUT") (field "is_retryable" (bool true) end)))
  report_exit task_id exit_code false state =
      let summary = summary_or "Claude worker completed successfully." state in
      if not (is_zero exit_code)
      then fail_task task_id "runtime_exit_nonzero"
          (concat ("Claude runtime exited with code " ∷ m.int_str exit_code ∷ [])) none
          (field "message" (str "Claude runtime exited with non-zero status") (
            field "error_code" (str "WORKER_EXIT_NONZERO") (
              field "exit_code" (int exit_code) (
                field "stderr_tail" (arr (items (last_lines 20 (tail_of state))))
                  (field "is_retryable" (bool true) end)))))
      else if reported_error state
      then fail_task task_id "runtime_blocked" summary (some summary) (
          field "message" (str "Claude runtime reported an error outcome") (
            field "error_code" (str "WORKER_BLOCKED") (
              field "summary" (str summary)
                (field "exit_code" (int exit_code) (field "is_retryable" (bool true) end)))))
      else complete_task task_id summary (
          field "message" (str "Task completed")
            (field "summary" (str summary) (field "exit_code" (int exit_code) end)))

  -- `run` behind `wait`
  unfoldable pub report : ℕ → ℕ → ℤ → Bool → Exec (Unit {0})
  report task_id ref exit_code timed_out = do
    current_status ← get_status task_id
    state ← gets (find_state ref)
    if is_cancelled current_status then pure tt else report_exit task_id exit_code timed_out state

  abbrev follow : ℕ → ℕ → Option Run → Exec (Unit {0})
  follow task_id ref none = pure tt
  follow task_id ref (some run) = do
    (exit_code, timed_out) ← wait (handle_output_line task_id ref) run
    report task_id ref exit_code timed_out

  -- ProcessRunner.run, with nothing else happening meanwhile
  unfoldable pub run : ℕ → ℕ → ExecutionContext → Exec (Unit {0})
  unfolding launch report
  run task_id ref context = do launched ← launch task_id ref context; follow task_id ref launched

-- ProcessRunner.write_to_stdin
unfoldable pub write_to_stdin : ℕ → Process → String → Exec (Unit {0})
unfolding write_line
write_to_stdin = write_line "Forwarded follow-up to running Claude process"
