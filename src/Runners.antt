-- ===== src/Runners.antt =====
-- What backend/workers/codex/process_runner.py and backend/workers/claude/process_runner.py have in
-- common, which each of the two writes out. A run is three parts: the launch, the lines of the output,
-- and the report behind `wait`. What other requests do meanwhile stands between these parts.
--
-- Parameters are the operating system, `json.loads`, `shlex.split`, and Python's `str` and `upper`. Writes
-- to the standard input of a process succeed.
pub mod Codex
pub mod Claude
pub mod Report
pub mod Tail
use phodex.Base.{
  ℕ, ◌-◌, str_eq, concat, String, Bool, true, false, ◌&&◌, not, Option, none, some, List, [], ◌∷◌,
  ◌++◌, ltb, length, drop, if◌then◌else◌, is_empty, is_none, strip,
}
use phodex.Json.{ℤ, Json, Items, Fields, str, bool, int, arr, nil, cons, end, field, str_or_null}
use phodex.Models.{TaskStatus, UserAiSettings}
use phodex.World.{
  World, RuntimeState, Process, Exec, Result, Effect, ok, err, pure, raise, query, modify, emit,
  when, input, ◌>>=◌, ◌>>◌,
}
use phodex.Events.{append_event}
use phodex.Tasks.{transition_for_worker, get_user_id}
use phodex.AiSettings.{Secrets, get_by_user_id}
use phodex.Subprocess.{Host, Variable, Source, stdout, stderr, source_name, is_stderr, Run}
use phodex.Orchestrator.Runtime.{write_state}
use phodex.Orchestrator.Jobs.{find_state}

pub record Machine : Type 0 where
  pub host : Host
  pub is_dir : World → String → Bool
  pub environ : List Variable
  pub split : String → Result (List String)
  pub loads : String → Option Json
  pub json_str : Json → String
  pub int_str : ℤ → String
  pub upper : String → String
  pub secrets : Secrets

-- a result of a function that may raise
abbrev pub returned : {A : Type 0} → Result A → Exec A
returned r w = (r, w)

-- `env` and the model of `_resolve_overrides`
pub record Overrides : Type 0 where
  pub env : Option (List Variable)
  pub model : Option String

abbrev pub no_overrides : Overrides
no_overrides = record { env = none; model = none }

abbrev drop_variable : String → List Variable → List Variable
drop_variable name [] = []
drop_variable name (v ∷ vs) =
    let rest = drop_variable name vs in if str_eq v.name name then rest else v ∷ rest

-- `{**os.environ, name: value}`
abbrev pub with_variable : String → List Variable → String → List Variable
with_variable name environ value =
    record { name = name; value = value } ∷ drop_variable name environ

-- `if api_key: env = ...`
abbrev pub key_env : String → List Variable → Option String → Option (List Variable)
key_env name environ none = none
key_env name environ (some key) =
    if is_empty key then none else some (with_variable name environ key)

-- `if model: ...`
abbrev pub model_args : Option String → List String
model_args none = []
model_args (some s) = if is_empty s then [] else "--model" ∷ s ∷ []

-- `xs[-n:]`
abbrev pub last_lines : ℕ → List String → List String
last_lines n xs = drop (length xs - n) xs

abbrev pub items : List String → Items
items [] = nil
items (s ∷ ss) = cons (str s) (items ss)

-- the line joins `stderr_tail`, which is cut to 200 lines
abbrev pub push_stderr : String → RuntimeState → RuntimeState
push_stderr line s =
    let tail = s.stderr_tail ++ line ∷ [] in
    record s { stderr_tail = if ltb 200 (length tail) then last_lines 200 tail else tail }

-- `if source == "stderr": ...`
unfoldable pub keep_stderr : ℕ → String → Source → Exec (Unit {0})
unfolding write_state
keep_stderr ref line source = when (is_stderr source) (modify (write_state ref (push_stderr line)))

abbrev pub set_summary : String → RuntimeState → RuntimeState
set_summary summary s = record s { final_summary = some summary }

abbrev pub line_payload : String → Source → Fields
line_payload message source =
    field "message" (str message) (field "source" (str (source_name source)) end)

unfoldable pub log_line : ℕ → String → Source → Exec (Unit {0})
log_line task_id message source = do
  append_event task_id "task.log" (line_payload message source)
  pure tt

-- the directory to start in: none if the one of the context is not there
unfoldable pub resolve_cwd : Machine → ℕ → Option String → Exec (Option String)
resolve_cwd m task_id none w = (ok none, w)
resolve_cwd m task_id (some cwd) w =
    if m.is_dir w cwd
    then (ok (some cwd), w)
    else (do
      append_event task_id "task.log" (
          field "message" (str "Configured workdir does not exist, falling back to server cwd")
            (field "workdir" (str cwd) end))
      pure none)
        w

-- `state.process = managed.process`
unfoldable pub set_process : ℕ → Run → Bool → Exec (Unit {0})
unfolding write_state
set_process ref run use_stdin = modify (
    write_state ref (λ s. record s {
      process = some (record { pid = run.pid; is_alive = true; stdin_open = use_stdin });
    }))

-- a transition to FAILED and its event
unfoldable pub fail_task :
    ℕ → (phase error : String) → (summary : Option String) → Fields → Exec (Unit {0})
fail_task task_id phase error summary payload = do
  transition_for_worker task_id TaskStatus.failed (some phase) (some error) summary
  append_event task_id "task.failed" payload
  pure tt

-- the event of a success and the transition to COMPLETED
unfoldable pub complete_task : ℕ → (summary : String) → Fields → Exec (Unit {0})
complete_task task_id summary payload = do
  append_event task_id "task.completed" payload
  transition_for_worker task_id TaskStatus.completed (some "done") none (some summary)
  pure tt

-- `state.final_summary or default`
abbrev pub summary_or : String → Option RuntimeState → String
summary_or default none = default
summary_or default (some s) = elim s.final_summary [
  | none ↦ default
  | some text ↦ if is_empty text then default else text
]

abbrev pub tail_of : Option RuntimeState → List String
tail_of none = []
tail_of (some s) = s.stderr_tail

abbrev pub reported_error : Option RuntimeState → Bool
reported_error none = false
reported_error (some s) = s.runtime_reported_error

-- `write_to_stdin`, with the text of its log line
unfoldable pub write_line : String → ℕ → Process → String → Exec (Unit {0})
write_line message task_id process content = when process.stdin_open (do
  emit (input process.pid (concat (strip content ∷ "\n" ∷ [])))
  append_event task_id "task.log" (field "message" (str message) end)
  pure tt)
