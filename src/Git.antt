-- ===== src/Git.antt =====
-- backend/app/services/git_service.py and backend/app/repositories/git_repo.py. The resolver of the
-- environment and the discard hook are callbacks; git itself is a subprocess.
pub mod Secrets
pub mod Review
pub mod Frame
pub mod Outcome
pub mod Confirmed
pub mod Decision
pub mod Verdict
use phodex.Base.{
  ℕ, ◌-◌, String, Bool, true, false, ◌&&◌, not, Option, none, some, List, [], ◌∷◌, ◌++◌, ◌==◌,
  if◌then◌else◌, get_or, or_else, get_row, set_row, first_row, length, drop, map, str_eq, is_empty,
  strip, join, concat, mask, take_text,
}
use phodex.Json.{ℤ, Json, Fields, is_zero, str, bool, end, field}
use phodex.Models.{Task, GitOperation, GitOperationStatus, ProjectContext, is_pending_review}
use phodex.World.{
  World, Db, Result, ok, err, Exec, Error, not_found, conflict, git_command_error, cancelled_error,
  error_text, attempt, pure, raise, or_raise, raise_if, query, commit, when, uuid4, ◌>>=◌, ◌>>◌,
}
use phodex.Events.{append_event}
use phodex.Contexts.{resolve_workdir}
use phodex.Subprocess.{
  Output, Source, stdout, stderr, source_name, is_stderr, Variable, Command, Run, Host, OnLine,
  spawn, wait, consume, both,
}

-- _scrub
unfoldable pub scrub : String → List String → String
unfolding mask
scrub line [] = line
scrub line (secret ∷ secrets) = scrub (if is_empty secret then line else mask secret line) secrets

-- the join with the task: whether it belongs to the user
abbrev pub is_owner : ℕ → Option Task → Bool
is_owner user_id none = false
is_owner user_id (some t) = t.user_id == user_id

-- GitOperationRepository.get_pending
unfoldable pub get_pending : ℕ → ℕ → ℕ → Db → Option GitOperation
get_pending git_operation_id task_id user_id db =
    first_row
      (λ op.
        op.id == git_operation_id
        && (op.task_id == task_id && is_owner user_id (get_row (λ t. t.id) op.task_id db.tasks)))
      db.git_operations

-- GitOperationRepository.get_by_id
unfoldable pub get_by_id : ℕ → Db → Option GitOperation
get_by_id git_operation_id db = get_row (λ op. op.id) git_operation_id db.git_operations

-- the arguments of `update_status`
pub record Changes : Type 0 where
  pub status : GitOperationStatus
  pub error_message : Option String
  pub commit_message : Option String
  pub pushed_branch : Option String

abbrev pub to_status : GitOperationStatus → Changes
to_status status = record {
  status = status;
  error_message = none;
  commit_message = none;
  pushed_branch = none;
}

-- the assignments of `update_status`
abbrev pub changed : Changes → GitOperation → GitOperation
changed c op = record op {
  status = c.status;
  error_message = or_else c.error_message op.error_message;
  commit_message = get_or c.commit_message op.commit_message;
  pushed_branch = or_else c.pushed_branch op.pushed_branch;
}

-- GitOperationRepository.update_status, which GitService._set_status calls
unfoldable pub set_status : ℕ → Changes → Exec (Unit {0})
set_status id c =
    commit
      (λ db. record db { git_operations = set_row (λ op. op.id) id (changed c) db.git_operations })

-- GitService._load_pending
unfoldable pub load_pending : ℕ → ℕ → ℕ → Exec GitOperation
unfolding get_pending
load_pending user_id task_id git_operation_id = do
  found ← query (get_pending git_operation_id task_id user_id)
  operation ← or_raise (not_found "Git operation not found") found
  raise_if (not (is_pending_review operation.status)) (conflict "Git operation already resolved")
  pure operation

-- GitService._reload
unfoldable pub reload : ℕ → Exec GitOperation
unfolding get_by_id
reload git_operation_id = do
  found ← query (get_by_id git_operation_id)
  or_raise (not_found "Git operation not found") found

-- `xs[-n:]`
abbrev pub take_last : ℕ → List String → List String
take_last n xs = drop (length xs - n) xs

-- the lines that reach the callback of `_consume`
abbrev pub heard : (Source → Bool) → List Output → List String
heard p [] = []
heard p (o ∷ os) =
    let rest = heard p os in
    if p o.source && not (is_empty (strip o.text)) then strip o.text ∷ rest else rest

abbrev pub is_stdout : Source → Bool
is_stdout source = not (is_stderr source)

-- `env.get(_TOKEN_ENV, "")`
abbrev pub token_of : List Variable → String
token_of [] = ""
token_of (v ∷ vs) = if str_eq v.name "PHODEX_GIT_TOKEN" then v.value else token_of vs

-- `[env.get(_TOKEN_ENV, "")] if env else []`
abbrev pub secrets_of : Option (List Variable) → List String
secrets_of none = []
secrets_of (some []) = []
secrets_of (some (v ∷ vs)) = token_of (v ∷ vs) ∷ []

abbrev pub started_payload : String → Fields
started_payload repo_path =
    field "message" (str "Committing and pushing changes") (field "repo_path" (str repo_path) end)

abbrev pub failed_payload : String → Fields
failed_payload error = field "message" (str "Commit/push failed") (
    field "error" (str error)
      (field "error_code" (str "GIT_COMMAND_FAILED") (field "is_retryable" (bool true) end)))

abbrev pub completed_payload : Fields
completed_payload = field "message" (str "Changes committed and pushed successfully.") end

abbrev pub discarded_payload : Bool → Fields
discarded_payload workspace_reset =
    field "message"
      (str (
        if workspace_reset
        then "Changes discarded and cloud workspace reset"
        else "Commit & push discarded by user"))
      (field "workspace_reset" (bool workspace_reset) end)

abbrev pub log_payload : List String → String → Source → Fields
log_payload args line source =
    field "message" (str line)
      (field "command" (str (join " " args)) (field "source" (str (source_name source)) end))

-- the message of `confirm`: what the user gave, unless it is blank
abbrev pub chosen_message : Option String → String → String
chosen_message none prepared = prepared
chosen_message (some s) prepared = if is_empty (strip s) then prepared else strip s

-- `task.title or task.prompt[:72]`
abbrev pub default_message : Task → String
default_message task = elim task.title [
  | none ↦ take_text 72 task.prompt
  | some s ↦ if is_empty s then take_text 72 task.prompt else s
]

-- the directory of the task's context, if it has one
abbrev pub repo_path_of : Task → Db → Option String
repo_path_of task db = elim task.project_context_id [
  | none ↦ none
  | some id ↦ elim (get_row (λ c. c.id) id db.contexts) [
    | none ↦ none
    | some context ↦ resolve_workdir context none db
  ]
]

-- `if not repo_path`
abbrev pub non_empty : Option String → Option String
non_empty none = none
non_empty (some s) = if is_empty s then none else some s

-- `if self._env_resolver is not None`
unfoldable pub resolve_env :
    Option (ℕ → String → Exec (Option (List Variable))) → ℕ → String → Exec (Option (List Variable))
resolve_env none user_id repo_path = pure none
resolve_env (some resolver) user_id repo_path = resolver user_id repo_path

-- the callbacks of GitService, git, and Python's text of an int
pub record Git : Type 0 where
  pub host : Host
  pub env_resolver : Option (ℕ → String → Exec (Option (List Variable)))
  pub discard_hook : Option (ℕ → String → Exec Bool)
  pub int_str : ℤ → String

-- `_on_line`
unfoldable pub log_line : ℕ → List String → List String → OnLine
unfolding scrub
log_line task_id args secrets raw_line source = do
  append_event task_id "git.log" (log_payload args (scrub raw_line secrets) source)
  pure tt

-- `stderr_tail`
abbrev pub error_lines : List String → Run → List String
error_lines secrets run = map (λ line. scrub line secrets) (heard is_stderr run.lines)

abbrev pub non_blank_or : String → String → String
non_blank_or s default = if is_empty s then default else s

abbrev raise_some : Option String → Exec (Unit {0})
raise_some none = pure tt
raise_some (some error) = raise (git_command_error error)

abbrev pub capture_command : String → List String → Command
capture_command cwd args = record {
  args = "git" ∷ args;
  cwd = some cwd;
  use_stdin = false;
  env = none;
  timeout_seconds = 30;
}

abbrev pub command : String → List String → Option (List Variable) → Command
command cwd args env = record {
  args = "git" ∷ args;
  cwd = some cwd;
  use_stdin = false;
  env = env;
  timeout_seconds = 120;
}

-- `_set_status`, the event and `_reload`, with which `confirm` and `discard` end
unfoldable pub close_operation : ℕ → ℕ → Changes → String → Fields → Exec GitOperation
close_operation task_id id c event_type payload = do
  set_status id c
  append_event task_id event_type payload
  reload id

abbrev pub completed_with : String → Changes
completed_with pushed_branch = record (to_status GitOperationStatus.completed) {
  pushed_branch = some pushed_branch;
}

abbrev pub running_with : String → Changes
running_with message = record (to_status GitOperationStatus.running) {
  commit_message = some message;
}

abbrev pub failed_with : String → Changes
failed_with error = record (to_status GitOperationStatus.failed) { error_message = some error }

-- the `except GitCommandError` of `confirm`, and what follows the `try`
unfoldable pub settle : ℕ → ℕ → Result String → Exec GitOperation
settle task_id id (ok pushed_branch) =
    close_operation task_id id (completed_with pushed_branch) "git.completed" completed_payload
settle task_id id (err (git_command_error error)) =
    close_operation task_id id (failed_with error) "git.failed" (failed_payload error)
settle task_id id (err e) = raise e

-- the `except Exception` of `discard`
unfoldable pub report_reset : ℕ → Result Bool → Exec Bool
report_reset task_id (ok workspace_reset) = pure workspace_reset
report_reset task_id (err cancelled_error) = raise cancelled_error
report_reset task_id (err e) = do
  append_event task_id "git.log" (
      field "message" (str (concat ("Could not reset cloud workspace: " ∷ error_text e ∷ [])))
        (field "source" (str "stderr") end))
  pure false

unfoldable pub reset_workspace : Option (ℕ → String → Exec Bool) → ℕ → ℕ → String → Exec Bool
reset_workspace none user_id task_id repo_path = pure false
reset_workspace (some hook) user_id task_id repo_path =
    attempt (hook user_id repo_path) (report_reset task_id)

-- the row that `prepare_commit` adds
unfoldable pub insert_operation :
    ℕ → (path message status_out diff_out : String) → Exec GitOperation
insert_operation task_id path message status_out diff_out = do
  id ← uuid4
  let operation : GitOperation = record {
    id = id;
    task_id = task_id;
    repo_path = path;
    commit_message = concat ("Phodex: " ∷ message ∷ []);
    status = GitOperationStatus.pending_review;
    status_output = some status_out;
    diff_stat_output = some diff_out;
    pushed_branch = none;
    error_message = none;
  }
  commit (λ db. record db { git_operations = db.git_operations ++ operation ∷ [] })
  pure operation

module _ (g : Git) where
  -- GitService._run_git_capture: the exit code is not looked at
  unfoldable pub run_git_capture : String → List String → Exec String
  unfolding spawn wait
  run_git_capture cwd args = do
    run ← spawn g.host (capture_command cwd args)
    wait (λ line source. pure tt) run
    pure (strip (join "\n" (heard is_stdout run.lines)))

  -- the text of the exception of `_run_git_streamed`, if it raises one
  abbrev pub command_error : List String → List String → Run → Option String
  command_error args secrets run =
      let code = g.int_str run.exit_code in
      if not run.in_time
      then some (concat ("git " ∷ join " " args ∷ " timed out" ∷ []))
      else if is_zero run.exit_code
      then none
      else some (
          concat (
            "git "
            ∷ join " " args
            ∷ " failed: "
            ∷ non_blank_or (join "\n" (take_last 10 (error_lines secrets run)))
                (concat ("exit code " ∷ code ∷ []))
            ∷ []))

  -- GitService._run_git_streamed
  unfoldable pub run_git_streamed :
      ℕ → String → List String → Option (List Variable) → List String → Exec (Unit {0})
  unfolding spawn wait log_line
  run_git_streamed task_id cwd args env secrets = do
    run ← spawn g.host (command cwd args env)
    wait (log_line task_id args secrets) run
    raise_some (command_error args secrets run)

  -- the body of the `try` of `confirm`
  unfoldable pub push_changes :
      ℕ → String → String → Option (List Variable) → List String → Exec String
  push_changes task_id path message env secrets = do
    run_git_streamed task_id path ("add" ∷ "-A" ∷ []) env secrets
    run_git_streamed task_id path ("commit" ∷ "-m" ∷ message ∷ []) env secrets
    run_git_streamed task_id path ("push" ∷ "-u" ∷ "origin" ∷ "HEAD" ∷ []) env secrets
    pushed_branch ← run_git_capture path ("rev-parse" ∷ "--abbrev-ref" ∷ "HEAD" ∷ [])
    pure (strip pushed_branch)

  -- `confirm` behind the write of RUNNING
  unfoldable pub commit_and_push : ℕ → ℕ → GitOperation → Exec GitOperation
  commit_and_push user_id task_id operation = do
    append_event task_id "git.started" (started_payload operation.repo_path)
    env ← resolve_env g.env_resolver user_id operation.repo_path
    attempt (push_changes task_id operation.repo_path operation.commit_message env (secrets_of env))
        (settle task_id operation.id)

  -- GitService.confirm
  unfoldable pub confirm : ℕ → ℕ → ℕ → Option String → Exec GitOperation
  confirm user_id task_id git_operation_id commit_message = do
    operation ← load_pending user_id task_id git_operation_id
    let message = chosen_message commit_message operation.commit_message
    set_status operation.id (running_with message)
    commit_and_push user_id task_id (record operation { commit_message = message })

  -- GitService.discard
  unfoldable pub discard : ℕ → ℕ → ℕ → Exec GitOperation
  discard user_id task_id git_operation_id = do
    operation ← load_pending user_id task_id git_operation_id
    set_status operation.id (to_status GitOperationStatus.rejected)
    workspace_reset ← reset_workspace g.discard_hook user_id task_id operation.repo_path
    append_event task_id "git.discarded" (discarded_payload workspace_reset)
    reload operation.id

  -- GitService.prepare_commit
  unfoldable pub prepare_commit : ℕ → ℕ → Exec GitOperation
  prepare_commit user_id task_id = do
    found ← query (λ db. first_row (λ t. t.id == task_id && t.user_id == user_id) db.tasks)
    task ← or_raise (not_found "Task not found") found
    path ← query (λ db. non_empty (repo_path_of task db))
    repo_path ← or_raise (conflict "Task has no synced repository to commit changes in") path
    status_output ← run_git_capture repo_path ("status" ∷ "--porcelain" ∷ [])
    diff_stat_output ← run_git_capture repo_path ("diff" ∷ "--stat" ∷ [])
    insert_operation task_id repo_path (default_message task) status_output diff_stat_output
