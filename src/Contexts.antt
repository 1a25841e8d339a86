-- ===== src/Contexts.antt =====
-- backend/workers/common/context.py: the prompt and the directory that a worker is started with.
pub mod Prompt
use phodex.Base.{
  ℕ, String, Bool, true, false, ◌&&◌, not, Option, none, some, List, [], ◌∷◌, ◌++◌, map, ◌==◌,
  str_eq, if◌then◌else◌, concat, join, strip, is_empty, get_row, where_rows, order_by,
}
use phodex.Json.{Json, Fields, str, get_field}
use phodex.Models.{Task, TaskMessage, TaskMessageRole, ProjectContext, SyncedRepository}
use phodex.World.{World, Db, Exec, runtime_error, ok, pure, raise, or_raise, query, ◌>>=◌, ◌>>◌}
use phodex.Orchestrator.{ExecutionContext}

abbrev pub is_user : TaskMessageRole → Bool
is_user TaskMessageRole.user = true
is_user _ = false

-- the path in the metadata of a context, if it is a text that is not blank
abbrev pub local_path : Fields → Option String
local_path metadata = elim (get_field "local_path" metadata) [
  | none ↦ none
  | some v ↦ elim v [ str s ↦ if is_empty (strip s) then none else some (strip s) | _ ↦ none ]
]

abbrev repository_of : ProjectContext → Db → Option SyncedRepository
repository_of context db = elim context.synced_repository_id [
  | none ↦ none
  | some id ↦ get_row (λ r. r.id) id db.repositories
]

-- resolve_workdir
unfoldable pub resolve_workdir : ProjectContext → Option String → Db → Option String
resolve_workdir context default_workdir db = elim (local_path context.metadata_json) [
  | some path ↦ some path
  | none ↦ elim (repository_of context db) [
    | some repo ↦ some repo.local_path
    | none ↦ default_workdir
  ]
]

-- a follow-up: what the user wrote beside the prompt
abbrev pub is_followup : String → TaskMessage → Bool
is_followup prompt msg =
    is_user msg.role
    && not (is_empty (strip msg.content))
    && not (str_eq (strip msg.content) prompt)

abbrev pub followups : String → List TaskMessage → List String
followups prompt messages = map (λ m. strip m.content) (where_rows (is_followup prompt) messages)

-- a line for a value that is there and not empty
abbrev line_of : String → Option String → List String
line_of label none = []
line_of label (some s) = if is_empty s then [] else concat (label ∷ s ∷ []) ∷ []

abbrev pub followup_lines : List String → List String
followup_lines [] = []
followup_lines (s ∷ ss) =
    "Follow-up instructions:" ∷ map (λ item. concat ("- " ∷ item ∷ [])) (s ∷ ss)

-- the lines of compose_prompt
unfoldable pub prompt_lines :
    Task → List TaskMessage → (context_name branch : Option String) → String → List String
prompt_lines task messages context_name branch instructions =
    "You are executing a coding task on behalf of a remote mobile client."
      ∷ concat ("Primary request: " ∷ task.prompt ∷ [])
      ∷ line_of "Project context: " context_name
    ++ line_of "Branch: " branch
    ++ followup_lines (followups task.prompt messages)
    ++ instructions ∷ []

-- compose_prompt
unfoldable pub compose_prompt :
    Task → List TaskMessage → (context_name branch : Option String) → String → String
unfolding prompt_lines
compose_prompt task messages context_name branch instructions =
    join "\n" (prompt_lines task messages context_name branch instructions)

-- the messages of a task, oldest first
abbrev pub messages_of : ℕ → Db → List TaskMessage
messages_of task_id db =
    order_by (λ m. m.created_at) (where_rows (λ m. m.task_id == task_id) db.messages)

abbrev context_of : Task → Db → Option ProjectContext
context_of task db = elim task.project_context_id [
  | none ↦ none
  | some id ↦ get_row (λ c. c.id) id db.contexts
]

-- the hook `prepare_workdir`, if there is one and the directory is known
abbrev prepare : Option (ℕ → String → Exec (Unit {0})) → ℕ → Option String → Exec (Unit {0})
prepare none user_id workdir = pure tt
prepare (some hook) user_id none = pure tt
prepare (some hook) user_id (some workdir) = hook user_id workdir

module _ (default_workdir : Option String) (instructions : String)
    (prepare_workdir : Option (ℕ → String → Exec (Unit {0}))) where
  -- what ExecutionContextBuilder.build reads from the tables
  abbrev pub execution_context : Task → Db → ExecutionContext
  execution_context task db = elim (context_of task db) [
    | none ↦ record {
      prompt_text = compose_prompt task (messages_of task.id db) none none instructions;
      workdir = default_workdir;
      context_name = none;
      branch = none;
    }
    | some c ↦ record {
      prompt_text =
          compose_prompt task (messages_of task.id db) (some c.name) c.branch instructions;
      workdir = resolve_workdir c default_workdir db;
      context_name = some c.name;
      branch = c.branch;
    }
  ]

  -- ExecutionContextBuilder.build
  unfoldable pub build : ℕ → Exec ExecutionContext
  build task_id = do
    found ← query (λ db. get_row (λ t. t.id) task_id db.tasks)
    task ← or_raise (runtime_error "Task not found for execution context") found
    context ← query (execution_context task)
    prepare prepare_workdir task.user_id context.workdir
    pure context
