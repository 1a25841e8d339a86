-- ===== src/Managed/Run.antt =====
-- The start of a run of backend/workers/managed/session_runner.py, up to the driver (`start_run`).
use phodex.Base.{
  ℕ, suc, String, Bool, true, false, not, ◌||◌, Option, none, some, List, [], ◌∷◌, ◌==◌,
  if◌then◌else◌, get_row, is_empty, concat, where_rows,
}
use phodex.Json.{Fields, str, end, field, str_or_null, get_field}
use phodex.Models.{ProjectContext, SourceType, UserAiSettings}
use phodex.World.{
  World, Db, Exec, Result, ok, err, cancelled_error, error_text, attempt, pure, raise, query,
  modify, ◌>>=◌, ◌>>◌,
}
use phodex.Events.{append_event}
use phodex.Tasks.{get_user_id}
use phodex.Repositories.{is_github}
use phodex.AiSettings.{get_github_token, get_by_user_id, decrypt_key}
use phodex.Runners.{returned}
use phodex.Managed.Client.{Managed, LiveSession, SessionRequest, fail}

abbrev is_github_source : SourceType → Bool
is_github_source SourceType.github = true
is_github_source _ = false

-- `metadata.get("url")`, if it is a text that is not empty
abbrev pub metadata_url : Fields → Option String
metadata_url d = elim (get_field "url" d) [
  | none ↦ none
  | some v ↦ elim v [ str s ↦ if is_empty s then none else some s | _ ↦ none ]
]

-- `context.repo_url or metadata.get("url")`, if it is a text that is not empty
abbrev pub url_of : ProjectContext → Option String
url_of context = elim context.repo_url [
  | none ↦ metadata_url context.metadata_json
  | some s ↦ if is_empty s then metadata_url context.metadata_json else some s
]

abbrev pub repo_of : Option ProjectContext → Option (String × Option String)
repo_of none = none
repo_of (some context) =
    if is_github_source context.source_type || is_github context.metadata_json
    then elim (url_of context) [ none ↦ none | some url ↦ some (url, context.branch) ]
    else none

-- ManagedSessionRunner._load_repo
unfoldable pub load_repo : ℕ → Db → Option (String × Option String)
load_repo task_id db = elim (get_row (λ t. t.id) task_id db.tasks) [
  | none ↦ none
  | some task ↦ elim task.project_context_id [
    | none ↦ none
    | some id ↦ repo_of (get_row (λ c. c.id) id db.contexts)
  ]
]

-- where a driver stands: before the stream opens, in the stream, at the wait for an approval with the
-- events of the history that are still to be replayed, or behind `return`
pub data Point : Type 0 where
  opening streaming ended : Point
  waiting : List Fields → Point

pub record Driver : Type 0 where
  pub prompt : String
  pub live : LiveSession
  pub reconnects : ℕ
  pub first_message_sent : Bool
  pub point : Point

-- an id or a text that is not empty
abbrev pub given : Option String → Option String
given none = none
given (some s) = if is_empty s then none else some s

-- the entry of the dict `_live`
unfoldable pub put_live : ℕ → LiveSession → World → World
put_live task_id live w = record w {
  live =
      record { task_id = task_id; session_id = live.session_id; api_key = live.api_key }
      ∷ where_rows (λ e. not (e.task_id == task_id)) w.live;
}

module _ (m : Managed) (task_id : ℕ) where
  -- the `except Exception` of the creation, or the session
  unfoldable pub on_created :
      (prompt url : String)
      → (branch api_key : Option String) → Result String
      → Exec (Option Driver)
  unfolding put_live
  on_created prompt url branch api_key (err cancelled_error) = raise cancelled_error
  on_created prompt url branch api_key (err e) = do
    fail task_id "managed_session_create_failed"
        (concat ("Could not start the managed session: " ∷ error_text e ∷ []))
        "MANAGED_SESSION_CREATE_FAILED" true
    pure none
  on_created prompt url branch api_key (ok session_id) = do
    let live : LiveSession = record {
      session_id = session_id;
      api_key = api_key;
      pending_tool = none;
      seen_event_ids = [];
      completed = false;
    }
    modify (put_live task_id live)
    append_event task_id "task.log" (
        field "message" (str "Managed agent session created") (
          field "session_id" (str session_id)
            (field "repository" (str url) (field "branch" (str_or_null branch) end))))
    pure (
        some (record {
          prompt = prompt;
          live = live;
          reconnects = 0;
          first_message_sent = false;
          point = opening;
        }))

  -- the key of the user's settings
  abbrev pub api_key_of : Option UserAiSettings → Result (Option String)
  api_key_of none = ok none
  api_key_of (some row) = decrypt_key m.secrets row.anthropic_api_key_encrypted

  -- `sessions.create` in its `try`
  unfoldable pub ask_session :
      (prompt : String) → SessionRequest → (branch api_key : Option String) → Exec (Option Driver)
  unfolding on_created
  ask_session prompt request branch api_key =
      attempt (λ w. (m.create w api_key request, record w { calls = suc w.calls }))
        (on_created prompt request.url branch api_key)

  -- the key of the user's settings, and the creation of the session
  unfoldable pub create_session :
      (prompt url agent environment_id token : String)
      → (branch : Option String) → (user_id : ℕ) → Exec (Option Driver)
  unfolding ask_session
  create_session prompt url agent environment_id token branch user_id = do
    row ← query (get_by_user_id user_id)
    api_key ← returned (api_key_of row)
    let request : SessionRequest = record {
      agent = agent;
      environment_id = environment_id;
      task_id = task_id;
      url = url;
      authorization_token = token;
      branch = given branch;
    }
    ask_session prompt request branch api_key

  unfoldable pub with_token :
      (prompt url agent environment_id : String)
      → (branch : Option String) → (user_id : ℕ) → Option String
      → Exec (Option Driver)
  unfolding create_session
  with_token prompt url agent environment_id branch user_id none = do
    fail task_id "managed_github_token_missing"
        "A GitHub token is required so the managed sandbox can clone and push."
        "MANAGED_GITHUB_TOKEN_MISSING" true
    pure none
  with_token prompt url agent environment_id branch user_id (some token) =
      create_session prompt url agent environment_id token branch user_id

  -- `token or default`
  abbrev pub token_or : Option String → Option String
  token_or none = given m.github_default_token
  token_or (some s) = if is_empty s then given m.github_default_token else some s

  unfoldable pub configured :
      (prompt url : String)
      → (branch : Option String) → (agent environment_id : Option String) → Exec (Option Driver)
  configured prompt url branch (some agent) (some environment_id) = do
    user_id ← get_user_id task_id
    token ← (λ w. (get_github_token m.secrets user_id w, w))
    with_token prompt url agent environment_id branch user_id (token_or token)
  configured prompt url branch _ _ = do
    fail task_id "managed_not_configured"
        "MANAGED_AGENT_ID / MANAGED_ENVIRONMENT_ID are not set. Run scripts/setup_managed_agent.py once and add them to the environment."
        "MANAGED_NOT_CONFIGURED" false
    pure none

  unfoldable pub with_repo :
      (prompt : String) → Option (String × Option String) → Exec (Option Driver)
  unfolding configured
  with_repo prompt none = do
    fail task_id "managed_repo_required"
        "The managed engine needs a GitHub repository. Connect one first." "MANAGED_REPO_REQUIRED"
        false
    pure none
  with_repo prompt (some (url, branch)) =
      configured prompt url branch (given m.agent_id) (given m.environment_id)

  -- ManagedSessionRunner.run up to the driver
  unfoldable pub start_run : (prompt : String) → Exec (Option Driver)
  unfolding with_repo
  start_run prompt = do repo ← query (load_repo task_id); with_repo prompt repo
