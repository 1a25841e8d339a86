-- ===== src/Cloud.antt =====
-- backend/app/services/cloud_repo_service.py: repositories that are cloned on the server. Its callbacks for
-- the git service are `resolve_git_env` and `reset_workspace`. Git is a subprocess, paths are texts.
pub mod Url
pub mod Setup
pub mod Runner
pub mod Commands
pub mod Quiet
pub mod Hooks
pub mod Access
pub mod Single
pub mod Spelling
use phodex.Base.{
  ℕ, suc, ◌+◌, String, Bool, true, false, ◌&&◌, not, Option, none, some, List, [], ◌∷◌, ◌++◌, ◌==◌,
  if◌then◌else◌, or_else, get_or, get_row, set_row, first_row, map, str_eq, is_empty, strip, join,
  concat, last_part, length,
}
use phodex.Json.{ℤ, Json, Fields, is_zero, str, end, field, get_field}
use phodex.Models.{User, Device, SyncedRepository}
use phodex.World.{
  World, Db, Result, ok, err, Exec, Error, conflict, forbidden, git_command_failed, attempt, pure,
  raise, query, gets, commit, when, utcnow, uuid4, ◌>>=◌, ◌>>◌,
}
use phodex.Repositories.{is_github}
use phodex.AiSettings.{Secrets, set_github_token, get_github_token}
use phodex.Subprocess.{Variable, Command, Run, Host, Source, is_stderr, spawn, wait}
use phodex.Runners.{returned, with_variable}
use phodex.Git.{scrub, token_of, take_last, heard, is_stdout}
use Url.{RepoSource, Texts, parse_repo_source, url_error, normalize_for_allowlist}
use Setup.{Cloud, git_env, resolve_token, text_or, name_of, email_of}
use Runner.{ensure_runner_device}
use Commands.{
  git, git_output, is_clean, has_git, clone_or_update, detect_default_branch, ignore_failure,
}

-- `token and token.strip()`
abbrev pub is_given : Option String → Bool
is_given none = false
is_given (some s) = not (is_empty s) && not (is_empty (strip s))

-- CloudRepoService._find_repo
unfoldable pub find_repo : ℕ → String → Db → Option SyncedRepository
find_repo user_id path db =
    first_row (λ r. r.user_id == user_id && str_eq r.git_root path) db.repositories

-- CloudRepoService._load_user
unfoldable pub load_user : ℕ → Db → Option User
load_user user_id db = get_row (λ u. u.id) user_id db.users

-- `str(d.get(key, default))` of a default that is a text
abbrev pub text_field : (Json → String) → String → String → Fields → String
text_field json_str key default d = elim (get_field key d) [ none ↦ default | some v ↦ json_str v ]

-- the url of the metadata, if it is a text that is not empty
abbrev pub url_of : Fields → Option String
url_of metadata = elim (get_field "url" metadata) [
  | none ↦ none
  | some v ↦ elim v [ str s ↦ if is_empty s then none else some s | _ ↦ none ]
]

abbrev pub demo_error : Error
demo_error =
    forbidden
      "The demo account can only connect the demo repositories. Sign in with your own account to use other repositories."

-- `metadata` of `connect_repository`
abbrev pub source_metadata : RepoSource → Fields
source_metadata source = field "source" (str "github") (
    field "url" (str source.url)
      (field "owner" (str source.owner) (field "repo" (str source.name) end)))

abbrev pub is_workspace_of : (user_id device_id : ℕ) → String → SyncedRepository → Bool
is_workspace_of user_id device_id workdir r =
    r.user_id == user_id && (r.device_id == device_id && str_eq r.git_root workdir)

-- the branch of `connect_repository` for a repository that is known
abbrev pub refreshed : RepoSource → String → Option String → ℕ → SyncedRepository → SyncedRepository
refreshed source current_branch default_branch now r = record r {
  name = source.name;
  current_branch = some current_branch;
  default_branch = default_branch;
  last_scanned_at = some now;
  metadata_json = source_metadata source;
  is_active = true;
}

abbrev pub new_repository :
    (user_id device_id id : ℕ) → String → RepoSource → String → Option String → ℕ → SyncedRepository
new_repository user_id device_id id workdir source current_branch default_branch now = record {
  id = id;
  user_id = user_id;
  device_id = device_id;
  name = source.name;
  local_path = workdir;
  git_root = workdir;
  current_branch = some current_branch;
  default_branch = default_branch;
  is_active = true;
  last_scanned_at = some now;
  last_opened_at = none;
  metadata_json = source_metadata source;
}

unfoldable pub write_repository :
    (user_id device_id : ℕ)
    → String
    → RepoSource
    → String
    → Option String
    → Option SyncedRepository
    → Exec SyncedRepository
write_repository user_id device_id workdir source current_branch default_branch none = do
  now ← utcnow
  id ← uuid4
  let r = new_repository user_id device_id id workdir source current_branch default_branch now
  commit (λ db. record db { repositories = db.repositories ++ r ∷ [] })
  pure r
write_repository user_id device_id workdir source current_branch default_branch (some r) = do
  now ← utcnow
  let f = refreshed source current_branch default_branch now
  commit (λ db. record db { repositories = set_row (λ r. r.id) r.id f db.repositories })
  pure (f r)

-- the last part of `connect_repository`
unfoldable pub store_repository :
    (user_id device_id : ℕ) → String → RepoSource → String → Option String → Exec SyncedRepository
unfolding write_repository
store_repository user_id device_id workdir source current_branch default_branch = do
  found ← query (λ db. first_row (is_workspace_of user_id device_id workdir) db.repositories)
  write_repository user_id device_id workdir source current_branch default_branch found

module _ (c : Cloud) where
  -- CloudRepoService.workspace_path
  unfoldable pub workspace_path : ℕ → RepoSource → World → String
  workspace_path user_id source w =
      c.join_path (c.join_path (c.path c.workspaces_root) (w.env.uuid_str user_id))
        (concat (source.owner ∷ "__" ∷ source.name ∷ []))

  abbrev pub listed : RepoSource → List String → Bool
  listed source [] = false
  listed source (item ∷ rest) =
      let more = listed source rest in
      if str_eq (normalize_for_allowlist c.texts item) (normalize_for_allowlist c.texts source.url)
      then true
      else more

  -- the demo account, with an allowlist
  abbrev pub is_restricted : Option String → User → Bool
  is_restricted none user = false
  is_restricted (some demo_email) user = elim c.demo_repo_allowlist_urls [
    | [] ↦ false
    | item ∷ rest ↦ not (is_empty demo_email) && str_eq user.email demo_email
  ]

  -- CloudRepoService._enforce_demo_allowlist
  unfoldable pub enforce_demo_allowlist : User → RepoSource → Exec (Unit {0})
  enforce_demo_allowlist user source w =
      when
        (is_restricted w.settings.demo_account_email user
          && not (listed source c.demo_repo_allowlist_urls))
        (raise demo_error) w

  -- `if token and token.strip(): ...`
  unfoldable pub keep_token : ℕ → Option String → Exec (Unit {0})
  keep_token user_id token =
      when (is_given token) (do set_github_token c.secrets user_id token; pure tt)

  -- `connect_repository` behind the tests of the url
  unfoldable pub connect_source :
      User → RepoSource → (branch token : Option String) → Exec SyncedRepository
  unfolding keep_token
  connect_source user source branch token = do
    keep_token user.id token
    resolved_token ← resolve_token c user.id
    let env = git_env c resolved_token (some user.name) (some user.email)
    device ← ensure_runner_device c.runner_name user.id
    workdir ← gets (workspace_path user.id source)
    clone_or_update c workdir source branch env
    current_branch ← git_output c workdir ("rev-parse" ∷ "--abbrev-ref" ∷ "HEAD" ∷ []) env
    default_branch ← detect_default_branch c workdir env
    store_repository user.id device.id workdir source current_branch
        (some (text_or default_branch current_branch))

  -- `connect_repository` behind the parser
  unfoldable pub connect_found :
      User → (branch token : Option String) → Option RepoSource → Exec SyncedRepository
  connect_found user branch token none = raise (conflict url_error)
  connect_found user branch token (some source) =
      enforce_demo_allowlist user source >> connect_source user source branch token

  -- CloudRepoService.connect_repository
  unfoldable pub connect_repository :
      User → String → (branch token : Option String) → Exec SyncedRepository
  unfolding connect_found
  connect_repository user raw_url branch token =
      connect_found user branch token (parse_repo_source c.texts raw_url c.allow_local_git_urls)

  -- CloudRepoService._source_from_repo
  unfoldable pub source_from_repo : SyncedRepository → Option RepoSource
  source_from_repo repo =
      if is_github repo.metadata_json
      then elim (url_of repo.metadata_json) [
        | none ↦ none
        | some url ↦ some (record {
          url = url;
          owner = text_field c.json_str "owner" "" repo.metadata_json;
          name = text_field c.json_str "repo" repo.name repo.metadata_json;
        })
      ]
      else none

  -- a repository with its source, if it is a cloud workspace
  abbrev pub with_source : Option SyncedRepository → Option (SyncedRepository × RepoSource)
  with_source none = none
  with_source (some repo) = elim (source_from_repo repo) [
    | none ↦ none
    | some source ↦ some (repo, source)
  ]

  -- the environment of the hooks for a user
  unfoldable pub hook_env : ℕ → Exec (List Variable)
  hook_env user_id = do
    user ← query (load_user user_id)
    token ← resolve_token c user_id
    pure (git_env c token (name_of user) (email_of user))

  -- the body of the `try` of `prepare_for_task`
  unfoldable pub refresh_workspace :
      String → RepoSource → Option String → List Variable → Exec (Unit {0})
  refresh_workspace workdir source branch env = do
    present ← gets (has_git c workdir)
    if not present then clone_or_update c workdir source branch env else do
      git c workdir ("fetch" ∷ "--prune" ∷ "origin" ∷ []) env 120
      clean ← is_clean c workdir env
      when clean (git c workdir ("pull" ∷ "--ff-only" ∷ []) env 120)

  unfoldable pub prepare_workspace :
      ℕ → String → Option (SyncedRepository × RepoSource) → Exec (Unit {0})
  unfolding ignore_failure
  prepare_workspace user_id workdir none = pure tt
  prepare_workspace user_id workdir (some (repo, source)) = do
    env ← hook_env user_id
    attempt (refresh_workspace (c.path workdir) source repo.current_branch env) ignore_failure

  -- CloudRepoService.prepare_for_task
  unfoldable pub prepare_for_task : ℕ → String → Exec (Unit {0})
  unfolding prepare_workspace
  prepare_for_task user_id workdir = do
    found ← query (λ db. with_source (find_repo user_id workdir db))
    prepare_workspace user_id workdir found

  unfoldable pub env_of : ℕ → Option (SyncedRepository × RepoSource) → Exec (Option (List Variable))
  env_of user_id none = pure none
  env_of user_id (some _) = do env ← hook_env user_id; pure (some env)

  -- CloudRepoService.resolve_git_env
  unfoldable pub resolve_git_env : ℕ → String → Exec (Option (List Variable))
  unfolding env_of
  resolve_git_env user_id repo_path = do
    found ← query (λ db. with_source (find_repo user_id repo_path db))
    env_of user_id found

  unfoldable pub reset_tree : String → Exec Bool
  reset_tree path = do
    present ← gets (has_git c path)
    if not present then pure false else do
      git c path ("checkout" ∷ "--" ∷ "." ∷ []) (git_env c none none none) 120
      git c path ("clean" ∷ "-fd" ∷ []) (git_env c none none none) 120
      pure true

  unfoldable pub reset_found : String → Option (SyncedRepository × RepoSource) → Exec Bool
  unfolding reset_tree
  reset_found path none = pure false
  reset_found path (some _) = reset_tree path

  -- CloudRepoService.reset_workspace
  unfoldable pub reset_workspace : ℕ → String → Exec Bool
  unfolding reset_found
  reset_workspace user_id repo_path = do
    found ← query (λ db. with_source (find_repo user_id repo_path db))
    reset_found (c.path repo_path) found
