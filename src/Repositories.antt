-- ===== src/Repositories.antt =====
-- The part of backend/app/services/repo_sync_service.py and backend/app/repositories/repo_repo.py that reads
-- a repository and makes it the current context of a user.
pub mod Selection
use phodex.Base.{
  ℕ, suc, String, Bool, true, false, ◌&&◌, Option, none, some, List, [], ◌∷◌, ◌++◌, ◌==◌, str_eq,
  if◌then◌else◌, concat, is_empty, get_row, first_row, update_rows,
}
use phodex.Json.{Json, Fields, str, end, field, get_field, truthy}
use phodex.Models.{SyncedRepository, ProjectContext, SourceType}
use phodex.World.{
  World, Db, Exec, not_found, ok, pure, gets, or_raise, query, commit, uuid4, ◌>>=◌, ◌>>◌,
}

-- RepoRepository.get_by_id
abbrev pub get_by_id : ℕ → ℕ → Db → Option SyncedRepository
get_by_id repo_id user_id db =
    first_row (λ r. r.id == repo_id && r.user_id == user_id) db.repositories

-- RepoRepository.get_by_id_no_user
abbrev pub get_by_id_no_user : ℕ → Db → Option SyncedRepository
get_by_id_no_user repo_id db = get_row (λ r. r.id) repo_id db.repositories

-- RepoSyncService.get_repository
unfoldable pub get_repository : ℕ → ℕ → Exec SyncedRepository
get_repository user_id repo_id = do
  found ← query (get_by_id repo_id user_id)
  or_raise (not_found "Repository not found") found

-- `metadata.get("source") == "github"`
abbrev pub is_github : Fields → Bool
is_github metadata = elim (get_field "source" metadata) [
  | none ↦ false
  | some v ↦ elim v [ str s ↦ str_eq s "github" | _ ↦ false ]
]

-- `text or default`
abbrev text_or : Option String → String → String
text_or none default = default
text_or (some s) default = if is_empty s then default else s

-- `f"{repo.name} ({repo.current_branch or 'unknown-branch'})"`
abbrev default_name : SyncedRepository → String
default_name repo =
    concat (repo.name ∷ " (" ∷ text_or repo.current_branch "unknown-branch" ∷ ")" ∷ [])

-- `str(metadata.get("url"))`, if the repository is of GitHub and has one; `python_str` is Python's `str`
abbrev url_of : (Json → String) → Fields → Option String
url_of python_str metadata =
    if is_github metadata
    then elim (get_field "url" metadata) [
      | none ↦ none
      | some v ↦ if truthy v then some (python_str v) else none
    ]
    else none

-- the context that RepoSyncService.select_repository makes of a repository
unfoldable pub context_of :
    (Json → String) → ℕ → Option String → SyncedRepository → (id : ℕ) → String → ProjectContext
context_of python_str user_id name repo id device_id = record {
  id = id;
  user_id = user_id;
  source_type = if is_github repo.metadata_json then SourceType.github else SourceType.local_synced;
  synced_repository_id = some repo.id;
  name = text_or name (default_name repo);
  repo_url = url_of python_str repo.metadata_json;
  branch = repo.current_branch;
  metadata_json = field "local_path" (str repo.local_path) (
      field "git_root" (str repo.git_root) (
        field "device_id" (str device_id) (
          field "source" (str (if is_github repo.metadata_json then "github" else "local_synced"))
            end)));
  is_current = true;
}

-- the current contexts of the user
abbrev pub is_current_of : ℕ → ProjectContext → Bool
is_current_of user_id c = c.user_id == user_id && c.is_current

abbrev pub not_current : ProjectContext → ProjectContext
not_current c = record c { is_current = false }

-- RepoRepository.select_repository
unfoldable pub make_current : ℕ → ProjectContext → Exec ProjectContext
make_current user_id context = do
  commit (λ db. record db {
    contexts = update_rows (is_current_of user_id) not_current db.contexts ++ context ∷ [];
  })
  pure context

-- RepoSyncService.select_repository
unfoldable pub select_repository : (Json → String) → ℕ → ℕ → Option String → Exec ProjectContext
unfolding make_current context_of
select_repository python_str user_id repo_id name = do
  found ← query (get_by_id_no_user repo_id)
  repo ← or_raise (not_found "Repository not found") found
  device_id ← gets (λ w. w.env.uuid_str repo.device_id)
  id ← uuid4
  make_current user_id (context_of python_str user_id name repo id device_id)
