-- ===== src/Cloud/Setup.antt =====
-- The settings and collaborators of the cloud repositories, and the environment that git is given:
-- _git_env and _resolve_token of backend/app/services/cloud_repo_service.py.
use phodex.Base.{ℕ, String, Bool, Option, none, some, List, [], ◌∷◌, if◌then◌else◌, is_empty}
use phodex.Json.{ℤ, Json}
use phodex.Models.{User}
use phodex.World.{World, Result, ok, err, Exec}
use phodex.AiSettings.{Secrets, get_github_token}
use phodex.Subprocess.{Variable, Host}
use phodex.Runners.{with_variable}
use phodex.Cloud.Url.{Texts}

-- The settings and collaborators of CloudRepoService, the disk, and Python's texts of values and paths
pub record Cloud : Type 0 where
  pub runner_name : String
  pub workspaces_root : String
  pub allow_local_git_urls : Bool
  pub github_default_token : Option String
  pub git_author_name : String
  pub git_author_email : String
  pub demo_repo_allowlist_urls : List String
  pub secrets : Secrets
  pub host : Host
  pub environ : List Variable
  pub is_dir : World → String → Bool
  pub make_dirs : World → String → Result (Unit {0})
  -- `str(Path(s))`, `str(Path(a) / b)`, `str(Path(s).parent)`
  pub path : String → String
  pub join_path : String → String → String
  pub parent : String → String
  pub int_str : ℤ → String
  pub json_str : Json → String
  pub texts : Texts

-- `s or default`
abbrev pub text_or : Option String → String → String
text_or none default = default
text_or (some s) default = if is_empty s then default else s

-- `stored or default`
abbrev pub token_or : Option String → Option String → Option String
token_or none default = default
token_or (some s) default = if is_empty s then default else some s

abbrev pub credential_helper : String
credential_helper =
    "!f() { echo \"username=x-access-token\"; echo \"password=${PHODEX_GIT_TOKEN}\"; }; f"

-- assignments to the variables of an environment, in order
abbrev pub assign : List Variable → List Variable → List Variable
assign env [] = env
assign env (v ∷ vs) = assign (with_variable v.name env v.value) vs

abbrev pub variable : String → String → Variable
variable name value = record { name = name; value = value }

abbrev pub identity : (name email : String) → List Variable
identity name email =
    variable "GIT_TERMINAL_PROMPT" "0"
    ∷ variable "GIT_AUTHOR_NAME" name
    ∷ variable "GIT_AUTHOR_EMAIL" email
    ∷ variable "GIT_COMMITTER_NAME" name
    ∷ variable "GIT_COMMITTER_EMAIL" email
    ∷ []

-- `if token: ...`
abbrev pub credentials : Option String → List Variable
credentials none = []
credentials (some token) =
    if is_empty token
    then []
    else variable "PHODEX_GIT_TOKEN" token
      ∷ variable "GIT_CONFIG_COUNT" "1"
      ∷ variable "GIT_CONFIG_KEY_0" "credential.helper"
      ∷ variable "GIT_CONFIG_VALUE_0" credential_helper
      ∷ []

abbrev pub name_of : Option User → Option String
name_of none = none
name_of (some user) = some user.name

abbrev pub email_of : Option User → Option String
email_of none = none
email_of (some user) = some user.email

module _ (c : Cloud) where
  -- CloudRepoService._resolve_token
  unfoldable pub resolve_token : ℕ → Exec (Option String)
  resolve_token user_id w = elim (get_github_token c.secrets user_id w) [
    | ok stored ↦ (ok (token_or stored c.github_default_token), w)
    | err e ↦ (err e, w)
  ]

  -- CloudRepoService._git_env
  unfoldable pub git_env : (token author_name author_email : Option String) → List Variable
  git_env token author_name author_email =
      let name = text_or author_name c.git_author_name in
      let email = text_or author_email c.git_author_email in
      assign (assign c.environ (identity name email)) (credentials token)
