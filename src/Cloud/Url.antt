-- ===== src/Cloud/Url.antt =====
-- parse_repo_source of backend/app/services/cloud_repo_service.py, with its two regular expressions, and
-- _normalize_for_allowlist. A text that was stripped does not end with a newline, so `$` is the end.
use Prim.Native.String as S
use Prim.Native.Char.{Char, code}
use phodex.Base.{
  ℕ, String, Bool, true, false, ◌&&◌, ◌||◌, not, Option, none, some, ◌==◌, leb, if◌then◌else◌,
  or_else, get_or, str_eq, is_empty, strip, contains, starts_with, drop_prefix, remove_prefix,
  remove_suffix, rstrip_slash,
}

pub record RepoSource : Type 0 where
  pub url : String
  pub owner : String
  pub name : String

-- What the parser asks of Python and of the disk: which code points above ASCII are `\w`, `str.lower`,
-- and the resolved text and the name of a local path that exists.
pub record Texts : Type 0 where
  pub is_word : ℕ → Bool
  pub lower : String → String
  pub locate : String → Option (String × String)

abbrev pub url_error : String
url_error = "Enter a GitHub repository URL like https://github.com/owner/repo"

module _ (x : Texts) where
  -- `[\w.-]`
  abbrev pub is_name_char : Char → Bool
  is_name_char ch =
      let c = code ch in
      leb 48 c && leb c 57
      || leb 65 c && leb c 90
      || leb 97 c && leb c 122
      || c == 95
      || c == 46
      || c == 45
      || leb 128 c && x.is_word c

  -- `(?:\.git)?$`, behind which one slash may stand
  abbrev pub ends : (slash : Bool) → String → Bool
  ends slash s = is_empty s || str_eq s ".git" || slash && str_eq s "/" || slash && str_eq s ".git/"

  abbrev pub cons_name : Char → Option String → Option String
  cons_name c none = none
  cons_name c (some s) = some (S.◌∷◌ c s)

  -- `(?P<repo>[\w.-]+?)` and the end: the shortest name behind which the text may end
  abbrev pub repo_name : (slash : Bool) → String → Option String
  repo_name slash S.[] = none
  repo_name slash (S.◌∷◌ c s) =
      if is_name_char c
      then (if ends slash s then some (S.◌∷◌ c S.[]) else cons_name c (repo_name slash s))
      else none

  -- `(?P<owner>[\w.-]+)/`: the owner, and what follows the slash
  abbrev pub owner_part : String → Option (String × String)
  owner_part S.[] = none
  owner_part (S.◌∷◌ c s) =
      if code c == 47
      then some (S.[], s)
      else if is_name_char c
      then elim (owner_part s) [ none ↦ none | some (o, rest) ↦ some (S.◌∷◌ c o, rest) ]
      else none

  abbrev pub github_url : (owner name : String) → String
  github_url owner name =
      S.◌++◌ "https://github.com/" (S.◌++◌ owner (S.◌∷◌ "/" (S.◌++◌ name ".git")))

  abbrev pub source_of : String → Option String → Option RepoSource
  source_of owner none = none
  source_of owner (some name) =
      if is_empty owner
      then none
      else some (record { url = github_url owner name; owner = owner; name = name })

  abbrev pub owner_and_repo : (slash : Bool) → Option (String × String) → Option RepoSource
  owner_and_repo slash none = none
  owner_and_repo slash (some (owner, rest)) = source_of owner (repo_name slash rest)

  -- `(?:https?://)?`
  abbrev pub skip_scheme : String → String
  skip_scheme s = get_or (or_else (drop_prefix "https://" s) (drop_prefix "http://" s)) s

  abbrev pub behind_host : Option String → Option RepoSource
  behind_host none = none
  behind_host (some rest) = owner_and_repo true (owner_part rest)

  -- `_GITHUB_URL.match`
  unfoldable pub match_github : String → Option RepoSource
  match_github s = behind_host (drop_prefix "github.com/" (remove_prefix "www." (skip_scheme s)))

  -- `_SHORT_REF.match`
  unfoldable pub match_short : String → Option RepoSource
  match_short s = owner_and_repo false (owner_part s)

  -- `"://" not in value and not value.startswith(("/", ".", "~"))`
  abbrev pub may_be_short : String → Bool
  may_be_short s =
      not (contains s "://") && not (starts_with s "/" || starts_with s "." || starts_with s "~")

  abbrev pub local_source : Option (String × String) → Option RepoSource
  local_source none = none
  local_source (some (path, name)) =
      some (record { url = path; owner = "local"; name = remove_suffix ".git" name })

  -- the branches of `parse_repo_source` in their order
  unfoldable pub find_source : (allow_local : Bool) → String → Option RepoSource
  find_source allow_local value = or_else (match_github value) (
      or_else (if may_be_short value then match_short value else none)
        (if allow_local then local_source (x.locate (remove_prefix "file://" value)) else none))

  -- parse_repo_source; none stands for the `ValueError` with `url_error`
  unfoldable pub parse_repo_source : String → (allow_local : Bool) → Option RepoSource
  parse_repo_source raw allow_local =
      let value = strip raw in
      let found = find_source allow_local value in if is_empty value then none else found

  -- CloudRepoService._normalize_for_allowlist
  unfoldable pub normalize_for_allowlist : String → String
  normalize_for_allowlist url =
      let value = remove_suffix ".git" (rstrip_slash (strip url)) in
      x.lower (remove_prefix "www." (remove_prefix "http://" (remove_prefix "https://" value)))
