-- ===== src/AiSettings.antt =====
-- backend/app/services/user_ai_settings_service.py with repositories/user_ai_settings_repo.py and
-- backend/app/core/crypto.py. Fernet is a parameter; its token depends on the time and on chance.
-- A request that raises has committed nothing.
pub mod Keys
use phodex.Base.{
  is_some, ℕ, suc, String, Bool, true, false, not, Option, none, some, List, [], ◌∷◌, ◌++◌, ◌==◌,
  if◌then◌else◌, first_row, get_row, set_row, is_empty, strip, get_or,
}
use phodex.Models.{UserAiSettings}
use phodex.World.{
  World, Db, Exec, Result, ok, err, runtime_error, pure, raise, query, commit, uuid4, ◌>>=◌, ◌>>◌,
}

-- `settings_encryption_key`, and Fernet with a key: its n-th token, and `none` for `InvalidToken`
pub record Secrets : Type 0 where
  pub key : String
  pub encrypt : (key : String) → ℕ → String → String
  pub decrypt : (key token : String) → Option String

-- `bool(s)`
abbrev pub is_set : Option String → Bool
is_set none = false
is_set (some s) = not (is_empty s)

module _ (s : Secrets) where
  -- encrypt_secret
  unfoldable pub encrypt_secret : String → Exec String
  encrypt_secret plaintext w =
      if is_empty s.key
      then (err (runtime_error "SETTINGS_ENCRYPTION_KEY is not set."), w)
      else (ok (s.encrypt s.key w.calls plaintext), record w { calls = suc w.calls })

  -- decrypt_secret
  unfoldable pub decrypt_secret : String → Result String
  decrypt_secret ciphertext =
      if is_empty s.key
      then err (runtime_error "SETTINGS_ENCRYPTION_KEY is not set.")
      else elim (s.decrypt s.key ciphertext) [
        | some plaintext ↦ ok plaintext
        | none ↦ err (runtime_error "Stored secret could not be decrypted (wrong or rotated key).")
      ]

  -- decrypt_anthropic_key, decrypt_openai_key, decrypt_github_token: by the column
  unfoldable pub decrypt_key : Option String → Result (Option String)
  unfolding decrypt_secret
  decrypt_key none = ok none
  decrypt_key (some token) =
      if is_empty token
      then ok none
      else elim (decrypt_secret token) [ ok key ↦ ok (some key) | err e ↦ err e ]

  -- the value of a key's column after `update`
  unfoldable pub new_key : Bool → Option String → Option String → Exec (Option String)
  unfolding encrypt_secret
  new_key true given old = pure none
  new_key false none old = pure old
  new_key false (some key) old =
      if is_empty key then pure old else (do token ← encrypt_secret key; pure (some token))

  -- the value of the token's column after `set_github_token`
  unfoldable pub new_token : Option String → Exec (Option String)
  unfolding encrypt_secret
  new_token none = pure none
  new_token (some given) =
      if is_empty (strip given)
      then pure none
      else (do token ← encrypt_secret (strip given); pure (some token))

-- UserAiSettingsRepository.get_by_user_id
unfoldable pub get_by_user_id : ℕ → Db → Option UserAiSettings
get_by_user_id user_id db = get_row (λ r. r.user_id) user_id db.ai_settings

-- `UserAiSettings(user_id=user_id)`
abbrev pub empty_row : ℕ → ℕ → UserAiSettings
empty_row user_id id = record {
  id = id;
  user_id = user_id;
  anthropic_api_key_encrypted = none;
  openai_api_key_encrypted = none;
  github_token_encrypted = none;
  preferred_claude_model = none;
  preferred_codex_model = none;
}

-- the row of the user, or a new one
unfoldable pub row_of : ℕ → Exec UserAiSettings
unfolding get_by_user_id
row_of user_id = do
  found ← query (get_by_user_id user_id)
  id ← uuid4
  pure (get_or found (empty_row user_id id))

abbrev pub put_row :
    UserAiSettings → Option UserAiSettings → List UserAiSettings → List UserAiSettings
put_row row none rows = rows ++ row ∷ []
put_row row (some _) rows = set_row (λ r. r.user_id) row.user_id (λ _. row) rows

-- UserAiSettingsRepository.create and update, which commits
unfoldable pub save : UserAiSettings → Exec (Unit {0})
unfolding get_by_user_id
save row =
    commit
      (λ db. record db { ai_settings = put_row row (get_by_user_id row.user_id db) db.ai_settings })

-- what UserAiSettingsService.get_status returns
pub record Status : Type 0 where
  pub has_anthropic_key : Bool
  pub has_openai_key : Bool
  pub has_github_token : Bool
  pub preferred_claude_model : Option String
  pub preferred_codex_model : Option String

abbrev pub status_of : Option UserAiSettings → Status
status_of none = record {
  has_anthropic_key = false;
  has_openai_key = false;
  has_github_token = false;
  preferred_claude_model = none;
  preferred_codex_model = none;
}
status_of (some row) = record {
  has_anthropic_key = is_set row.anthropic_api_key_encrypted;
  has_openai_key = is_set row.openai_api_key_encrypted;
  has_github_token = is_set row.github_token_encrypted;
  preferred_claude_model = row.preferred_claude_model;
  preferred_codex_model = row.preferred_codex_model;
}

-- UserAiSettingsService.get_status
unfoldable pub get_status : ℕ → Exec Status
unfolding get_by_user_id
get_status user_id = query (λ db. status_of (get_by_user_id user_id db))

-- the arguments of UserAiSettingsService.update
pub record Update : Type 0 where
  pub anthropic_api_key : Option String
  pub openai_api_key : Option String
  pub clear_anthropic_key : Bool
  pub clear_openai_key : Bool
  pub preferred_claude_model : Option String
  pub preferred_codex_model : Option String

-- a model's name that was given replaces the old one; the empty one removes it
abbrev pub new_model : Option String → Option String → Option String
new_model none old = old
new_model (some s) old = if is_empty s then none else some s

module _ (s : Secrets) where
  -- the assignments of UserAiSettingsService.update, and the commit
  unfoldable pub store_update : Update → UserAiSettings → Exec (Unit {0})
  store_update c row = do
    anthropic ← new_key s c.clear_anthropic_key c.anthropic_api_key row.anthropic_api_key_encrypted
    openai ← new_key s c.clear_openai_key c.openai_api_key row.openai_api_key_encrypted
    save (record row {
      anthropic_api_key_encrypted = anthropic;
      openai_api_key_encrypted = openai;
      preferred_claude_model = new_model c.preferred_claude_model row.preferred_claude_model;
      preferred_codex_model = new_model c.preferred_codex_model row.preferred_codex_model;
    })

  -- UserAiSettingsService.update
  unfoldable pub update : ℕ → Update → Exec Status
  update user_id c = do row ← row_of user_id; store_update c row; get_status user_id

  -- UserAiSettingsService.set_github_token
  unfoldable pub set_github_token : ℕ → Option String → Exec Bool
  set_github_token user_id given = do
    row ← row_of user_id
    token ← new_token s given
    save (record row { github_token_encrypted = token })
    pure (is_some token)

  -- UserAiSettingsService.get_github_token
  unfoldable pub get_github_token : ℕ → World → Result (Option String)
  unfolding get_by_user_id decrypt_key
  get_github_token user_id w = elim (get_by_user_id user_id w.db) [
    | none ↦ ok none
    | some row ↦ decrypt_key s row.github_token_encrypted
  ]
