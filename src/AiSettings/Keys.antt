-- ===== src/AiSettings/Keys.antt =====
-- A key that a user stores is the one that is handed out.
use phodex.Base.{
  ℕ, suc, String, ◌≡◌, refl, ap, ◌∙◌, Bool, true, false, Option, none, some, ◌==◌, ==_self,
  if◌then◌else◌, is_empty, strip, get_row, get_row-append_new, get_row-replace, key-get_row,
  Option-cases, Bool-cases, inl, inr, get_or,
}
use phodex.Models.{UserAiSettings}
use phodex.World.{World, Db, ok}
use phodex.AiSettings.{
  Secrets, decrypt_key, new_key, new_token, get_by_user_id, row_of, save, store_update, get_status,
  status_of, Update, update, set_github_token, get_github_token, empty_row, new_model,
}

-- what Fernet promises: a token that it made is not empty, and opens to its text
pub record IsSound (s : Secrets) : Type 0 where
  pub configured : is_empty s.key ≡ false
  pub full : (n : ℕ) (text : String) → is_empty (s.encrypt s.key n text) ≡ false
  pub opens : (n : ℕ) (text : String) → s.decrypt s.key (s.encrypt s.key n text) ≡ some text

abbrev pub find_settings : ℕ → Db → Option UserAiSettings
find_settings user_id db = get_row (λ r. r.user_id) user_id db.ai_settings

save_lem :
    (row : UserAiSettings) (w : World) (j : ℕ)
    → find_settings j (save row w).1.db
      ≡ (if row.user_id == j then some row else find_settings j w.db)
unfolding save get_by_user_id
save_lem row w j = elim (Option-cases (find_settings row.user_id w.db)) [
  | inl missing ↦ rw missing (get_row-append_new (λ r. r.user_id) j w.db.ai_settings row missing)
  | inr (old, there) ↦ rw there (get_row-replace (λ r. r.user_id) j row old w.db.ai_settings there)
]

own_row :
    (row : UserAiSettings) (w : World) (user_id : ℕ)
    → row.user_id ≡ user_id
    → find_settings user_id (save row w).1.db ≡ some row
own_row row w user_id mine = save_lem row w user_id ∙ rw mine (rw (==_self user_id) refl)

-- the settings that the user has, or the empty ones
abbrev pub current : ℕ → World → UserAiSettings
current user_id w = get_or (find_settings user_id w.db) (empty_row user_id (w.env.uuid w.calls))

current_user : (user_id : ℕ) (w : World) → (current user_id w).user_id ≡ user_id
current_user user_id w = elim (Option-cases (find_settings user_id w.db)) [
  | inl missing ↦ rw missing refl
  | inr (row, there) ↦
      rw there (key-get_row (λ (r : UserAiSettings). r.user_id) user_id w.db.ai_settings row there)
]

module _ (s : Secrets) (sound : IsSound s) where
  -- what a key's column is to hold: nothing if it was cleared, the key that was given if it is not
  -- empty, and otherwise what it held
  abbrev pub Holds : Bool → Option String → Option String → Option String → Type 0
  Holds true given old new = new ≡ none
  Holds false none old new = new ≡ old
  Holds false (some key) old new =
      if is_empty key then new ≡ old else decrypt_key s new ≡ ok (some key)

  decrypt-encrypt :
      (n : ℕ) (key : String) → decrypt_key s (some (s.encrypt s.key n key)) ≡ ok (some key)
  unfolding decrypt_key
  decrypt-encrypt n key =
      rw (sound.full n key) (rw (sound.configured) (rw (sound.opens n key) refl))

  new_key_lem :
      (clear : Bool) (given old : Option String) (w : World)
      → (new : Option String) × ((new_key s clear given old w).0 ≡ ok new)
        × ((new_key s clear given old w).1.db ≡ w.db)
        × Holds clear given old new
  unfolding new_key
  new_key_lem true given old w = (none, refl, refl, refl)
  new_key_lem false none old w = (old, refl, refl, refl)
  new_key_lem false (some key) old w = elim (Bool-cases (is_empty key)) [
    | inl blank ↦ (old, rw blank refl, rw blank refl, rw blank refl)
    | inr full ↦ (
      some (s.encrypt s.key w.calls key),
      rw full (rw (sound.configured) refl),
      rw full (rw (sound.configured) refl),
      rw full (decrypt-encrypt w.calls key),
    )
  ]

  -- the row that an update stores
  IsUpdated : Update → (old row : UserAiSettings) → Type 0
  IsUpdated c old row =
      Holds c.clear_anthropic_key c.anthropic_api_key old.anthropic_api_key_encrypted
        row.anthropic_api_key_encrypted
      × Holds c.clear_openai_key c.openai_api_key old.openai_api_key_encrypted
          row.openai_api_key_encrypted
      × (row.github_token_encrypted ≡ old.github_token_encrypted)

  store_update_lem :
      (c : Update) (old : UserAiSettings) (w : World)
      → let (r, w') = store_update s c old w in
        (row : UserAiSettings) × (r ≡ ok tt)
        × ((j : ℕ)
            → find_settings j w'.db ≡ (if old.user_id == j then some row else find_settings j w.db))
        × IsUpdated c old row
  unfolding store_update IsUpdated save
  store_update_lem c old w =
      let (a, a_ok, a_db, a_is) =
        new_key_lem c.clear_anthropic_key c.anthropic_api_key old.anthropic_api_key_encrypted w in
      let w1 =
        (new_key s c.clear_anthropic_key c.anthropic_api_key old.anthropic_api_key_encrypted w).1 in
      let (o, o_ok, o_db, o_is) =
        new_key_lem c.clear_openai_key c.openai_api_key old.openai_api_key_encrypted w1 in
      let w2 = (new_key s c.clear_openai_key c.openai_api_key old.openai_api_key_encrypted w1).1 in
      let row = record old {
        anthropic_api_key_encrypted = a;
        openai_api_key_encrypted = o;
        preferred_claude_model = new_model c.preferred_claude_model old.preferred_claude_model;
        preferred_codex_model = new_model c.preferred_codex_model old.preferred_codex_model;
      } in
      (
        row,
        rw a_ok (rw o_ok refl),
        λ j. rw a_ok (
            rw o_ok (
              save_lem row w2 j
              ∙ ap (λ db. if old.user_id == j then some row else find_settings j db)
                  (o_db ∙ a_db))),
        (a_is, o_is, refl),
      )

  -- Updating the settings of a user stores, for each of the two provider keys, nothing if it is to be
  -- cleared, else a token that opens to the key if one is given that is not empty, else what was
  -- stored; the GitHub token is kept, and so are the settings of all other users. The status that is
  -- returned is that of the row that is stored. The encryption key is assumed to be configured.
  pub update_effect :
      (user_id : ℕ) (c : Update) (w : World)
      → let old = current user_id w in
        let (r, w') = update s user_id c w in
        (row : UserAiSettings) × (r ≡ ok (status_of (some row)))
        × ((j : ℕ)
            → find_settings j w'.db ≡ (if user_id == j then some row else find_settings j w.db))
        × Holds c.clear_anthropic_key c.anthropic_api_key old.anthropic_api_key_encrypted
            row.anthropic_api_key_encrypted
        × Holds c.clear_openai_key c.openai_api_key old.openai_api_key_encrypted
            row.openai_api_key_encrypted
        × (row.github_token_encrypted ≡ old.github_token_encrypted)
  unfolding update row_of get_status get_by_user_id IsUpdated
  update_effect user_id c w =
      let old = current user_id w in
      let (row, done, rows, is) = store_update_lem c old (record w { calls = suc w.calls }) in
      let named = current_user user_id w in
      (
        row,
        rw done (rw (rows user_id) (rw named (rw (==_self user_id) refl))),
        λ j. rw done (rows j ∙ rw named refl),
        is.0,
        is.1,
        is.2,
      )

  abbrev pub stripped : Option String → Option String
  stripped none = none
  stripped (some t) = if is_empty (strip t) then none else some (strip t)

  new_token_lem :
      (given : Option String) (w : World)
      → (new : Option String) × ((new_token s given w).0 ≡ ok new)
        × ((new_token s given w).1.db ≡ w.db)
        × (decrypt_key s new ≡ ok (stripped given))
  unfolding new_token decrypt_key
  new_token_lem none w = (none, refl, refl, refl)
  new_token_lem (some t) w = elim (Bool-cases (is_empty (strip t))) [
    | inl blank ↦ (none, rw blank refl, rw blank refl, rw blank refl)
    | inr full ↦ (
      some (s.encrypt s.key w.calls (strip t)),
      rw full (rw (sound.configured) refl),
      rw full (rw (sound.configured) refl),
      rw full (decrypt-encrypt w.calls (strip t)),
    )
  ]

  get_github_token_lem :
      (user_id : ℕ) (row : UserAiSettings) (w : World)
      → find_settings user_id w.db ≡ some row
      → get_github_token s user_id w ≡ decrypt_key s row.github_token_encrypted
  unfolding get_github_token get_by_user_id
  get_github_token_lem user_id row w found = rw (found, get_github_token) refl

  -- The GitHub token that is handed out is the one that was stored last, without the blanks around it;
  -- after a blank one or none was stored, it is none. The encryption key is assumed to be configured.
  pub get_github_token-set :
      (user_id : ℕ) (given : Option String) (w : World)
      → get_github_token s user_id (set_github_token s user_id given w).1 ≡ ok (stripped given)
  unfolding set_github_token row_of get_by_user_id save
  get_github_token-set user_id given w =
      let old = current user_id w in
      let w1 = record w { calls = suc w.calls } in
      let (new, made, kept, opens) = new_token_lem given w1 in
      let row = record old { github_token_encrypted = new } in
      let w2 = (new_token s given w1).1 in
      let stored : find_settings user_id (set_github_token s user_id given w).1.db ≡ some row =
        rw made (own_row row w2 user_id (current_user user_id w)) in
      get_github_token_lem user_id row (set_github_token s user_id given w).1 stored ∙ opens
