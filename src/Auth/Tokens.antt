-- ===== src/Auth/Tokens.antt =====
-- Which sessions are issued, and which tokens are accepted.
use phodex.Base.{
  ℕ, suc, ◌+◌, ◌*◌, ◌≤◌, ◌<◌, leb, String, ◌≡◌, refl, true, false, ◌||◌, Option, none, some, [],
  ◌∷◌, ◌++◌, arith, str_eq, is_some, is_empty, get_row, first_row, count_rows, count_rows-append,
  Option-cases, Bool-cases, inl, inr, ◌⊎◌,
}
use phodex.Models.{User, Session}
use phodex.World.{World, Db, Error, Result, ok, err, unauthorized, limit_exceeded}
use phodex.Accounts.{is_active}
use phodex.Auth.{
  Claims, Crypto, token_of, lacks, text_of, check_sessions, add_session, issue_token,
  create_access_token, read_token, usable_session, get_user_from_bearer, get_current_session,
}

abbrev pub active : ℕ → ℕ → Db → ℕ
active user_id now db = count_rows (is_active user_id now) db.sessions

abbrev pub session_error : Error
session_error = limit_exceeded "Active session limit reached" "SESSION_LIMIT_REACHED"

-- the session of a `jti`
abbrev pub by_jti : String → Db → Option Session
by_jti jti db = first_row (λ s. str_eq s.jwt_jti jti) db.sessions

module _ (c : Crypto) (user_id : ℕ) (w : World) where
  -- the session that `_issue_token` adds
  abbrev pub new_session : Session
  new_session = record {
    id = w.env.uuid (suc (suc (suc w.calls)));
    user_id = user_id;
    jwt_jti = w.env.uuid_str (w.env.uuid w.calls);
    expires_at = w.env.now (suc w.calls) + 60 * w.settings.access_token_ttl_minutes;
    created_at = w.env.now (suc (suc w.calls));
    revoked_at = none;
  }

  -- the token that is returned, with its time
  abbrev pub new_token : String × ℕ
  new_token = (
    c.encode (w.env.uuid_str user_id) new_session.jwt_jti new_session.expires_at,
    new_session.expires_at,
  )

  pub add_session_lem : add_session c user_id w ≡ (
    ok new_token,
    record w {
      db = record w.db { sessions = w.db.sessions ++ new_session ∷ [] };
      calls = suc (suc (suc (suc w.calls)));
    },
  )
  unfolding add_session create_access_token
  add_session_lem = refl

module _ (c : Crypto) (user_id : ℕ) (w : World)
    (limited : 0 < w.settings.max_active_sessions_per_user) where
  asked : World
  asked = record w { calls = suc w.calls }

  check_full :
      leb w.settings.max_active_sessions_per_user (active user_id (w.env.now w.calls) w.db) ≡ true
      → check_sessions user_id w ≡ (err session_error, asked)
  unfolding check_sessions asked
  check_full full = ground arith

  check_room :
      leb w.settings.max_active_sessions_per_user (active user_id (w.env.now w.calls) w.db) ≡ false
      → check_sessions user_id w ≡ (ok tt, asked)
  unfolding check_sessions asked
  check_room room = ground arith

  within_after :
      leb w.settings.max_active_sessions_per_user (active user_id (w.env.now w.calls) w.db) ≡ false
      → count_rows
          (is_active user_id (w.env.now w.calls))
          (w.db.sessions ++ new_session c user_id asked ∷ [])
        ≤ w.settings.max_active_sessions_per_user
  within_after room =
      rw
        (count_rows-append (is_active user_id (w.env.now w.calls)) w.db.sessions
          (new_session c user_id asked ∷ []))
        (ground arith)

  -- With a limit on the sessions, a token is refused exactly when the user has as many active sessions
  -- as the limit or more, and then no table changes; a token that is issued leaves the user with at
  -- most the limit.
  pub issue_token-IsWithin :
      let (r, w') = issue_token c user_id w in
      ((w.settings.max_active_sessions_per_user ≤ active user_id (w.env.now w.calls) w.db)
        × (r ≡ err session_error)
        × (w'.db ≡ w.db))
      ⊎ ((t : String × ℕ) × (r ≡ ok t)
          × (active user_id (w.env.now w.calls) w.db < w.settings.max_active_sessions_per_user)
          × (active user_id (w.env.now w.calls) w'.db ≤ w.settings.max_active_sessions_per_user))
  unfolding issue_token asked
  issue_token-IsWithin =
      elim (Bool-cases
        (leb w.settings.max_active_sessions_per_user (active user_id (w.env.now w.calls) w.db))) [
          | inl full ↦ inl (ground arith, rw (check_full full) refl, rw (check_full full) refl)
          | inr room ↦ inr (
            new_token c user_id asked,
            rw (check_room room) (rw (add_session_lem c user_id) refl),
            ground arith,
            rw (check_room room) (rw (add_session_lem c user_id) (within_after room)),
          )
        ]

-- A bearer token that reads as claims with the user and the `jti` of a session that is not revoked and
-- has not expired is accepted, as the user of the claims; and so is the session.
pub accepted :
    (c : Crypto) (bearer sub jti : String) (user : User) (s : Session) (w : World)
    → is_empty (token_of bearer) ≡ false
    → c.decode w.calls (token_of bearer) ≡ some (record { sub = some sub; jti = some jti })
    → is_empty sub ≡ false
    → is_empty jti ≡ false
    → c.parse_uuid sub ≡ some user.id
    → by_jti jti w.db ≡ some s
    → s.revoked_at ≡ none
    → w.env.now w.calls ≤ s.expires_at
    → get_row (λ u. u.id) user.id w.db.users ≡ some user
    → ((get_user_from_bearer c bearer w).0 ≡ ok user) × ((get_current_session c bearer w).0 ≡ ok s)
unfolding get_user_from_bearer get_current_session read_token usable_session
accepted c bearer sub jti user s w full decodes has_sub has_jti parses found unrevoked fresh known =
    (ground arith, ground arith)

-- the session of the `jti` may not be used
abbrev pub IsGone : String → World → Type 0
IsGone jti w =
    (by_jti jti w.db ≡ none)
    ⊎ ((s : Session) × (by_jti jti w.db ≡ some s)
        × ((is_some s.revoked_at ≡ true) ⊎ (s.expires_at < w.env.now w.calls)))

abbrev pub Refused : {A : Type 0} → Result A × World → World → Type 0
Refused r w = ((why : String) × (r.0 ≡ err (unauthorized why))) × (r.1.db ≡ w.db)

usable-Refused : (jti : String) (w : World) → IsGone jti w → Refused (usable_session jti w) w
unfolding usable_session
usable-Refused jti w (inl none_there) =
    (("Session not found or revoked", ground arith), ground arith)
usable-Refused jti w (inr (s, found, inl revoked)) =
    (("Session not found or revoked", ground arith), ground arith)
usable-Refused jti w (inr (s, found, inr expired)) = elim (Bool-cases (is_some s.revoked_at)) [
  | inl revoked ↦ (("Session not found or revoked", ground arith), ground arith)
  | inr unrevoked ↦ (("Session expired", ground arith), ground arith)
]

module _ (c : Crypto) (bearer : String) (claims : Claims) (w : World)
    (decodes : c.decode w.calls (token_of bearer) ≡ some claims)
    (gone : IsGone (text_of claims.jti) w) where
  read_token_lem : is_empty (token_of bearer) ≡ false → read_token c bearer w ≡ (ok claims, w)
  unfolding read_token
  read_token_lem full = ground arith

  read_token_empty :
      is_empty (token_of bearer) ≡ true
      → read_token c bearer w ≡ (err (unauthorized "Missing token"), w)
  unfolding read_token
  read_token_empty missing = ground arith

  session-Refused : Refused (get_current_session c bearer w) w
  unfolding get_current_session
  session-Refused = elim (Bool-cases (is_empty (token_of bearer))) [
    | inl missing ↦ rw (read_token_empty missing) (("Missing token", refl), refl)
    | inr full ↦ elim (Bool-cases (lacks claims.jti)) [
      | inl lacking ↦
          rw (read_token_lem full) (rw lacking (("Token missing required claims", refl), refl))
      | inr there ↦ rw (read_token_lem full) (rw there (usable-Refused (text_of claims.jti) w gone))
    ]
  ]

  parsed-Refused :
      is_empty (token_of bearer) ≡ false
      → (lacks claims.sub || lacks claims.jti) ≡ false
      → Refused (get_user_from_bearer c bearer w) w
  unfolding get_user_from_bearer
  parsed-Refused full there = elim (Option-cases (c.parse_uuid (text_of claims.sub))) [
    | inl bad ↦
        rw (read_token_lem full) (rw there (rw bad (("Token subject is invalid", refl), refl)))
    | inr (id, parses) ↦
        let ((why, e), same) = usable-Refused (text_of claims.jti) w gone in
        rw (read_token_lem full) (rw there (rw parses ((why, rw e refl), rw e same)))
  ]

  -- Whatever else a token says, one with the `jti` of a revoked session, of an expired one or of none
  -- is refused as unauthorized, for the user and for the session, and no table changes.
  pub refused :
      Refused (get_user_from_bearer c bearer w) w × Refused (get_current_session c bearer w) w
  unfolding get_user_from_bearer
  refused = (
    elim (Bool-cases (is_empty (token_of bearer))) [
      | inl missing ↦ rw (read_token_empty missing) (("Missing token", refl), refl)
      | inr full ↦ elim (Bool-cases (lacks claims.sub || lacks claims.jti)) [
        | inl lacking ↦
            rw (read_token_lem full) (rw lacking (("Token missing required claims", refl), refl))
        | inr there ↦ parsed-Refused full there
      ]
    ],
    session-Refused,
  )
