-- ===== src/Auth.antt =====
-- backend/app/services/auth_service.py with backend/app/core/security.py: accounts, tokens and the
-- sessions behind them. Signing and reading tokens, hashing passwords and parsing UUIDs is done by
-- libraries, which `Crypto` stands for.
pub mod Tokens
pub mod RoundTrip
use Prim.Native.Char.{code}
use Prim.Native.String
use phodex.Base.{
  ℕ, suc, ◌+◌, ◌*◌, ltb, leb, String, Bool, true, false, ◌&&◌, ◌||◌, not, Option, none, some, List,
  [], ◌∷◌, ◌++◌, ◌==◌, str_eq, if◌then◌else◌, is_none, is_some, is_empty, strip, get_row, set_row,
  first_row, count_rows,
}
use phodex.Models.{User, Session}
use phodex.World.{
  World, Db, Exec, Result, ok, err, unauthorized, conflict, not_found, limit_exceeded, pure, raise,
  gets, or_raise, raise_if, query, commit, when, utcnow, uuid4, ◌>>=◌, ◌>>◌,
}
use phodex.Accounts.{is_active}

-- the claims of a token that the service reads
pub record Claims : Type 0 where
  pub sub : Option String
  pub jti : Option String

-- `jwt.encode`, `jwt.decode` at the n-th question (it tests `exp` against the clock), `UUID(text)`,
-- the password context: a hash is salted, so that it depends on the question
pub record Crypto : Type 0 where
  pub encode : (sub jti : String) (exp : ℕ) → String
  pub decode : ℕ → String → Option Claims
  pub parse_uuid : String → Option ℕ
  pub hash_password : ℕ → String → String
  pub verify_password : (plain hashed : String) → Bool

-- `s.removeprefix(prefix)`, with what `s` is whole
abbrev drop_prefix : (whole s prefix : String) → String
drop_prefix whole s String.[] = s
drop_prefix whole String.[] (String.◌∷◌ c p) = whole
drop_prefix whole (String.◌∷◌ d s) (String.◌∷◌ c p) =
    if code d == code c then drop_prefix whole s p else whole

-- `bearer_token.removeprefix("Bearer ").strip()`
unfoldable pub token_of : String → String
unfolding strip
token_of bearer = strip (drop_prefix bearer bearer "Bearer ")

-- an absent or empty claim
abbrev pub lacks : Option String → Bool
lacks none = true
lacks (some s) = is_empty s

abbrev pub text_of : Option String → String
text_of none = ""
text_of (some s) = s

-- a database session that is left by an exception is rolled back
abbrev pub transaction : {A : Type 0} → Exec A → Exec A
transaction m w = elim (m w).0 [
  | ok a ↦ (ok a, (m w).1)
  | err e ↦ (err e, record (m w).1 { db = w.db })
]

-- the guard of AuthService._issue_token
unfoldable pub check_sessions : ℕ → Exec (Unit {0})
check_sessions user_id = do
  max_sessions ← gets (λ w. w.settings.max_active_sessions_per_user)
  when (ltb 0 max_sessions) (do
    now ← utcnow
    active ← query (λ db. count_rows (is_active user_id now) db.sessions)
    raise_if (leb max_sessions active)
        (limit_exceeded "Active session limit reached" "SESSION_LIMIT_REACHED"))

-- `session.scalar(select(User).where(User.email == email))`
abbrev pub by_email : String → Db → Option User
by_email email db = first_row (λ u. str_eq u.email email) db.users

unfoldable pub add_user :
    (google_sub : Option String) (email name : String) (avatar_url password_hash : Option String)
    → Exec User
add_user google_sub email name avatar_url password_hash = do
  id ← uuid4
  let user : User = record {
    id = id;
    google_sub = google_sub;
    email = email;
    name = name;
    avatar_url = avatar_url;
    password_hash = password_hash;
  }
  commit (λ db. record db { users = db.users ++ user ∷ [] })
  pure user

-- the session of a `jti` that may be used
unfoldable pub usable_session : String → Exec Session
usable_session jti = do
  found ← query (λ db. first_row (λ s. str_eq s.jwt_jti jti) db.sessions)
  session ← or_raise (unauthorized "Session not found or revoked") found
  raise_if (is_some session.revoked_at) (unauthorized "Session not found or revoked")
  now ← utcnow
  raise_if (ltb session.expires_at now) (unauthorized "Session expired")
  pure session

-- `GoogleProfile` of services/google_auth_service.py
pub record GoogleProfile : Type 0 where
  pub google_sub : String
  pub email : String
  pub name : String
  pub avatar_url : Option String

-- `session.scalar(select(User).where(User.google_sub == google_sub))`
abbrev pub by_google_sub : String → Db → Option User
by_google_sub google_sub db =
    first_row (λ u. elim u.google_sub [ none ↦ false | some s ↦ str_eq s google_sub ]) db.users

abbrev with_profile : GoogleProfile → User → User
with_profile profile u = record u {
  email = profile.email;
  name = profile.name;
  avatar_url = profile.avatar_url;
}

-- the branches of AuthService.login_with_google_profile: a new user, or the one that is there
abbrev google_user : GoogleProfile → Option User → Exec User
google_user profile none =
    add_user (some profile.google_sub) profile.email profile.name profile.avatar_url none
google_user profile (some user) = do
  commit (λ db. record db { users = set_row (λ u. u.id) user.id (with_profile profile) db.users })
  pure (with_profile profile user)

abbrev with_hash : String → User → User
with_hash hash u = record u { password_hash = some hash }

module _ (c : Crypto) where
  -- JWTManager.create_access_token: times are in seconds
  unfoldable pub create_access_token : ℕ → String → Exec (String × ℕ)
  create_access_token user_id jti = do
    now ← utcnow
    ttl ← gets (λ w. w.settings.access_token_ttl_minutes)
    sub ← gets (λ w. w.env.uuid_str user_id)
    pure (c.encode sub jti (now + 60 * ttl), now + 60 * ttl)

  -- the rest of AuthService._issue_token
  unfoldable pub add_session : ℕ → Exec (String × ℕ)
  unfolding create_access_token
  add_session user_id = do
    id ← uuid4
    jti ← gets (λ w. w.env.uuid_str id)
    token ← create_access_token user_id jti
    created ← utcnow
    row_id ← uuid4
    let session : Session = record {
      id = row_id;
      user_id = user_id;
      jwt_jti = jti;
      expires_at = token.1;
      created_at = created;
      revoked_at = none;
    }
    commit (λ db. record db { sessions = db.sessions ++ session ∷ [] })
    pure token

  -- AuthService._issue_token
  unfoldable pub issue_token : ℕ → Exec (String × ℕ)
  issue_token user_id = do check_sessions user_id; add_session user_id

  -- `hash_password`
  abbrev hashed : String → Exec String
  hashed password w = (ok (c.hash_password w.calls password), record w { calls = suc w.calls })

  -- the branches of AuthService.ensure_password_account
  abbrev ensure_account : (email password name : String) → Option User → Exec User
  ensure_account email password name none = do
    hash ← hashed password
    add_user none email name none (some hash)
  ensure_account email password name (some user) =
      if lacks user.password_hash
      then (do
        hash ← hashed password
        commit (λ db. record db { users = set_row (λ u. u.id) user.id (with_hash hash) db.users })
        pure (with_hash hash user))
      else pure user

  -- AuthService.register_with_password
  unfoldable pub register_with_password :
      (email password name : String) → Exec ((String × ℕ) × User)
  unfolding add_user
  register_with_password email password name = transaction (do
    existing ← query (by_email email)
    raise_if (is_some existing) (conflict "An account with this email already exists")
    hash ← hashed password
    user ← add_user none email name none (some hash)
    token ← issue_token user.id
    pure (token, user))

  -- the user has a hash that verifies the password
  abbrev pub accepts : String → User → Bool
  accepts password user =
      not (lacks user.password_hash) && c.verify_password password (text_of user.password_hash)

  -- AuthService.login_with_password
  unfoldable pub login_with_password : (email password : String) → Exec ((String × ℕ) × User)
  login_with_password email password = transaction (do
    found ← query (by_email email)
    user ← or_raise (unauthorized "Invalid email or password") found
    raise_if (not (accepts password user)) (unauthorized "Invalid email or password")
    token ← issue_token user.id
    pure (token, user))

  -- AuthService.ensure_password_account
  unfoldable pub ensure_password_account : (email password name : String) → Exec User
  unfolding add_user
  ensure_password_account email password name = do
    found ← query (by_email email)
    ensure_account email password name found

  -- AuthService.login_with_google_profile
  unfoldable pub login_with_google_profile : GoogleProfile → Exec ((String × ℕ) × User)
  unfolding add_user
  login_with_google_profile profile = transaction (do
    found ← query (by_google_sub profile.google_sub)
    user ← google_user profile found
    token ← issue_token user.id
    pure (token, user))

  -- AuthService.login_as_demo
  unfoldable pub login_as_demo : Exec ((String × ℕ) × User)
  login_as_demo = do
    email ← gets (λ w. w.settings.demo_account_email)
    password ← gets (λ w. w.settings.demo_account_password)
    raise_if (lacks email || lacks password)
        (not_found "Demo account is not enabled on this server")
    login_with_password (text_of email) (text_of password)

  -- the claims of a bearer token, or the exception
  unfoldable pub read_token : String → Exec Claims
  read_token bearer = do
    raise_if (is_empty (token_of bearer)) (unauthorized "Missing token")
    n ← gets (λ w. w.calls)
    or_raise (unauthorized "Invalid access token") (c.decode n (token_of bearer))

  -- AuthService.get_user_from_bearer
  unfoldable pub get_user_from_bearer : String → Exec User
  get_user_from_bearer bearer = do
    claims ← read_token bearer
    raise_if (lacks claims.sub || lacks claims.jti) (unauthorized "Token missing required claims")
    user_id ← or_raise (unauthorized "Token subject is invalid") (c.parse_uuid (text_of claims.sub))
    session ← usable_session (text_of claims.jti)
    found ← query (λ db. get_row (λ u. u.id) user_id db.users)
    or_raise (unauthorized "User not found") found

  -- AuthService.get_current_session
  unfoldable pub get_current_session : String → Exec Session
  get_current_session bearer = do
    claims ← read_token bearer
    raise_if (lacks claims.jti) (unauthorized "Token missing required claims")
    usable_session (text_of claims.jti)
