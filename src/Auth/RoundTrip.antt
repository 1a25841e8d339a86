-- ===== src/Auth/RoundTrip.antt =====
-- A token that is issued is accepted.
use text.Mathlib.TextPositions.{eq_refl}
use phodex.Base.{
  ℕ, suc, ◌≤◌, String, ◌≡◌, refl, sym, ap, ◌∙◌, Bool, true, false, none, some, List, [], ◌∷◌, ◌++◌,
  arith, str_eq, is_empty, get_row, first_row, inl, inr, ◌⊎◌,
}
use phodex.Models.{User, Session}
use phodex.World.{World, Env, Result, ok, err}
use phodex.Auth.{Crypto, token_of, check_sessions, issue_token, get_user_from_bearer}
use phodex.Auth.Tokens.{by_jti, new_session, new_token, add_session_lem, accepted, session_error}

-- what the libraries promise: reading a token that was signed gives its claims until it expires, and
-- parsing the text of a UUID gives the UUID; neither text is empty
pub record IsFaithful (c : Crypto) (env : Env) : Type 0 where
  pub decode_encode :
      (n : ℕ) (sub jti : String) (exp : ℕ)
      → env.now n ≤ exp
      → c.decode n (c.encode sub jti exp) ≡ some (record { sub = some sub; jti = some jti })
  pub parse_text : (id : ℕ) → c.parse_uuid (env.uuid_str id) ≡ some id
  pub token_text : (sub jti : String) (exp : ℕ) → is_empty (c.encode sub jti exp) ≡ false
  pub uuid_text : (id : ℕ) → is_empty (env.uuid_str id) ≡ false

first_row-append {ℓ} :
    {A : Type ℓ} (p : A → Bool) (xs : List A) (x : A)
    → first_row p xs ≡ none
    → p x ≡ true
    → first_row p (xs ++ x ∷ []) ≡ some x
first_row-append p [] x free holds = rw holds refl
first_row-append p (y ∷ xs) x free holds = ground (arith, first_row-append p xs x)

abbrev value_or : {A : Type 0} → A → Result A → A
value_or a (ok b) = b
value_or a (err e) = a

check_cases :
    (user_id : ℕ) (w : World)
    → (check_sessions user_id w ≡ (ok tt, w))
      ⊎ ((check_sessions user_id w ≡ (ok tt, record w { calls = suc w.calls }))
          ⊎ (check_sessions user_id w ≡ (err session_error, record w { calls = suc w.calls })))
unfolding check_sessions
check_cases user_id w = ground arith

module _ (c : Crypto) (bearer : String) (user : User) (w : World) (faithful : IsFaithful c w.env)
    (fresh : (n : ℕ) → by_jti (w.env.uuid_str (w.env.uuid n)) w.db ≡ none)
    (known : get_row (λ (u : User). u.id) user.id w.db.users ≡ some user) where
  -- the world before and after the session is added
  abbrev asked : ℕ → World
  asked n = record w { calls = n }

  abbrev added : ℕ → World
  added n = record w {
    db = record w.db { sessions = w.db.sessions ++ new_session c user.id (asked n) ∷ [] };
    calls = suc (suc (suc (suc n)));
  }

  found_after :
      (n : ℕ)
      → by_jti (w.env.uuid_str (w.env.uuid n)) (added n).db ≡ some (new_session c user.id (asked n))
  found_after n =
      first_row-append (λ (s : Session). str_eq s.jwt_jti (w.env.uuid_str (w.env.uuid n)))
        w.db.sessions (new_session c user.id (asked n)) (fresh n)
        (eq_refl (w.env.uuid_str (w.env.uuid n)))

  added_is_accepted :
      (n : ℕ)
      → token_of bearer ≡ (new_token c user.id (asked n)).0
      → w.env.now (suc (suc (suc (suc n)))) ≤ (new_token c user.id (asked n)).1
      → (get_user_from_bearer c bearer (added n)).0 ≡ ok user
  added_is_accepted n same unexpired =
      let sub = w.env.uuid_str user.id in
      let jti = w.env.uuid_str (w.env.uuid n) in
      (accepted c bearer sub jti user (new_session c user.id (asked n)) (added n)
        (rw same (faithful.token_text sub jti _))
        (rw same (faithful.decode_encode _ sub jti _ unexpired)) (faithful.uuid_text user.id)
        (faithful.uuid_text (w.env.uuid n)) (faithful.parse_text user.id) (found_after n) refl
        unexpired known).0

  after_check :
      (n : ℕ) (t : String × ℕ)
      → check_sessions user.id w ≡ (ok tt, asked n)
      → let (r, w') = issue_token c user.id w in
        r ≡ ok t
        → token_of bearer ≡ t.0
        → w.env.now w'.calls ≤ t.1
        → (get_user_from_bearer c bearer w').0 ≡ ok user
  unfolding issue_token
  after_check n t passed = rw passed (
      rw (add_session_lem c user.id) (λ done same unexpired.
        let e = ap (value_or t) done in
        added_is_accepted n (same ∙ sym (ap (λ (p : String × ℕ). p.0) e))
          (let later = ap (λ (p : String × ℕ). p.1) e in omega arith)))

  -- A token that was issued to a known user, sent back before it expires, is accepted as that user's, if
  -- the libraries keep their promises and no session has the UUID of a new one.
  pub issued_is_accepted :
      (t : String × ℕ)
      → let (r, w') = issue_token c user.id w in
        r ≡ ok t
        → token_of bearer ≡ t.0
        → w.env.now w'.calls ≤ t.1
        → (get_user_from_bearer c bearer w').0 ≡ ok user
  unfolding issue_token
  issued_is_accepted t = elim (check_cases user.id w) [
    | inl passed ↦ after_check w.calls t passed
    | inr (inl passed) ↦ after_check (suc w.calls) t passed
    | inr (inr full) ↦ rw full (λ done same unexpired. absurd (ground arith))
  ]
