-- ===== src/Accounts/Revocation.antt =====
-- What revoking sessions does.
use mathlib.Core.Option
use phodex.Base.{
  ap, ℕ, ◌≡◌, refl, Option, some, List, [], ◌∷◌, arith, ◌==◌, if◌then◌else◌, is_none, count_rows,
  update_rows, get_row, get_row-set_row, Option-cases, Bool-cases, inl, inr, ◌⊎◌,
}
use phodex.Models.{Session}
use phodex.World.{World, Db, not_found, ok, err}
use phodex.Accounts.{is_other, revoked, revoke_others, revoke_session}

abbrev pub find_session : ℕ → Db → Option Session
find_session session_id db = get_row (λ s. s.id) session_id db.sessions

module _ (user_id keep now : ℕ) where
  none_left :
      (ss : List Session)
      → count_rows (is_other user_id keep) (update_rows (is_other user_id keep) (revoked now) ss)
        ≡ 0
  none_left [] = refl
  none_left (s ∷ ss) = ground (arith, none_left ss)

  row_after :
      (id : ℕ) (ss : List Session)
      → get_row (λ (s : Session). s.id) id (update_rows (is_other user_id keep) (revoked now) ss)
        ≡ Option.map
            (λ s. if is_other user_id keep s then revoked now s else s)
            (get_row (λ (s : Session). s.id) id ss)
  row_after id [] = refl
  row_after id (s ∷ ss) = ground (arith, row_after id ss)

-- Revoking the other sessions of a user leaves none of them unrevoked and returns how many it revoked:
-- doing it again revokes nothing. The session that is kept, sessions of others and sessions that
-- were revoked before are as they were.
revoke_others_lem :
    (user_id keep : ℕ) (w : World)
    → let (r, w') = revoke_others user_id keep w in
      (r ≡ ok (count_rows (is_other user_id keep) w.db.sessions))
      × ((revoke_others user_id keep w').0 ≡ ok 0)
      × ((id : ℕ) (s : Session)
          → find_session id w.db ≡ some s
          → find_session id w'.db
            ≡ some (if is_other user_id keep s then revoked (w.env.now w.calls) s else s))
unfolding revoke_others
revoke_others_lem user_id keep w = (
  refl,
  ap ok (none_left user_id keep (w.env.now w.calls) w.db.sessions),
  λ id s found. rw (row_after user_id keep (w.env.now w.calls)) (rw found),
)

-- A user revokes a session of their own, once: the row that is found has a time of revocation, which
-- is the first one. Asked for a missing session or one of somebody else, the call raises the same
-- error and changes nothing.
pub revoke_session_lem :
    (user_id id : ℕ) (w : World)
    → let (r, w') = revoke_session user_id id w in
      (((s : Session) × (find_session id w.db ≡ some s)
          × (s.user_id ≡ user_id)
          × (r ≡ ok tt)
          × (find_session id w'.db
              ≡ some (if is_none s.revoked_at then revoked (w.env.now w.calls) s else s)))
        ⊎ ((r ≡ err (not_found "Session not found")) × (w' ≡ w)))
unfolding revoke_session
revoke_session_lem user_id id w = elim (Option-cases (find_session id w.db)) [
  | inl missing ↦ inr (ground arith, ground arith)
  | inr (s, found) ↦ elim (Bool-cases (s.user_id == user_id)) [
    | inr foreign ↦ inr (ground arith, ground arith)
    | inl own ↦ inl (
      s,
      found,
      ground arith,
      ground arith,
      ground (
        arith,
        get_row-set_row (λ (x : Session). x.id) id id (revoked (w.env.now w.calls)) w.db.sessions
            (λ x. refl),
      ),
    )
  ]
]
