-- ===== src/Tests/Accounts.antt =====
-- Runs of the theorems on sessions, tokens, limits and devices.
use phodex.Base.{ℕ, ◌+◌, ◌≤◌, ◌<◌, String, ◌≡◌, refl, true, none, some, arith, ◌⊎◌, inl, inr}
use phodex.Models.{TaskStatus}
use phodex.World.{ok, err}
use phodex.Tasks.{unfinished, count_concurrent}
use phodex.Accounts.{LimitStatus, count_tasks, get_json, limits}
use phodex.Accounts.Limits.{limits-count_concurrent}
use phodex.Auth.{Crypto, token_of, issue_token, get_user_from_bearer, get_current_session}
use phodex.Auth.Tokens.{active, session_error, Refused, issue_token-IsWithin, refused}
use phodex.Tests.Samples.{world, tablet}

uncached : (get_json 1 world).0 ≡ ok none
unfolding get_json
uncached = refl

limits-count_concurrent_example :
    (l : LimitStatus) × ((limits 1 world).0 ≡ ok l)
    × (l.current_concurrent_tasks + count_tasks 1 (some TaskStatus.starting) world.db
        ≡ count_concurrent 1 unfinished world.db)
limits-count_concurrent_example = limits-count_concurrent 1 world uncached

abbrev crypto : Crypto
crypto = record {
  encode = λ sub jti exp. jti;
  decode = λ n token. some (record { sub = some "1"; jti = some token });
  parse_uuid = λ s. some 1;
  hash_password = λ n plain. plain;
  verify_password = λ plain hashed. true;
}

issue_token-IsWithin_example :
    let (r, w') = issue_token crypto 1 world in
    ((2 ≤ active 1 100 world.db) × (r ≡ err session_error) × (w'.db ≡ world.db))
    ⊎ ((t : String × ℕ) × (r ≡ ok t) × (active 1 100 world.db < 2) × (active 1 100 w'.db ≤ 2))
issue_token-IsWithin_example = issue_token-IsWithin crypto 1 world (omega arith)

tablet_token : token_of "Bearer tablet" ≡ "tablet"
unfolding token_of
tablet_token = refl

refused_example :
    Refused (get_user_from_bearer crypto "Bearer tablet" world) world
    × Refused (get_current_session crypto "Bearer tablet" world) world
refused_example =
    refused crypto "Bearer tablet" (record { sub = some "1"; jti = some "tablet" }) world
      (rw tablet_token refl) (inr (tablet, refl, inl refl))
