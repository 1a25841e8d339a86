-- ===== src/Tests/Tokens.antt =====
-- A round trip from the issue of a token to its use, with libraries that are written out.
use Prim.Native.Char.{code}
use phodex.Base.{
  ℕ, suc, String, ◌≡◌, refl, ap, true, false, some, [], arith, ◌==◌, if◌then◌else◌, is_empty,
}
use phodex.World.{World, ok}
use phodex.Auth.{
  Crypto, token_of, check_sessions, add_session, create_access_token, issue_token,
  get_user_from_bearer,
}
use phodex.Auth.RoundTrip.{IsFaithful, issued_is_accepted}
use phodex.Tests.Samples.{world, ada}

-- a number as a text that is not empty, and back
strokes : ℕ → String
strokes ℕ.zero = "-"
strokes (suc n) = String.◌∷◌ "x" (strokes n)

count : String → ℕ
count String.[] = 0
count (String.◌∷◌ c s) = suc (count s)

less_one : ℕ → ℕ
less_one ℕ.zero = 0
less_one (suc n) = n

count-strokes : (n : ℕ) → count (strokes n) ≡ suc n
unfolding count strokes
count-strokes ℕ.zero = refl
count-strokes (suc n) = ap suc (count-strokes n)

-- two texts in one: each character of the first is marked
pack : String → String → String
pack String.[] jti = String.◌∷◌ "b" jti
pack (String.◌∷◌ c s) jti = String.◌∷◌ "a" (String.◌∷◌ c (pack s jti))

first_part : String → String
first_part String.[] = String.[]
first_part (String.◌∷◌ m String.[]) = String.[]
first_part (String.◌∷◌ m (String.◌∷◌ c s)) =
    if code m == 97 then String.◌∷◌ c (first_part s) else String.[]

second_part : String → String
second_part String.[] = String.[]
second_part (String.◌∷◌ m String.[]) = String.[]
second_part (String.◌∷◌ m (String.◌∷◌ c s)) = if code m == 97 then second_part s else String.◌∷◌ c s

first_part-pack : (s jti : String) → first_part (pack s jti) ≡ s
unfolding first_part pack
first_part-pack String.[] String.[] = refl
first_part-pack String.[] (String.◌∷◌ c jti) = refl
first_part-pack (String.◌∷◌ c s) jti = ap (λ r. String.◌∷◌ c r) (first_part-pack s jti)

second_part-pack : (s jti : String) → second_part (pack s jti) ≡ jti
unfolding second_part pack
second_part-pack String.[] String.[] = refl
second_part-pack String.[] (String.◌∷◌ c jti) = refl
second_part-pack (String.◌∷◌ c s) jti = second_part-pack s jti

abbrev crypto : Crypto
crypto = record {
  encode = λ sub jti exp. pack sub jti;
  decode =
      λ n token. some (record { sub = some (first_part token); jti = some (second_part token) });
  parse_uuid = λ s. some (less_one (count s));
  hash_password = λ n plain. plain;
  verify_password = λ plain hashed. true;
}

-- a server that nobody has signed in to
abbrev quiet_world : World
quiet_world = record world {
  db = record world.db { sessions = [] };
  env = record world.env { now = λ n. 100; uuid = λ n. n; uuid_str = strokes };
}

pack-text : (s jti : String) → is_empty (pack s jti) ≡ false
unfolding pack
pack-text String.[] jti = refl
pack-text (String.◌∷◌ c s) jti = refl

strokes-text : (n : ℕ) → is_empty (strokes n) ≡ false
unfolding strokes
strokes-text ℕ.zero = refl
strokes-text (suc n) = refl

parse-strokes : (n : ℕ) → some (less_one (count (strokes n))) ≡ some n
unfolding less_one
parse-strokes n = rw (count-strokes n) refl

crypto-IsFaithful : IsFaithful crypto quiet_world.env
crypto-IsFaithful = record {
  decode_encode =
      λ n sub jti exp unexpired. rw (first_part-pack sub jti) (rw (second_part-pack sub jti) refl);
  parse_text = λ id. parse-strokes id;
  token_text = λ sub jti exp. pack-text sub jti;
  uuid_text = strokes-text;
}

issued : (issue_token crypto 1 quiet_world).0 ≡ ok ("axa-bx-", 3700)
unfolding issue_token check_sessions add_session create_access_token pack strokes
issued = refl

sent : token_of "Bearer axa-bx-" ≡ "axa-bx-"
unfolding token_of
sent = refl

issued_is_accepted_example :
    (get_user_from_bearer crypto "Bearer axa-bx-" (issue_token crypto 1 quiet_world).1).0 ≡ ok ada
issued_is_accepted_example =
    issued_is_accepted crypto "Bearer axa-bx-" ada quiet_world crypto-IsFaithful (λ n. refl) refl
      ("axa-bx-", 3700) issued sent (omega arith)
