-- ===== src/World/Actions.antt =====
-- Actions: a coroutine run up to its end, which changes the world and returns or raises. What was
-- committed before an exception stays, so the world comes back beside the error. The exceptions are
-- those of services/exceptions.py and the ones that the workers catch.
use phodex.Base.{
  ◌≡◌, refl, ◌⊎◌, inl, inr, ℕ, String, Bool, true, false, Option, none, some, suc, ◌++◌, ◌∷◌, [],
}
use phodex.World.State.{World, Db, Effect}

pub data Error : Type 0 where
  not_found unauthorized forbidden conflict : String → Error
  limit_exceeded : (message code : String) → Error
  -- any other `Exception`, by its text
  runtime_error : String → Error
  -- `FileNotFoundError`: the program that is to be started is not there
  file_not_found : String → Error
  -- GitCommandError of services/git_service.py
  git_command_error : String → Error
  -- GitCommandFailedError of services/cloud_repo_service.py
  git_command_failed : String → Error
  -- `asyncio.CancelledError`, which `except Exception` does not catch
  cancelled_error : Error

-- `str(exc)`
abbrev pub error_text : Error → String
error_text (not_found s) = s
error_text (unauthorized s) = s
error_text (forbidden s) = s
error_text (conflict s) = s
error_text (limit_exceeded s code) = s
error_text (runtime_error s) = s
error_text (file_not_found s) = s
error_text (git_command_error s) = s
error_text (git_command_failed s) = s
error_text cancelled_error = ""

pub data Result (A : Type 0) : Type 0 where
  ok : A → Result A
  err : Error → Result A

pub Result-cases :
    {A : Type 0} (r : Result A) → ((a : A) × (r ≡ ok a)) ⊎ ((e : Error) × (r ≡ err e))
Result-cases (ok a) = inl (a, refl)
Result-cases (err e) = inr (e, refl)

abbrev pub Exec : Type 0 → Type 0
Exec A = World → Result A × World

module _ {A : Type 0} where
  abbrev pub pure : A → Exec A
  pure a w = (ok a, w)

  abbrev pub raise : Error → Exec A
  raise e w = (err e, w)

  abbrev pub gets : (World → A) → Exec A
  gets f w = (ok (f w), w)

  -- `if x is None: raise e`
  abbrev pub or_raise : Error → Option A → Exec A
  or_raise e none = raise e
  or_raise e (some a) = pure a

module _ {A B : Type 0} where
  abbrev pub and_then : Result A → (A → Exec B) → Exec B
  and_then (ok a) f = f a
  and_then (err e) f = raise e

  infixl 5 ◌>>=◌ ◌>>◌
  abbrev pub ◌>>=◌ : Exec A → (A → Exec B) → Exec B
  ◌>>=◌ m f w = and_then (m w).0 f (m w).1

  abbrev pub ◌>>◌ : Exec A → Exec B → Exec B
  m >> k = m >>= λ _. k

-- `try: m`, whose result or exception goes to what follows
abbrev pub attempt : {A B : Type 0} → Exec A → (Result A → Exec B) → Exec B
attempt m f w = f (m w).0 (m w).1

abbrev pub raise_if : Bool → Error → Exec (Unit {0})
raise_if true e = raise e
raise_if false e = pure tt

-- `if test: body`
abbrev pub when : Bool → Exec (Unit {0}) → Exec (Unit {0})
when true body = body
when false body = pure tt

abbrev pub modify : (World → World) → Exec (Unit {0})
modify f w = (ok tt, f w)

-- a write that is committed
abbrev pub commit : (Db → Db) → Exec (Unit {0})
commit f w = (ok tt, record w { db = f w.db })

abbrev pub query : {A : Type 0} → (Db → A) → Exec A
query f w = (ok (f w.db), w)

abbrev pub emit : Effect → Exec (Unit {0})
emit e w = (ok tt, record w { effects = w.effects ++ e ∷ [] })

-- `utcnow()`, `uuid4()`
abbrev pub utcnow : Exec ℕ
utcnow w = (ok (w.env.now w.calls), record w { calls = suc w.calls })

abbrev pub uuid4 : Exec ℕ
uuid4 w = (ok (w.env.uuid w.calls), record w { calls = suc w.calls })
