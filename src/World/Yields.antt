-- ===== src/World/Yields.antt =====
-- What an action returns, if it does not raise.
use phodex.Base.{inl, inr}
use phodex.World.State.{World}
use phodex.World.Actions.{Exec, Result, Result-cases, ok, err, ◌>>=◌}

abbrev pub Post : {A : Type 0} → (A → Type 0) → Result A → Type 0
Post P (ok a) = P a
Post P (err e) = Unit

abbrev pub Yields : {A : Type 0} → (A → Type 0) → Exec A → Type 0
Yields P m = (w : World) → Post P (m w).0

pub Post-map :
    {A : Type 0} (P Q : A → Type 0) → ((a : A) → P a → Q a) → (r : Result A) → Post P r → Post Q r
Post-map P Q f (ok a) h = f a h
Post-map P Q f (err e) h = tt

module _ {A B : Type 0} (P : B → Type 0) (m : Exec A) (f : A → Exec B) where
  pub bind-Yields_of :
      (Q : A → Type 0) → Yields Q m → ((a : A) → Q a → Yields P (f a)) → Yields P (m >>= f)
  bind-Yields_of Q h k w = elim (Result-cases (m w).0) [
    | inl (a, done) ↦ rw done (k a (rw done at (h w)) (m w).1)
    | inr (e, raised) ↦ rw raised tt
  ]

  pub bind-Yields : ((a : A) → Yields P (f a)) → Yields P (m >>= f)
  bind-Yields k w = elim (Result-cases (m w).0) [
    | inl (a, done) ↦ rw done (k a (m w).1)
    | inr (e, raised) ↦ rw raised tt
  ]
