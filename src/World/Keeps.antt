-- ===== src/World/Keeps.antt =====
-- A property of the tables that an action keeps, whatever its outcome.
use phodex.Base.{◌≡◌, refl, ◌∙◌, Bool, true, false, if◌then◌else◌, inl, inr}
use phodex.World.State.{World}
use phodex.World.Actions.{Exec, Result, Result-cases, when, attempt, ◌>>=◌}

module _ (R : World → World → Type 0) where
  abbrev pub Keeps : {A : Type 0} → Exec A → Type 0
  Keeps m = (w : World) → R w (m w).1

  module _ (R-refl : (w : World) → R w w) (R-trans : (u v w : World) → R u v → R v w → R u w) where
    pub bind-Keeps :
        {A B : Type 0} (m : Exec A) (f : A → Exec B)
        → Keeps m
        → ((a : A) → Keeps (f a))
        → Keeps (m >>= f)
    bind-Keeps m f h k w = elim (Result-cases (m w).0) [
      | inl (a, done) ↦ rw done (R-trans w (m w).1 _ (h w) (k a (m w).1))
      | inr (e, raised) ↦ rw raised (h w)
    ]

    pub attempt-Keeps :
        {A B : Type 0} (m : Exec A) (f : Result A → Exec B)
        → Keeps m
        → ((r : Result A) → Keeps (f r))
        → Keeps (attempt m f)
    attempt-Keeps m f h k w = R-trans w (m w).1 _ (h w) (k (m w).0 (m w).1)

    pub when-Keeps : (b : Bool) (m : Exec (Unit {0})) → Keeps m → Keeps (when b m)
    when-Keeps true m h w = h w
    when-Keeps false m h w = R-refl w

    pub if-Keeps :
        {A : Type 0} (b : Bool) (m k : Exec A) → Keeps m → Keeps k → Keeps (if b then m else k)
    if-Keeps true m k h h' = h
    if-Keeps false m k h h' = h'

-- no table changes
abbrev pub SameDb : World → World → Type 0
SameDb w w' = w'.db ≡ w.db

pub SameDb-refl : (w : World) → SameDb w w
SameDb-refl w = refl

pub SameDb-trans : (u v w : World) → SameDb u v → SameDb v w → SameDb u w
SameDb-trans u v w p q = q ∙ p
