-- ===== src/Base/Counts.antt =====
-- How a write changes the number of rows that a test accepts.
use Prim.Native.Nat.{ℕ, ◌≤◌}
use mathlib.Core.Path.{◌≡◌, refl}
use mathlib.Core.Bool.{Bool, true}
use mathlib.Core.Option.{none}
use mathlib.Core.List.{List, [], ◌∷◌, ◌++◌}
use native.Mathlib.Omega.{arith}
use phodex.Base.Table.{count_rows, first_row, set_row, count_rows-append}

module _ {ℓ} {A : Type ℓ} (p : A → Bool) where
  pub count_rows-set_row :
      (key : A → ℕ) (k : ℕ) (f : A → A) (xs : List A)
      → ((x : A) → p (f x) ≡ p x)
      → count_rows p (set_row key k f xs) ≡ count_rows p xs
  count_rows-set_row key k f [] same = refl
  count_rows-set_row key k f (x ∷ xs) same =
      ground (arith, same x, count_rows-set_row key k f xs same)

  pub count_rows-none : (xs : List A) → first_row p xs ≡ none → count_rows p xs ≡ 0
  count_rows-none [] h = refl
  count_rows-none (x ∷ xs) h = ground (arith, count_rows-none xs)

  -- a row that is added keeps the number within 1, if there was none that it could double
  pub count_rows_append_le :
      (xs : List A) (x : A)
      → count_rows p xs ≤ 1
      → (p x ≡ true → count_rows p xs ≡ 0)
      → count_rows p (xs ++ x ∷ []) ≤ 1
  count_rows_append_le xs x few alone = rw (count_rows-append p xs (x ∷ [])) (ground arith)
