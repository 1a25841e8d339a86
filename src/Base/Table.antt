-- ===== src/Base/Table.antt =====
-- A table of rows as a list in insertion order: what the queries and writes of the repositories
-- (backend/app/repositories) ask of the database. A row is named by a numeric key.
use Prim.Native.Nat.{ℕ, suc, ◌+◌, ◌-◌, ◌≤◌}
use mathlib.Core.Path.{◌≡◌, refl}
use mathlib.Core.Bool.{Bool, true, false, ◌&&◌}
use mathlib.Core.Option
use mathlib.Core.Option.{Option, none, some}
use mathlib.Core.List.{List, [], ◌∷◌, ◌++◌}
use native.Mathlib.Omega.{arith}
use phodex.Base.Tests.{leb, ◌==◌, if◌then◌else◌}

module _ {ℓ} {A : Type ℓ} where
  abbrev pub length : List A → ℕ
  length [] = 0
  length (x ∷ xs) = suc (length xs)

  -- `select(A).where(p)`, every row
  abbrev pub where_rows : (A → Bool) → List A → List A
  where_rows p [] = []
  where_rows p (x ∷ xs) = if p x then x ∷ where_rows p xs else where_rows p xs

  -- `session.scalar(select(A).where(p))`, the first row
  abbrev pub first_row : (A → Bool) → List A → Option A
  first_row p [] = none
  first_row p (x ∷ xs) = if p x then some x else first_row p xs

  -- `select(func.count(A.id)).where(p)`
  abbrev pub count_rows : (A → Bool) → List A → ℕ
  count_rows p [] = 0
  count_rows p (x ∷ xs) = if p x then suc (count_rows p xs) else count_rows p xs

  -- an assignment to the fields of every row that the test accepts
  abbrev pub update_rows : (A → Bool) → (A → A) → List A → List A
  update_rows p f [] = []
  update_rows p f (x ∷ xs) = (if p x then f x else x) ∷ update_rows p f xs

  abbrev pub All {κ} : (A → Type κ) → List A → Type κ
  All P [] = Unit
  All P (x ∷ xs) = P x × All P xs

module _ {ℓ} {A : Type ℓ} (key : A → ℕ) where
  -- `session.get(A, k)`
  abbrev pub get_row : ℕ → List A → Option A
  get_row k = first_row (λ x. key x == k)

  -- assignments to the fields of the row that `session.get(A, k)` returned
  abbrev pub set_row : ℕ → (A → A) → List A → List A
  set_row k f [] = []
  set_row k f (x ∷ xs) = if key x == k then f x ∷ xs else x ∷ set_row k f xs

  pub key-get_row : (k : ℕ) (xs : List A) (x : A) → get_row k xs ≡ some x → key x ≡ k
  key-get_row k [] x h = absurd (ground arith)
  key-get_row k (y ∷ xs) x h = ground (arith, key-get_row k xs x)

  pub get_row-set_row :
      (j k : ℕ) (f : A → A) (xs : List A)
      → ((x : A) → key (f x) ≡ key x)
      → get_row j (set_row k f xs) ≡ (if k == j then Option.map f (get_row j xs) else get_row j xs)
  get_row-set_row j k f [] same = ground arith
  get_row-set_row j k f (x ∷ xs) same = ground (arith, same x, get_row-set_row j k f xs same)

  pub get_row-replace :
      (j : ℕ) (x old : A) (xs : List A)
      → get_row (key x) xs ≡ some old
      → get_row j (set_row (key x) (λ _. x) xs) ≡ (if key x == j then some x else get_row j xs)
  get_row-replace j x old [] there = absurd (cc)
  get_row-replace j x old (y ∷ xs) there = ground (arith, get_row-replace j x old xs)

  pub get_row-append_new :
      (j : ℕ) (xs : List A) (x : A)
      → get_row (key x) xs ≡ none
      → get_row j (xs ++ x ∷ []) ≡ (if key x == j then some x else get_row j xs)
  get_row-append_new j [] x fresh = refl
  get_row-append_new j (y ∷ xs) x fresh = ground (arith, get_row-append_new j xs x)

module _ {ℓ} {A : Type ℓ} (key : A → ℕ) where
  abbrev insert_by : A → List A → List A
  insert_by a [] = a ∷ []
  insert_by a (x ∷ xs) = if leb (key a) (key x) then a ∷ x ∷ xs else x ∷ insert_by a xs

  -- `order_by(key.asc())`; rows with equal keys keep the order of the table
  abbrev pub order_by : List A → List A
  order_by [] = []
  order_by (x ∷ xs) = insert_by x (order_by xs)

  -- rows in ascending order of their keys, from `n` on
  abbrev pub IsAscending : ℕ → List A → Type 0
  IsAscending n [] = Unit
  IsAscending n (x ∷ xs) = (n ≤ key x) × IsAscending (key x) xs

  pub IsAscending-le : (m n : ℕ) (xs : List A) → n ≤ m → IsAscending m xs → IsAscending n xs
  IsAscending-le m n [] le h = tt
  IsAscending-le m n (x ∷ xs) le h = (omega arith, h.1)

  pub IsAscending-if :
      (b : Bool) (n : ℕ) (x : A) (xs : List A)
      → (b ≡ true → (n ≤ key x) × IsAscending (key x) xs)
      → IsAscending n xs
      → IsAscending n (if b then x ∷ xs else xs)
  IsAscending-if true n x xs kept rest = kept refl
  IsAscending-if false n x xs kept rest = rest

  insert_by-IsAscending : (x : A) (xs : List A) → IsAscending (key x) xs → insert_by x xs ≡ x ∷ xs
  insert_by-IsAscending x [] h = refl
  insert_by-IsAscending x (y ∷ xs) h = ground arith

  pub order_by-IsAscending : (n : ℕ) (xs : List A) → IsAscending n xs → order_by xs ≡ xs
  order_by-IsAscending n [] h = refl
  order_by-IsAscending n (x ∷ xs) h =
      rw (order_by-IsAscending (key x) xs h.1) (insert_by-IsAscending x xs h.1)

module _ {ℓ} {A : Type ℓ} where
  abbrev pub drop : ℕ → List A → List A
  drop ℕ.zero xs = xs
  drop (suc n) [] = []
  drop (suc n) (x ∷ xs) = drop n xs

  pub drop-nil : (n : ℕ) → drop n [] ≡ []
  drop-nil ℕ.zero = refl
  drop-nil (suc n) = refl

  pub drop-length_append : (xs ys : List A) → drop (length xs) (xs ++ ys) ≡ ys
  drop-length_append [] ys = refl
  drop-length_append (x ∷ xs) ys = drop-length_append xs ys

  pub drop-cons :
      (k : ℕ) (x : A) (xs : List A) → drop k (x ∷ xs) ≡ (if k == 0 then x ∷ xs else drop (k - 1) xs)
  drop-cons ℕ.zero x xs = refl
  drop-cons (suc k) x xs = ground arith

  pub where_rows-append :
      (p : A → Bool) (xs ys : List A) → where_rows p (xs ++ ys) ≡ where_rows p xs ++ where_rows p ys
  where_rows-append p [] ys = refl
  where_rows-append p (x ∷ xs) ys = ground (arith, where_rows-append p xs ys)

  pub count_rows-append :
      (p : A → Bool) (xs ys : List A) → count_rows p (xs ++ ys) ≡ count_rows p xs + count_rows p ys
  count_rows-append p [] ys = omega arith
  count_rows-append p (x ∷ xs) ys = ground (arith, count_rows-append p xs ys)

  pub All-append {κ} : (P : A → Type κ) (xs ys : List A) → All P xs → All P ys → All P (xs ++ ys)
  All-append P [] ys hx hy = hy
  All-append P (x ∷ xs) ys hx hy = (hx.0, All-append P xs ys hx.1 hy)

All-set_head {ℓ κ} :
    {A : Type ℓ} (key : A → ℕ) (P : A → Type κ) (k : ℕ) (f : A → A) (x : A) (xs : List A) (b : Bool)
    → P x × All P xs
    → ((t : A) → (if b then some x else get_row key k xs) ≡ some t → P t → P (f t))
    → (((t : A) → get_row key k xs ≡ some t → P t → P (f t)) → All P (set_row key k f xs))
    → All P (if b then f x ∷ xs else x ∷ set_row key k f xs)
All-set_head key P k f x xs true h step rest = (step x refl h.0, h.1)
All-set_head key P k f x xs false h step rest = (h.0, rest step)

-- an invariant of the rows survives a write that establishes it for the row that is written
pub All-set_row {ℓ κ} :
    {A : Type ℓ} (key : A → ℕ) (P : A → Type κ) (k : ℕ) (f : A → A) (xs : List A)
    → All P xs
    → ((t : A) → get_row key k xs ≡ some t → P t → P (f t))
    → All P (set_row key k f xs)
All-set_row key P k f [] h step = tt
All-set_row key P k f (x ∷ xs) h step =
    All-set_head key P k f x xs (key x == k) h step (All-set_row key P k f xs h.1)

module _ {ℓ} {A : Type ℓ} where
  abbrev pub keep_if : (A → Bool) → Option A → Option A
  keep_if p none = none
  keep_if p (some x) = if p x then some x else none

module _ {ℓ} {A : Type ℓ} (key : A → ℕ) where
  -- no two rows have the same key: what a primary key guarantees
  abbrev pub IsKeyed : List A → Type ℓ
  IsKeyed [] = Unit
  IsKeyed (x ∷ xs) = (get_row key (key x) xs ≡ none) × IsKeyed xs

  no_row :
      (p : A → Bool) (k : ℕ) (xs : List A)
      → get_row key k xs ≡ none
      → first_row (λ x. key x == k && p x) xs ≡ none
  no_row p k [] h = refl
  no_row p k (x ∷ xs) h = ground (arith, no_row p k xs)

  -- a query by the primary key and a test
  pub first_row-IsKeyed :
      (p : A → Bool) (k : ℕ) (xs : List A)
      → IsKeyed xs
      → first_row (λ x. key x == k && p x) xs ≡ keep_if p (get_row key k xs)
  first_row-IsKeyed p k [] h = refl
  first_row-IsKeyed p k (x ∷ xs) h = ground (arith, no_row p k xs, first_row-IsKeyed p k xs h.1)

  IsKeyed-if :
      (b : Bool) (f : A → A) (x : A) (xs ys : List A)
      → key (f x) ≡ key x
      → IsKeyed (x ∷ xs)
      → get_row key (key x) ys ≡ none
      → IsKeyed ys
      → IsKeyed (if b then f x ∷ xs else x ∷ ys)
  IsKeyed-if true f x xs ys same h none_left rest = (rw same h.0, h.1)
  IsKeyed-if false f x xs ys same h none_left rest = (none_left, rest)

  pub set_row-IsKeyed :
      (k : ℕ) (f : A → A) (xs : List A)
      → ((x : A) → key (f x) ≡ key x)
      → IsKeyed xs
      → IsKeyed (set_row key k f xs)
  set_row-IsKeyed k f [] same h = tt
  set_row-IsKeyed k f (x ∷ xs) same h =
      IsKeyed-if (key x == k) f x xs (set_row key k f xs) (same x) h
        (ground (arith, h.0, get_row-set_row key (key x) k f xs same))
        (set_row-IsKeyed k f xs same h.1)
