-- ===== src/Base/Replace.antt =====
-- Python's `in` and `str.replace` on texts. Characters are compared by their code points.
use Prim.Native.Nat.{ℕ, zero, suc, ◌-◌}
use Prim.Native.Char.{Char, code}
use Prim.Native.String
use Prim.Native.String.{String}
use mathlib.Core.Path.{◌≡◌, refl, ◌∙◌}
use mathlib.Core.Logic.{◌≢◌, inl, inr}
use mathlib.Core.Bool.{Bool, true, false, ◌||◌, ◌&&◌}
use native.Mathlib.Omega.{arith}
use text.Mathlib.TextLemmas.{cons-append, nil-append}
use phodex.Base.Tests.{◌==◌, if◌then◌else◌, Bool-cases}
use phodex.Base.Text.{is_empty}

-- `s.startswith(prefix)`
abbrev pub starts_with : (s prefix : String) → Bool
starts_with s String.[] = true
starts_with String.[] (String.◌∷◌ c p) = false
starts_with (String.◌∷◌ d s) (String.◌∷◌ c p) = code d == code c && starts_with s p

-- `part in s`
abbrev pub contains : (s part : String) → Bool
contains String.[] part = is_empty part
contains (String.◌∷◌ c s) part = starts_with (String.◌∷◌ c s) part || contains s part

-- the number of characters
abbrev text_length : String → ℕ
text_length String.[] = 0
text_length (String.◌∷◌ c s) = suc (text_length s)

-- `s.replace(old, "***")` behind `skip` characters of an occurrence of `old`, which is not empty
unfoldable pub mask_from : ℕ → (old s : String) → String
mask_from k old String.[] = String.[]
mask_from (suc k) old (String.◌∷◌ c s) = mask_from k old s
mask_from zero old (String.◌∷◌ c s) =
    let hit = starts_with (String.◌∷◌ c s) old in
    let rest = mask_from (if hit then text_length old - 1 else 0) old s in
    if hit then String.◌++◌ "***" rest else String.◌∷◌ c rest

-- `s.replace(old, "***")`
unfoldable pub mask : (old s : String) → String
unfolding mask_from
mask = mask_from 0

-- `*` does not occur
abbrev pub IsStarless : String → Type 0
IsStarless String.[] = Unit
IsStarless (String.◌∷◌ c s) = (code c ≢ 42) × IsStarless s

stars : (t : String) → String.◌++◌ "***" t ≡ String.◌∷◌ "*" (String.◌∷◌ "*" (String.◌∷◌ "*" t))
stars t = rw cons-append (rw cons-append (rw cons-append (rw nil-append refl)))

-- a text without `*` that the result starts with is one that the source starts with
starts_with-mask :
    (old s p : String)
    → is_empty old ≡ false
    → IsStarless p
    → starts_with (mask_from 0 old s) p ≡ true
    → starts_with s p ≡ true
unfolding mask_from
starts_with-mask old s String.[] e starless h = refl
starts_with-mask old String.[] (String.◌∷◌ c p) e starless h = h
starts_with-mask old (String.◌∷◌ d s) (String.◌∷◌ c p) e starless h =
    elim (Bool-cases (starts_with (String.◌∷◌ d s) old)) [
      | inl hit ↦
          let m = text_length old - 1 in
          let h2 = rw hit at h in
          let h3 = rw (stars (mask_from m old s)) at h2 in absurd (ground (arith, starless.0))
      | inr miss ↦ let h2 = rw miss at h in ground (arith, starts_with-mask old s p e (starless.1))
    ]

contains-star :
    (t p : String)
    → IsStarless p
    → is_empty p ≡ false
    → contains (String.◌∷◌ "*" t) p ≡ contains t p
contains-star t String.[] starless full = absurd (cc)
contains-star t (String.◌∷◌ c p) starless full = ground (arith, starless.0)

contains-stars :
    (t p : String)
    → IsStarless p
    → is_empty p ≡ false
    → contains (String.◌++◌ "***" t) p ≡ contains t p
contains-stars t p starless full = rw (stars t) (
    contains-star (String.◌∷◌ "*" (String.◌∷◌ "*" t)) p starless full
    ∙ contains-star (String.◌∷◌ "*" t) p starless full
    ∙ contains-star t p starless full)

-- a prefix of what is left of the first character on is one of the source
mask-prefix :
    (old s p : String) (c : Char)
    → is_empty old ≡ false
    → IsStarless p
    → starts_with (String.◌∷◌ c s) old ≡ false
    → starts_with (String.◌∷◌ c s) p ≡ false
    → starts_with (String.◌∷◌ c (mask_from 0 old s)) p ≡ false
mask-prefix old s String.[] c e starless miss h = h
mask-prefix old s (String.◌∷◌ d p) c e starless miss h =
    ground (arith, starts_with-mask old s p e starless.1)

contains-mask :
    (k : ℕ) (old s p : String)
    → is_empty old ≡ false
    → IsStarless p
    → is_empty p ≡ false
    → contains s p ≡ false
    → contains (mask_from k old s) p ≡ false
unfolding mask_from
contains-mask k old String.[] p e starless full h = h
contains-mask (suc k) old (String.◌∷◌ c s) p e starless full h =
    contains-mask k old s p e starless full (ground arith)
contains-mask zero old (String.◌∷◌ c s) p e starless full h =
    elim (Bool-cases (starts_with (String.◌∷◌ c s) old)) [
      | inl hit ↦
          let m = text_length old - 1 in
          rw hit (
            rw (contains-stars (mask_from m old s) p starless full)
              (contains-mask m old s p e starless full (ground arith)))
      | inr miss ↦ rw miss (
          ground
            (arith, mask-prefix old s p c e starless miss, contains-mask 0 old s p e starless full))
    ]

mask_from-absent :
    (k : ℕ) (old s : String)
    → is_empty old ≡ false
    → IsStarless old
    → contains (mask_from k old s) old ≡ false
unfolding mask_from
mask_from-absent k old String.[] full starless = full
mask_from-absent (suc k) old (String.◌∷◌ c s) full starless = mask_from-absent k old s full starless
mask_from-absent zero old (String.◌∷◌ c s) full starless =
    elim (Bool-cases (starts_with (String.◌∷◌ c s) old)) [
      | inl hit ↦
          let m = text_length old - 1 in
          rw hit (
            rw (contains-stars (mask_from m old s) old starless full)
              (mask_from-absent m old s full starless))
      | inr miss ↦ rw miss (
          ground (
            arith,
            mask-prefix old s old c full starless miss miss,
            mask_from-absent 0 old s full starless,
          ))
    ]

module _ (old s : String) (full : is_empty old ≡ false) where
  -- what was masked does not occur
  pub mask-absent : IsStarless old → contains (mask old s) old ≡ false
  unfolding mask
  mask-absent = mask_from-absent 0 old s full

  -- masking brings no new text without `*` about
  pub contains-mask_none :
      (p : String)
      → IsStarless p
      → is_empty p ≡ false
      → contains s p ≡ false
      → contains (mask old s) p ≡ false
  unfolding mask
  contains-mask_none p starless nonempty = contains-mask 0 old s p full starless nonempty
