-- ===== src/Base/Text.antt =====
-- Python's text operations that the program uses, on native strings.
use Prim.Native.Nat.{ℕ, zero, suc, ◌<◌}
use Prim.Native.Char.{Char, code}
use Prim.Native.String
use Prim.Native.String.{String}
use mathlib.Core.Path.{◌≡◌, refl}
use native.Mathlib.Omega.{arith}
use text.Mathlib.TextLemmas.{cons-append, nil-append}
use mathlib.Core.Bool.{Bool, true, false, ◌||◌, ◌&&◌}
use mathlib.Core.List.{List, [], ◌∷◌}
use phodex.Base.Tests.{leb, ◌==◌, if◌then◌else◌}

-- `sep.join(parts)`; with no separator it stands for an f-string
pub join : String → List String → String
join sep [] = ""
join sep (s ∷ []) = s
join sep (s ∷ t ∷ rest) = String.◌++◌ s (String.◌++◌ sep (join sep (t ∷ rest)))

pub concat : List String → String
unfolding join
concat = join ""

-- the code points that `str.strip` removes
is_space : ℕ → Bool
is_space c =
    leb 9 c && leb c 13
    || leb 28 c && leb c 32
    || c == 133
    || c == 160
    || c == 5760
    || leb 8192 c && leb c 8202
    || c == 8232
    || c == 8233
    || c == 8239
    || c == 8287
    || c == 12288

abbrev pub is_empty : String → Bool
is_empty String.[] = true
is_empty (String.◌∷◌ c s) = false

pub lstrip : String → String
unfolding is_space
lstrip String.[] = String.[]
lstrip (String.◌∷◌ c s) = if is_space (code c) then lstrip s else String.◌∷◌ c s

cons_stripped : Char → String → Bool → String
cons_stripped c String.[] true = String.[]
cons_stripped c s _ = String.◌∷◌ c s

pub rstrip : String → String
unfolding is_space cons_stripped
rstrip String.[] = String.[]
rstrip (String.◌∷◌ c s) = cons_stripped c (rstrip s) (is_space (code c))

-- `s.strip()`
unfoldable pub strip : String → String
unfolding lstrip rstrip
strip s = rstrip (lstrip s)

-- `s[:n]`
pub take_text : ℕ → String → String
take_text n String.[] = String.[]
take_text zero (String.◌∷◌ c s) = String.[]
take_text (suc n) (String.◌∷◌ c s) = String.◌∷◌ c (take_text n s)

-- a join is not empty if its first part is not
pub is_empty-join :
    (sep s : String) (ss : List String) → is_empty s ≡ false → is_empty (join sep (s ∷ ss)) ≡ false
unfolding join
is_empty-join sep s [] h = h
is_empty-join sep String.[] (t ∷ ss) h = absurd (ground arith)
is_empty-join sep (String.◌∷◌ c s) (t ∷ ss) h = rw cons-append refl

pub is_empty-append : (s t : String) → is_empty t ≡ false → is_empty (String.◌++◌ s t) ≡ false
is_empty-append String.[] t h = rw nil-append h
is_empty-append (String.◌∷◌ c s) t h = rw cons-append refl

cons_stripped_full :
    (c : Char) (s : String) (b : Bool) → is_empty s ≡ false → cons_stripped c s b ≡ String.◌∷◌ c s
unfolding cons_stripped
cons_stripped_full c String.[] b h = absurd (cc)
cons_stripped_full c (String.◌∷◌ d s) true h = refl
cons_stripped_full c (String.◌∷◌ d s) false h = refl

-- a text whose end is not stripped is not stripped
pub rstrip-cons :
    (c : Char) (s : String)
    → is_empty s ≡ false
    → rstrip s ≡ s
    → rstrip (String.◌∷◌ c s) ≡ String.◌∷◌ c s
unfolding rstrip
rstrip-cons c s full same = rw same (cons_stripped_full c s _ full)

pub rstrip-append :
    (s t : String) → is_empty t ≡ false → rstrip t ≡ t → rstrip (String.◌++◌ s t) ≡ String.◌++◌ s t
rstrip-append String.[] t full same = rw nil-append same
rstrip-append (String.◌∷◌ c s) t full same =
    rw cons-append
      (rstrip-cons c (String.◌++◌ s t) (is_empty-append s t full) (rstrip-append s t full same))

-- a text that begins with a visible ASCII character is not stripped on the left
pub lstrip-cons :
    (c : Char) (s : String) → 32 < code c → code c < 128 → lstrip (String.◌∷◌ c s) ≡ String.◌∷◌ c s
unfolding lstrip
lstrip-cons c s above below = ground arith

pub rstrip_git : rstrip ".git" ≡ ".git"
unfolding rstrip
rstrip_git = refl
