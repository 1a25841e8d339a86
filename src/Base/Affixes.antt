-- ===== src/Base/Affixes.antt =====
-- Python's operations on the two ends of a text: prefixes, suffixes, and what stands behind the last
-- slash. Characters are compared by their code points.
use Prim.Native.Char.{Char, code}
use Prim.Native.String
use Prim.Native.String.{String}
use mathlib.Core.Path.{◌≡◌, refl}
use mathlib.Core.Bool.{Bool, true}
use mathlib.Core.Option.{Option, none, some}
use native.Mathlib.Omega.{arith}
use text.Mathlib.Text.{◌==◌ as str_eq}
use text.Mathlib.TextLemmas.{cons-append, nil-append}
use phodex.Base.Tests.{◌==◌, if◌then◌else◌, get_or}

-- what follows a prefix
abbrev pub drop_prefix : (prefix s : String) → Option String
drop_prefix String.[] s = some s
drop_prefix (String.◌∷◌ c p) String.[] = none
drop_prefix (String.◌∷◌ c p) (String.◌∷◌ d s) = if code d == code c then drop_prefix p s else none

-- `s.removeprefix(prefix)`
abbrev pub remove_prefix : (prefix s : String) → String
remove_prefix prefix s = get_or (drop_prefix prefix s) s

-- `s.removesuffix(suffix)`
abbrev pub remove_suffix : (suffix s : String) → String
remove_suffix suffix String.[] = String.[]
remove_suffix suffix (String.◌∷◌ c s) =
    if str_eq (String.◌∷◌ c s) suffix then String.[] else String.◌∷◌ c (remove_suffix suffix s)

abbrev cons_slash : Char → String → Bool → String
cons_slash c String.[] true = String.[]
cons_slash c s _ = String.◌∷◌ c s

-- `s.rstrip("/")`
abbrev pub rstrip_slash : String → String
rstrip_slash String.[] = String.[]
rstrip_slash (String.◌∷◌ c s) = cons_slash c (rstrip_slash s) (code c == 47)

-- what follows the last slash, if there is one
abbrev after_slash : String → Option String
after_slash String.[] = none
after_slash (String.◌∷◌ c s) = elim (after_slash s) [
  | some rest ↦ some rest
  | none ↦ if code c == 47 then some s else none
]

-- `s.rsplit("/", 1)[-1]`
abbrev pub last_part : String → String
last_part s = get_or (after_slash s) s

-- a prefix that was put there is dropped again
pub drop_prefix-append : (p s : String) → drop_prefix p (String.◌++◌ p s) ≡ some s
drop_prefix-append String.[] s = rw nil-append refl
drop_prefix-append (String.◌∷◌ c p) s = rw cons-append (ground (arith, drop_prefix-append p s))
