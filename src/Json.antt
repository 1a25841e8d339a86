-- ===== src/Json.antt =====
-- The values of a Python `dict` that holds JSON: event payloads (`payload_json`), metadata, and what
-- a runtime prints on a line. A float is known by whether it is zero and by its text.
use phodex.Base.{
  ℕ, String, Bool, true, false, not, Option, none, some, str_eq, is_empty, if◌then◌else◌,
}

-- an int: `pos n` is n, and `negsuc n` is -(n + 1)
pub data ℤ : Type 0 where
  pos : ℕ → ℤ
  negsuc : ℕ → ℤ

mutual
  pub data Json : Type 0 where
    null : Json
    bool : Bool → Json
    int : ℤ → Json
    float : Bool → String → Json
    str : String → Json
    arr : Items → Json
    obj : Fields → Json

  pub data Items : Type 0 where
    nil : Items
    cons : Json → Items → Items

  pub data Fields : Type 0 where
    end : Fields
    field : String → Json → Fields → Fields

-- `d.get(key)`
abbrev pub get_field : String → Fields → Option Json
get_field key end = none
get_field key (field k v fs) = if str_eq k key then some v else get_field key fs

-- `d[key] = v`
abbrev pub set_field : String → Json → Fields → Fields
set_field key v end = field key v end
set_field key v (field k w fs) =
    if str_eq k key then field k v fs else field k w (set_field key v fs)

abbrev pub is_zero : ℤ → Bool
is_zero (ℤ.pos ℕ.zero) = true
is_zero (ℤ.pos (ℕ.suc n)) = false
is_zero (ℤ.negsuc n) = false

-- `bool(v)`
unfoldable pub truthy : Json → Bool
truthy null = false
truthy (bool b) = b
truthy (int n) = not (is_zero n)
truthy (float nonzero s) = nonzero
truthy (str s) = not (is_empty s)
truthy (arr nil) = false
truthy (arr (cons v vs)) = true
truthy (obj end) = false
truthy (obj (field k v fs)) = true

-- `None` is the JSON null
abbrev pub str_or_null : Option String → Json
str_or_null none = null
str_or_null (some s) = str s
