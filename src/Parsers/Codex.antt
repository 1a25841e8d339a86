-- ===== src/Parsers/Codex.antt =====
-- backend/workers/codex/output_parser.py. A message is looked for in nested dicts: the recursion is on
-- fuel, and `depth payload` is enough.
use phodex.Base.{
  ℕ, suc, ◌≤◌, String, ◌≡◌, refl, ap, ◌||◌, Option, none, some, List, [], ◌∷◌, arith, str_eq,
  is_empty, join, if◌then◌else◌, Option-cases, Bool-cases, inl, inr,
}
use phodex.Json.{Json, Fields, Items, str, obj, arr, nil, cons, end, field, get_field}
use phodex.Parsers.{is_text, is_blank, non_blank, as_dict}

-- `for key in keys: ...` that returns the first text that is not blank
abbrev pub first_text : List String → Fields → Option String
first_text [] payload = none
first_text (key ∷ keys) payload = elim (non_blank (get_field key payload)) [
  | some s ↦ some s
  | none ↦ first_text keys payload
]

-- extract_final_summary
unfoldable pub extract_final_summary : Fields → Option String
extract_final_summary = first_text ("final_summary" ∷ "summary" ∷ [])

abbrev content_keys : List String
content_keys = "text" ∷ "output_text" ∷ "content" ∷ []

abbrev put : Option String → List String → List String
put none rest = rest
put (some s) rest = if is_empty s then rest else s ∷ rest

abbrev joined : List String → Option String
joined [] = none
joined (s ∷ ss) = some (join "\n" (s ∷ ss))

abbrev mutual
  -- extract_content_text
  pub extract_content_text : Json → Option String
  extract_content_text (str s) = if is_blank s then none else some s
  extract_content_text (obj fs) = first_text content_keys fs
  extract_content_text (arr vs) = joined (content_chunks vs)
  extract_content_text _ = none

  -- the texts of the items of a list
  content_chunks : Items → List String
  content_chunks nil = []
  content_chunks (cons v vs) = put (extract_content_text v) (content_chunks vs)

-- the first of two results that is a text and not empty
abbrev or_text : Option String → Option String → Option String
or_text none rest = rest
or_text (some s) rest = if is_empty s then rest else some s

-- the message of a payload with the role of the assistant
abbrev role_text : Fields → Option String
role_text payload =
    if is_text "assistant" (get_field "role" payload)
    then elim (get_field "content" payload) [ none ↦ none | some v ↦ extract_content_text v ]
    else none

-- the message of an assistant or agent message. A `type` that is a list or a dict is taken for another
-- type here; Python's set test raises TypeError for it.
abbrev typed_text : Fields → Option String
typed_text payload =
    if is_text "assistant_message" (get_field "type" payload)
      || is_text "agent_message" (get_field "type" payload)
    then first_text ("message" ∷ "text" ∷ []) payload
    else none

abbrev message_keys : List String
message_keys = "assistant_message" ∷ "assistant" ∷ "final_answer" ∷ "output_text" ∷ []

abbrev nested_keys : List String
nested_keys = "message" ∷ "msg" ∷ "item" ∷ "delta" ∷ "event" ∷ []

-- `for key in keys: ...` over the nested dicts
abbrev first_nested : (Fields → Option String) → List String → Fields → Option String
first_nested f [] payload = none
first_nested f (key ∷ keys) payload = elim (as_dict (get_field key payload)) [
  | some nested ↦ or_text (f nested) (first_nested f keys payload)
  | none ↦ first_nested f keys payload
]

-- what a payload holds itself, before its nested dicts
abbrev own_text : Fields → Option String
own_text payload = elim (first_text message_keys payload) [
  | some s ↦ some s
  | none ↦ or_text (role_text payload) (typed_text payload)
]

-- a return in the search, or what follows it
abbrev first_of : Option String → Option String → Option String
first_of none rest = rest
first_of (some s) rest = some s

-- extract_assistant_message, on fuel
abbrev pub extract_within : ℕ → Fields → Option String
extract_within ℕ.zero payload = none
extract_within (suc n) payload =
    let nested = first_nested (extract_within n) nested_keys payload in
    first_of (own_text payload) nested

abbrev max : ℕ → ℕ → ℕ
max ℕ.zero n = n
max (suc m) ℕ.zero = suc m
max (suc m) (suc n) = suc (max m n)

abbrev mutual
  -- how deep the dicts are nested
  pub depth : Fields → ℕ
  depth end = 1
  depth (field k v fs) = max (suc (value_depth v)) (depth fs)

  value_depth : Json → ℕ
  value_depth (obj fs) = depth fs
  value_depth _ = 0

-- extract_assistant_message
unfoldable pub extract_assistant_message : Fields → Option String
extract_assistant_message payload = extract_within (depth payload) payload

max_le : (m n : ℕ) → (m ≤ max m n) × (n ≤ max m n)
max_le ℕ.zero n = (omega arith, omega arith)
max_le (suc m) ℕ.zero = (omega arith, omega arith)
max_le (suc m) (suc n) = let (a, b) = max_le m n in (omega arith, omega arith)

depth_positive : (fs : Fields) → 1 ≤ depth fs
depth_positive end = omega arith
depth_positive (field k v fs) = ground (arith, max_le (suc (value_depth v)) (depth fs))

value-nested :
    (v : Json) (nested : Fields) → as_dict (some v) ≡ some nested → value_depth v ≡ depth nested
value-nested (obj fs) nested h = ground arith
value-nested Json.null nested h = absurd (ground arith)
value-nested (Json.bool b) nested h = absurd (ground arith)
value-nested (Json.int n) nested h = absurd (ground arith)
value-nested (Json.float b t) nested h = absurd (ground arith)
value-nested (str t) nested h = absurd (ground arith)
value-nested (arr vs) nested h = absurd (ground arith)

-- a dict that is found is less deep than the one it is found in
depth-nested :
    (key : String) (fs nested : Fields)
    → as_dict (get_field key fs) ≡ some nested
    → suc (depth nested) ≤ depth fs
depth-nested key end nested h = absurd (ground arith)
depth-nested key (field k v fs) nested h =
    let (a, b) = max_le (suc (value_depth v)) (depth fs) in
    elim (Bool-cases (str_eq k key)) [
      | inl same ↦ let e = value-nested v nested (ground arith) in omega arith
      | inr other ↦ let e = depth-nested key fs nested (ground arith) in omega arith
    ]

first_nested_same :
    (f g : Fields → Option String) (keys : List String) (payload : Fields)
    → ((key : String) (nested : Fields)
        → as_dict (get_field key payload) ≡ some nested
        → f nested ≡ g nested)
    → first_nested f keys payload ≡ first_nested g keys payload
first_nested_same f g [] payload same = refl
first_nested_same f g (key ∷ keys) payload same =
    elim (Option-cases (as_dict (get_field key payload))) [
      | inl none_there ↦ ground (arith, first_nested_same f g keys payload same)
      | inr (nested, there) ↦
          ground (arith, same key nested there, first_nested_same f g keys payload same)
    ]

-- More fuel than the depth of a payload makes no difference: the search, which has no bound in the
-- source, ends by then.
extract_within_enough :
    (m n : ℕ) (payload : Fields)
    → depth payload ≤ m
    → depth payload ≤ n
    → extract_within m payload ≡ extract_within n payload
extract_within_enough ℕ.zero n payload hm hn =
    let p = depth_positive payload in absurd (omega arith)
extract_within_enough (suc m) ℕ.zero payload hm hn =
    let p = depth_positive payload in absurd (omega arith)
extract_within_enough (suc m) (suc n) payload hm hn =
    let same =
      first_nested_same (extract_within m) (extract_within n) nested_keys payload
        (λ key nested there.
          let d = depth-nested key payload nested there in
          extract_within_enough m n nested (omega arith) (omega arith)) in
    ap (first_of (own_text payload)) same
