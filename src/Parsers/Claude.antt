-- ===== src/Parsers/Claude.antt =====
-- backend/workers/claude/output_parser.py. `str(value)` of a value that is not a text is Python's.
use phodex.Base.{
  String, ◌≡◌, refl, Bool, false, ◌&&◌, Option, none, some, List, [], ◌∷◌, arith, is_empty, strip,
  join, concat, if◌then◌else◌, All, Bool-cases, Option-cases, is_empty-join, inl, inr,
}
use phodex.Json.{Json, Fields, Items, str, obj, nil, cons, get_field, truthy}
use phodex.Parsers.{is_text, is_blank, non_blank, as_dict, as_list}

-- the list `payload["message"]["content"]` of an assistant event
unfoldable pub content_of : Fields → Option Items
content_of payload =
    if is_text "assistant" (get_field "type" payload)
    then elim (as_dict (get_field "message" payload)) [
      | none ↦ none
      | some message ↦ as_list (get_field "content" message)
    ]
    else none

-- the text of a block of type text
abbrev pub text_of_block : Json → Option String
text_of_block (obj block) =
    if is_text "text" (get_field "type" block) then non_blank (get_field "text" block) else none
text_of_block _ = none

abbrev pub put : Option String → List String → List String
put none rest = rest
put (some s) rest = strip s ∷ rest

-- the comprehension `chunks`
abbrev pub chunks : Items → List String
chunks nil = []
chunks (cons v vs) = put (text_of_block v) (chunks vs)

abbrev pub joined : List String → Option String
joined [] = none
joined (s ∷ ss) = some (join "\n" (s ∷ ss))

-- extract_assistant_text
unfoldable pub extract_assistant_text : Fields → Option String
unfolding content_of
extract_assistant_text payload = elim (content_of payload) [
  | none ↦ none
  | some content ↦ joined (chunks content)
]

abbrev is_true : Option Json → Bool
is_true none = false
is_true (some v) = truthy v

-- `a or b` of two results of `get`
abbrev or_value : Option Json → Option Json → Option Json
or_value a b = if is_true a then a else b

module _ (python_str : Json → String) where
  -- `str(v)`
  abbrev shown : Json → String
  shown (str s) = s
  shown v = python_str v

  abbrev name_of : Fields → String
  name_of block = elim (get_field "name" block) [ none ↦ "tool" | some v ↦ shown v ]

  abbrev pub detail_of : Fields → Option Json
  detail_of block = elim (as_dict (get_field "input" block)) [
    | none ↦ none
    | some input ↦
        or_value (or_value (get_field "file_path" input) (get_field "path" input))
          (get_field "command" input)
  ]

  abbrev with_detail : String → Option Json → String
  with_detail name none = name
  with_detail name (some v) = if truthy v then concat (name ∷ ": " ∷ shown v ∷ []) else name

  -- the line for a block, if it is the use of a tool
  abbrev pub summary_of_block : Json → Option String
  summary_of_block (obj block) =
      if is_text "tool_use" (get_field "type" block)
      then some (with_detail (name_of block) (detail_of block))
      else none
  summary_of_block _ = none

  abbrev add_line : Option String → List String → List String
  add_line none rest = rest
  add_line (some s) rest = s ∷ rest

  abbrev pub lines : Items → List String
  lines nil = []
  lines (cons v vs) = add_line (summary_of_block v) (lines vs)

  -- extract_tool_use_summaries
  unfoldable pub extract_tool_use_summaries : Fields → List String
  unfolding content_of
  extract_tool_use_summaries payload = elim (content_of payload) [
    | none ↦ []
    | some content ↦ lines content
  ]

unfoldable pub is_system_init : Fields → Bool
is_system_init payload =
    is_text "system" (get_field "type" payload) && is_text "init" (get_field "subtype" payload)

unfoldable pub is_result_event : Fields → Bool
is_result_event payload = is_text "result" (get_field "type" payload)

unfoldable pub is_error_result : Fields → Bool
unfolding truthy
is_error_result payload = is_true (get_field "is_error" payload)

abbrev stripped : Option String → Option String
stripped none = none
stripped (some s) = some (strip s)

unfoldable pub extract_result_summary : Fields → Option String
extract_result_summary payload = stripped (non_blank (get_field "result" payload))

unfoldable pub extract_result_subtype : Fields → Option String
extract_result_subtype payload = stripped (non_blank (get_field "subtype" payload))

-- no chunk is blank
chunk_kept :
    (o : Option Json) (rest : List String)
    → All (λ s. is_empty s ≡ false) rest
    → All (λ s. is_empty s ≡ false) (put (non_blank o) rest)
chunk_kept none rest h = h
chunk_kept (some (str s)) rest h = elim (Bool-cases (is_blank s)) [
  | inl blank ↦ rw blank h
  | inr full ↦ rw full (full, h)
]
chunk_kept (some v) rest h = h

block_kept :
    (v : Json) (rest : List String)
    → All (λ s. is_empty s ≡ false) rest
    → All (λ s. is_empty s ≡ false) (put (text_of_block v) rest)
block_kept (obj block) rest h = elim (Bool-cases (is_text "text" (get_field "type" block))) [
  | inl of_text ↦ rw of_text (chunk_kept (get_field "text" block) rest h)
  | inr other ↦ rw other h
]
block_kept v rest h = h

chunks-All : (vs : Items) → All (λ s. is_empty s ≡ false) (chunks vs)
chunks-All nil = tt
chunks-All (cons v vs) = block_kept v (chunks vs) (chunks-All vs)

joined-text :
    (ss : List String) (s : String)
    → All (λ s. is_empty s ≡ false) ss
    → joined ss ≡ some s
    → is_empty s ≡ false
joined-text [] s h e = absurd (ground arith)
joined-text (t ∷ ts) s h e = ground (arith, is_empty-join "\n" t ts h.0)

content_other :
    (payload : Fields)
    → is_text "assistant" (get_field "type" payload) ≡ false
    → content_of payload ≡ none
unfolding content_of
content_other payload other = rw other refl

text_other : (payload : Fields) → content_of payload ≡ none → extract_assistant_text payload ≡ none
unfolding extract_assistant_text
text_other payload none_there = ground arith

lines_other :
    (python_str : Json → String) (payload : Fields)
    → content_of payload ≡ none
    → extract_tool_use_summaries python_str payload ≡ []
unfolding extract_tool_use_summaries
lines_other python_str payload none_there = ground arith

-- The text of an assistant event is never empty, and only an assistant event has text or lines for
-- its tools: every other event has neither.
pub assistant_text_lem :
    (python_str : Json → String) (payload : Fields)
    → ((s : String) → extract_assistant_text payload ≡ some s → is_empty s ≡ false)
      × (is_text "assistant" (get_field "type" payload) ≡ false
          → (extract_assistant_text payload ≡ none)
            × (extract_tool_use_summaries python_str payload ≡ []))
unfolding extract_assistant_text
assistant_text_lem python_str payload = (
  λ s e. elim (Option-cases (content_of payload)) [
    | inl missing ↦ absurd (ground arith)
    | inr (content, there) ↦ joined-text (chunks content) s (chunks-All content) (ground arith)
  ],
  λ other. (
    text_other payload (content_other payload other),
    lines_other python_str payload (content_other payload other),
  ),
)
