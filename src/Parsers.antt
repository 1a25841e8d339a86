-- ===== src/Parsers.antt =====
-- backend/workers/claude/output_parser.py and backend/workers/codex/output_parser.py: what the workers read
-- out of the JSON lines that a runtime prints.
pub mod Claude
pub mod Codex
use phodex.Base.{
  String, Bool, true, false, not, Option, none, some, List, [], ◌∷◌, str_eq, is_empty, strip,
  if◌then◌else◌,
}
use phodex.Json.{Json, Fields, Items, str, obj, arr, nil, cons, get_field}

-- `v == text`
abbrev pub is_text : String → Option Json → Bool
is_text text (some (str s)) = str_eq s text
is_text text _ = false

-- `s.strip()` is empty
abbrev pub is_blank : String → Bool
is_blank s = is_empty (strip s)

-- `v` if it is a text that is not blank
abbrev pub non_blank : Option Json → Option String
non_blank (some (str s)) = if is_blank s then none else some s
non_blank _ = none

-- the value if it is a dict, or a list
abbrev pub as_dict : Option Json → Option Fields
as_dict (some (obj fs)) = some fs
as_dict _ = none

abbrev pub as_list : Option Json → Option Items
as_list (some (arr vs)) = some vs
as_list _ = none
