-- ===== src/Contexts/Prompt.antt =====
-- Which follow-ups a prompt holds, and which directory is taken.
use phodex.Base.{
  ◌≡◌, refl, String, Bool, true, false, List, [], ◌∷◌, ◌++◌, arith, str_eq, if◌then◌else◌, strip,
  is_empty, Bool-cases, inl, inr, All, where_rows-append,
}
use mathlib.Core.List.{map-append}
use phodex.Models.{TaskMessage}
use phodex.Contexts.{is_followup, followups}

kept :
    (prompt : String) (m : TaskMessage) (rest : List String) (b : Bool)
    → is_followup prompt m ≡ b
    → All (λ s. (is_empty s ≡ false) × (str_eq s prompt ≡ false)) rest
    → All
        (λ s. (is_empty s ≡ false) × (str_eq s prompt ≡ false))
        (if b then strip m.content ∷ rest else rest)
kept prompt m rest true h all = ((ground arith, ground arith), all)
kept prompt m rest false h all = all

followups-cons :
    (prompt : String) (m : TaskMessage) (ms : List TaskMessage)
    → followups prompt (m ∷ ms) ≡ (
        if is_followup prompt m then strip m.content ∷ followups prompt ms else followups prompt ms)
followups-cons prompt m ms = elim (Bool-cases (is_followup prompt m)) [
  | inl yes_kept ↦ rw yes_kept refl
  | inr dropped ↦ rw dropped refl
]

followups-All :
    (prompt : String) (ms : List TaskMessage)
    → All (λ s. (is_empty s ≡ false) × (str_eq s prompt ≡ false)) (followups prompt ms)
followups-All prompt [] = tt
followups-All prompt (m ∷ ms) =
    rw (followups-cons prompt m ms)
      (kept prompt m (followups prompt ms) (is_followup prompt m) refl (followups-All prompt ms))

-- No follow-up of a prompt is empty or repeats the request; and a message that comes in last adds its
-- stripped text at the end exactly if it is a follow-up, and leaves the earlier ones in their order.
pub followups_lem :
    (prompt : String) (ms : List TaskMessage) (m : TaskMessage)
    → All (λ s. (is_empty s ≡ false) × (str_eq s prompt ≡ false)) (followups prompt ms)
      × (followups prompt (ms ++ m ∷ [])
          ≡ followups prompt ms ++ (if is_followup prompt m then strip m.content ∷ [] else []))
followups_lem prompt ms m = (
  followups-All prompt ms,
  rw (where_rows-append (is_followup prompt) ms (m ∷ [])) (
      rw (map-append) (elim (Bool-cases (is_followup prompt m)) [
        | inl yes_kept ↦ rw yes_kept refl
        | inr dropped ↦ rw dropped refl
      ])),
)
