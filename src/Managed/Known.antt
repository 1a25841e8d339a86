-- ===== src/Managed/Known.antt =====
-- An event of a session that is known is passed over, and an event that has come is known.
use phodex.Base.{
  ℕ, String, ◌≡◌, refl, Bool, true, false, Option, none, some, List, ◌∷◌, arith, eq_iff, is_empty,
  if◌then◌else◌, Bool-cases, inl, inr,
}
use phodex.Json.{Json, Fields, str, get_field, truthy}
use phodex.World.{World, Result, ok, err, pure}
use phodex.World.Yields.{Post, Yields, Post-map, bind-Yields_of}
use phodex.Runners.{returned}
use phodex.Managed.Client.{shown, Managed, LiveSession, is_in, text_field}
use phodex.Managed.Events.{Handled, next, finished, asks, handle_kind, handle_event, is_seen, noted}
use phodex.Managed.Seen.{Remembers, handle_kind-Keeps}

-- the event has an id, a text that is not empty
abbrev pub HasId : Fields → Type 0
HasId e = (id : String) × (get_field "id" e ≡ some (str id)) × (is_empty id ≡ false)

-- the event has an id that is remembered
abbrev pub IsKnown : List String → Fields → Type 0
IsKnown ids e =
    (id : String) × (get_field "id" e ≡ some (str id))
    × (is_empty id ≡ false)
    × (is_in id ids ≡ true)

-- whatever the first list has, the second has
abbrev pub Within : List String → List String → Type 0
Within ids ids' = (id : String) → is_in id ids ≡ true → is_in id ids' ≡ true

is_in-cons : (s t : String) (ids : List String) → is_in s ids ≡ true → is_in s (t ∷ ids) ≡ true
is_in-cons s t ids h = ground arith

is_in_self : (s : String) (ids : List String) → is_in s (s ∷ ids) ≡ true
is_in_self s ids = rw ((eq_iff s s).1 refl) refl

-- what is known afterwards: all that was, and the event
abbrev pub Knows : List String → Fields → List String → Type 0
Knows ids e ids' = Within ids ids' × (HasId e → IsKnown ids' e)

abbrev pub After : List String → Fields → Handled → Type 0
After ids e (next live) = Knows ids e live.seen_event_ids
After ids e finished = Unit
After ids e (asks live) = Knows ids e live.seen_event_ids

After-same :
    (ids ids' : List String) (e : Fields) (h : Handled)
    → Knows ids e ids'
    → Remembers ids' h
    → After ids e h
After-same ids ids' e (next live) k same = rw same k
After-same ids ids' e finished k same = tt
After-same ids ids' e (asks live) k same = rw same k

ok_inj : {b : Bool} → ◌≡◌ {A = Result Bool} (ok b) (ok true) → b ≡ true
ok_inj h = cc

Post-self : {A : Type 0} (r : Result A) → Post (λ a. r ≡ ok a) r
Post-self (ok a) = refl
Post-self (err e) = tt

module _ (m : Managed) (task_id ref : ℕ) where
  -- an event that is known is passed over
  pub handle_event_known :
      (live : LiveSession) (e : Fields) (w : World)
      → IsKnown live.seen_event_ids e
      → handle_event m task_id ref live e w ≡ (ok (next live), w)
  unfolding handle_event truthy
  handle_event_known live e w (id, named, full, known) = rw named (rw full (rw known refl))

  Within-noted :
      (live : LiveSession) (id : Option Json)
      → Within live.seen_event_ids (noted m task_id ref id live).seen_event_ids
  Within-noted live none s h = h
  Within-noted live (some v) s h = elim (Bool-cases (truthy v)) [
    | inl full ↦ rw full (is_in-cons s (shown m v) live.seen_event_ids h)
    | inr blank ↦ rw blank h
  ]

  noted-Knows :
      (live : LiveSession) (e : Fields)
      → Knows live.seen_event_ids e (noted m task_id ref (get_field "id" e) live).seen_event_ids
  unfolding truthy
  noted-Knows live e = (
    Within-noted live (get_field "id" e),
    λ (id, named, full). (id, named, full, rw named (rw full (is_in_self id live.seen_event_ids))),
  )

  -- an event that is passed over with an id was known
  seen-Knows :
      (live : LiveSession) (e : Fields)
      → is_seen m task_id ref (get_field "id" e) live ≡ ok true
      → Knows live.seen_event_ids e live.seen_event_ids
  unfolding truthy
  seen-Knows live e seen =
      (λ s h. h, λ (id, named, full). (id, named, full, ok_inj (rw full at (rw named at seen))))

  by_seen :
      (live : LiveSession) (e : Fields) (seen : Bool)
      → is_seen m task_id ref (get_field "id" e) live ≡ ok seen
      → Yields (After live.seen_event_ids e) (
          if seen
          then pure (next live)
          else handle_kind m task_id ref
              (noted m task_id ref (get_field "id" e) live)
              e
              (text_field m "type" "" e))
  by_seen live e true q = λ w. seen-Knows live e q
  by_seen live e false q = λ w.
      let live' = noted m task_id ref (get_field "id" e) live in
      let etype = text_field m "type" "" e in
      Post-map (Remembers live'.seen_event_ids) (After live.seen_event_ids e)
        (λ h. After-same live.seen_event_ids live'.seen_event_ids e h (noted-Knows live e))
        (handle_kind m task_id ref live' e etype w).0
        (handle_kind-Keeps m task_id ref live'.seen_event_ids live' refl e etype w)

  pub handle_event-After :
      (live : LiveSession) (e : Fields)
      → Yields (After live.seen_event_ids e) (handle_event m task_id ref live e)
  unfolding handle_event
  handle_event-After live e =
      let id = get_field "id" e in
      let live' = noted m task_id ref id live in
      let etype = text_field m "type" "" e in
      bind-Yields_of (After live.seen_event_ids e) (returned (is_seen m task_id ref id live))
        (λ seen. if seen then pure (next live) else handle_kind m task_id ref live' e etype)
        (λ seen. is_seen m task_id ref id live ≡ ok seen)
        (λ w. Post-self (is_seen m task_id ref id live)) (λ seen q. by_seen live e seen q)
