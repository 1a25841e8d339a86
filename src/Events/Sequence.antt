-- ===== src/Events/Sequence.antt =====
-- The numbering of a task's events, by which a client asks for what it has not seen.
use phodex.Base.{
  ℕ, suc, ◌+◌, ◌-◌, String, ◌≡◌, refl, ◌&&◌, List, [], ◌∷◌, ◌++◌, map, arith, ltb, ◌==◌,
  if◌then◌else◌, length, where_rows, IsAscending, IsAscending-le, IsAscending-if,
  order_by-IsAscending, drop, drop-nil, ==_self, ap, ◌∙◌, where_rows-append, drop-length_append,
  drop-cons, sym,
}
use phodex.Json.{Fields}
use phodex.Models.{TaskEvent}
use phodex.World.{World, Envelope, ok}
use phodex.Events.{max_seq, append_event, list_envelopes, to_envelope, publish}

module _ (t : ℕ) where
  -- the events of the task, in the order of the table
  abbrev pub of_task : List TaskEvent → List TaskEvent
  of_task es = where_rows (λ e. e.task_id == t) es

  -- the events of the task are numbered n + 1, n + 2, … in the order of the table
  abbrev pub Numbered : ℕ → List TaskEvent → Type 0
  Numbered n [] = Unit
  Numbered n (e ∷ es) =
      (e.task_id ≡ t → e.seq_no ≡ suc n) × Numbered (if e.task_id == t then suc n else n) es

  max_seq-Numbered :
      (n : ℕ) (es : List TaskEvent)
      → Numbered n es
      → max_seq t es ≡ (if length (of_task es) == 0 then 0 else n + length (of_task es))
  max_seq-Numbered n [] h = refl
  max_seq-Numbered n (e ∷ es) h =
      ground (arith, max_seq-Numbered (if e.task_id == t then suc n else n) es h.1)

  Numbered-append :
      (n : ℕ) (es : List TaskEvent) (e : TaskEvent)
      → Numbered n es
      → (e.task_id ≡ t → e.seq_no ≡ suc (n + length (of_task es)))
      → Numbered n (es ++ e ∷ [])
  Numbered-append n [] e h next = ground arith
  Numbered-append n (x ∷ es) e h next = (
    h.0,
    Numbered-append (if x.task_id == t then suc n else n) es e h.1
        (λ same. ground (arith, next same)),
  )

  Numbered-IsAscending :
      (a n : ℕ) (es : List TaskEvent)
      → Numbered n es
      → IsAscending (λ e. e.seq_no) n (where_rows (λ e. e.task_id == t && ltb a e.seq_no) es)
  Numbered-IsAscending a n [] h = tt
  Numbered-IsAscending a n (e ∷ es) h =
      let m = if e.task_id == t then suc n else n in
      let rows = where_rows (λ e. e.task_id == t && ltb a e.seq_no) es in
      let rest = Numbered-IsAscending a m es h.1 in
      IsAscending-if (λ e. e.seq_no) (e.task_id == t && ltb a e.seq_no) n e rows
        (λ kept. (
          ground (arith, h.0),
          IsAscending-le (λ e. e.seq_no) m e.seq_no rows (ground (arith, h.0)) rest,
        ))
        (IsAscending-le (λ e. e.seq_no) m n rows (ground arith) rest)

  where_rows-Numbered :
      (a n : ℕ) (es : List TaskEvent)
      → Numbered n es
      → where_rows (λ e. e.task_id == t && ltb a e.seq_no) es ≡ drop (a - n) (of_task es)
  where_rows-Numbered a n [] h = sym (drop-nil (a - n))
  where_rows-Numbered a n (e ∷ es) h = ground (
    arith,
    h.0,
    where_rows-Numbered a (if e.task_id == t then suc n else n) es h.1,
    drop-cons (a - n) e (of_task es),
  )

-- The events of every task are numbered 1, 2, 3, … in the order of the table.
abbrev pub IsSequenced : World → Type 0
IsSequenced w = (t : ℕ) → Numbered t 0 w.db.events

-- what a client has missed that has seen the first `after` events of the task
abbrev pub missed : ℕ → ℕ → World → List Envelope
missed task_id after w = map to_envelope (drop after (of_task task_id w.db.events))

pub max_seq-IsSequenced :
    (t : ℕ) (w : World) → IsSequenced w → max_seq t w.db.events ≡ length (of_task t w.db.events)
max_seq-IsSequenced t w h = ground (arith, max_seq-Numbered t 0 w.db.events (h t))

-- the row that `append_event` adds
abbrev pub new_event : ℕ → String → Fields → World → TaskEvent
new_event task_id event_type payload w = record {
  id = w.env.uuid w.calls;
  task_id = task_id;
  seq_no = suc (max_seq task_id w.db.events);
  event_type = event_type;
  payload_json = payload;
  created_at = w.env.now (suc w.calls);
}

-- what an action on events leaves alone beside the tables
pub record SameRuntime (w w' : World) : Type 0 where
  pub heap : w'.heap ≡ w.heap
  pub states : w'.states ≡ w.states
  pub settings : w'.settings ≡ w.settings
  pub env : w'.env ≡ w.env
  pub cache : w'.cache ≡ w.cache

module _ (task_id : ℕ) (event_type : String) (payload : Fields) (w : World) where
  pub append_event_returns :
      (append_event task_id event_type payload w).0
      ≡ ok (to_envelope (new_event task_id event_type payload w))
  unfolding append_event publish
  append_event_returns = ground arith

  pub append_event_stores :
      (append_event task_id event_type payload w).1.db
      ≡ record w.db { events = w.db.events ++ new_event task_id event_type payload w ∷ [] }
  unfolding append_event publish
  append_event_stores = ground arith

  pub append_event-SameRuntime : SameRuntime w (append_event task_id event_type payload w).1
  unfolding append_event publish
  append_event-SameRuntime = ground arith

  of_task-append_event :
      of_task task_id (append_event task_id event_type payload w).1.db.events
      ≡ of_task task_id w.db.events ++ new_event task_id event_type payload w ∷ []
  of_task-append_event =
      rw append_event_stores
        (rw (where_rows-append (λ (e : TaskEvent). e.task_id == task_id)) (rw (==_self task_id)))

  -- Appending an event, whatever Redis answers, keeps the events of every task numbered 1, 2, 3, …;
  -- the envelope that is returned is behind all earlier ones of its task, and is what a client that
  -- has seen those has missed.
  pub append_event-IsSequenced :
      IsSequenced w
      → (e : Envelope) × ((append_event task_id event_type payload w).0 ≡ ok e)
        × IsSequenced (append_event task_id event_type payload w).1
        × (e.sequence ≡ suc (length (of_task task_id w.db.events)))
        × (missed task_id
              (length (of_task task_id w.db.events))
              (append_event task_id event_type payload w).1
            ≡ e ∷ [])
  unfolding to_envelope
  append_event-IsSequenced h = (
    to_envelope (new_event task_id event_type payload w),
    append_event_returns,
    λ t. rw append_event_stores (
        Numbered-append t 0 w.db.events (new_event task_id event_type payload w) (h t)
          λ same. rw (← same) (omega (arith, max_seq-IsSequenced task_id w h))),
    omega (arith, max_seq-IsSequenced task_id w h),
    rw of_task-append_event (rw (drop-length_append (of_task task_id w.db.events))),
  )

-- `list_envelopes` with the number of the last event that a client has seen returns exactly the
-- later events of the task, in order and without a gap, and changes nothing.
pub list_envelopes-eq-missed :
    (task_id after : ℕ) (w : World)
    → IsSequenced w
    → list_envelopes task_id after w ≡ (ok (missed task_id after w), w)
unfolding list_envelopes
list_envelopes-eq-missed task_id after w h =
    ap (λ (es : List TaskEvent). (ok (map to_envelope es), w))
      (order_by-IsAscending (λ e. e.seq_no) 0 _
          (Numbered-IsAscending task_id after 0 w.db.events (h task_id))
        ∙ where_rows-Numbered task_id after 0 w.db.events (h task_id)
        ∙ ap (λ k. drop k (of_task task_id w.db.events)) (omega arith))
