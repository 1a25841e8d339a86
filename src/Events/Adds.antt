-- ===== src/Events/Adds.antt =====
-- Actions that change no table but that of the events, to which they add.
use phodex.Base.{ℕ, String, ◌≡◌, ap, ◌∙◌, sym, List, [], ◌∷◌, ◌++◌, All, All-append}
use mathlib.Core.List.{append-nil, append_assoc}
use phodex.Json.{Fields}
use phodex.Models.{TaskEvent}
use phodex.World.{World, Db}
use phodex.Events.{append_event}
use phodex.Events.Sequence.{append_event_stores, new_event}

abbrev pub with_events : List TaskEvent → Db → Db
with_events new db = record db { events = db.events ++ new }

-- the events that were added have the property
pub record Adds (P : TaskEvent → Type 0) (w w' : World) : Type 0 where
  pub new : List TaskEvent
  pub stored : w'.db ≡ with_events new w.db
  pub holds : All P new

module _ (P : TaskEvent → Type 0) where
  pub Adds-none : (w w' : World) → w'.db ≡ w.db → Adds P w w'
  Adds-none w w' same = record {
    new = [];
    stored = same ∙ ap (λ es. record w.db { events = es }) (sym (append-nil w.db.events));
    holds = tt;
  }

  pub Adds-trans : (u v w : World) → Adds P u v → Adds P v w → Adds P u w
  Adds-trans u v w p q = record {
    new = p.new ++ q.new;
    stored =
        q.stored
        ∙ ap (with_events q.new) p.stored
        ∙ ap (λ es. record u.db { events = es }) (append_assoc u.db.events p.new q.new);
    holds = All-append P p.new q.new p.holds q.holds;
  }

  pub append_event-Adds :
      (task_id : ℕ) (kind : String) (payload : Fields) (w : World)
      → P (new_event task_id kind payload w)
      → Adds P w (append_event task_id kind payload w).1
  append_event-Adds task_id kind payload w h = record {
    new = new_event task_id kind payload w ∷ [];
    stored = append_event_stores task_id kind payload w;
    holds = (h, tt);
  }
