-- ===== src/Orchestrator/Runtime.antt =====
-- The dict `_states` and the `RuntimeState` objects that its entries name. A job holds its own object,
-- which may have left the dict.
use phodex.Base.{
  ==_self, get_row-append_new, ℕ, String, Bool, true, false, ◌&&◌, not, Option, none, some, List,
  [], ◌∷◌, ◌++◌, ◌==◌, get_row, set_row, where_rows, ◌≡◌, Option-cases, inl, inr, key-get_row,
  arith,
}
use phodex.World.{World, RuntimeState, StateEntry, Job}

-- the object of an entry
object_of : Option StateEntry → World → Option RuntimeState
object_of none w = none
object_of (some entry) w = get_row (λ s. s.ref) entry.ref w.heap

-- `self._states.get(task_id)`
unfoldable pub state_of : ℕ → World → Option RuntimeState
unfolding object_of
state_of task_id w = object_of (get_row (λ e. e.task_id) task_id w.states) w

pub state_of_same :
    (task_id : ℕ) (w w' : World)
    → w'.heap ≡ w.heap
    → w'.states ≡ w.states
    → state_of task_id w' ≡ state_of task_id w
unfolding state_of object_of
state_of_same task_id w w' heap states = rw states (ground (arith, heap))

-- the object is found by its own name
pub state_of-get_row :
    (task_id : ℕ) (s : RuntimeState) (w : World)
    → state_of task_id w ≡ some s
    → get_row (λ (x : RuntimeState). x.ref) s.ref w.heap ≡ some s
unfolding state_of object_of
state_of-get_row task_id s w has = elim (Option-cases (get_row (λ e. e.task_id) task_id w.states)) [
  | inl missing ↦ absurd (ground arith)
  | inr (e, named) ↦
      ground (arith, key-get_row (λ (x : RuntimeState). x.ref) e.ref w.heap s (ground arith))
]

-- assignments to the fields of an object
unfoldable pub write_state : ℕ → (RuntimeState → RuntimeState) → World → World
write_state ref f w = record w { heap = set_row (λ s. s.ref) ref f w.heap }

-- `RuntimeState(task_id=task_id)` with the job that was created for it
abbrev pub new_state : ℕ → ℕ → RuntimeState
new_state task_id ref = record {
  ref = ref;
  task_id = task_id;
  job = some Job.running;
  process = none;
  approval_id = none;
  approval_event = false;
  approval_granted = none;
  pending_replies = [];
  final_summary = none;
  stderr_tail = [];
  runtime_reported_error = false;
}

abbrev drop_entry : ℕ → List StateEntry → List StateEntry
drop_entry task_id es = where_rows (λ e. not (e.task_id == task_id)) es

-- `self._states[task_id] = state`
unfoldable pub add_state : ℕ → ℕ → World → World
add_state task_id ref w = record w {
  heap = w.heap ++ new_state task_id ref ∷ [];
  states = record { task_id = task_id; ref = ref } ∷ drop_entry task_id w.states;
}

-- `finally`: the entry is removed if it still names this job's object
unfoldable pub remove_state : ℕ → ℕ → World → World
remove_state task_id ref w = record w {
  states = where_rows (λ e. not (e.task_id == task_id && e.ref == ref)) w.states;
}

-- there is a state whose job is not done
unfoldable pub is_running : Option RuntimeState → Bool
is_running none = false
is_running (some state) = elim state.job [
  | none ↦ false
  | some job ↦ elim job [ Job.done ↦ false | _ ↦ true ]
]

abbrev pub queue_reply : String → RuntimeState → RuntimeState
queue_reply content s = record s { pending_replies = s.pending_replies ++ content ∷ [] }

-- a state that is added is the one of its task
pub state_of-add_state :
    (task_id ref : ℕ) (w : World)
    → get_row (λ (s : RuntimeState). s.ref) ref w.heap ≡ none
    → state_of task_id (add_state task_id ref w) ≡ some (new_state task_id ref)
unfolding state_of object_of add_state
state_of-add_state task_id ref w fresh = rw (==_self task_id) (
    ground (
      arith,
      ==_self ref,
      get_row-append_new (λ (s : RuntimeState). s.ref) ref w.heap (new_state task_id ref) fresh,
    ))
