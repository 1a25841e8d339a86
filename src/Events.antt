-- ===== src/Events.antt =====
-- backend/app/repositories/event_repo.py, backend/app/services/event_service.py and the reading side
-- of backend/app/api/stream.py.
--
-- `append_event` reads the highest sequence number and inserts the next one under `_append_locks` and
-- a row lock on the task, so it is one step here; what runs between two calls is another action.
pub mod Sequence
pub mod Adds
use phodex.Base.{
  ℕ, suc, ◌+◌, String, Bool, true, false, ◌&&◌, Option, none, some, List, [], ◌∷◌, ◌++◌, map, ltb,
  ◌==◌, if◌then◌else◌, where_rows, order_by, update_rows,
}
use phodex.Json.{Fields}
use phodex.Models.{TaskEvent}
use phodex.World.{
  World, Db, Envelope, Queue, Effect, relay, Exec, ok, pure, gets, query, commit, modify, emit,
  utcnow, uuid4, ◌>>=◌, ◌>>◌,
}

-- EventRepository.get_max_seq
abbrev max_seq : ℕ → List TaskEvent → ℕ
max_seq task_id [] = 0
max_seq task_id (e ∷ es) =
    let rest = max_seq task_id es in
    if e.task_id == task_id then (if ltb rest e.seq_no then e.seq_no else rest) else rest

unfoldable pub get_max_seq : ℕ → Exec ℕ
get_max_seq task_id = query (λ db. max_seq task_id db.events)

-- EventRepository.list_by_task
unfoldable pub list_by_task : ℕ → ℕ → Db → List TaskEvent
list_by_task task_id after_sequence db =
    order_by (λ e. e.seq_no)
      (where_rows (λ e. e.task_id == task_id && ltb after_sequence e.seq_no) db.events)

-- EventRepository.append
unfoldable pub insert_event : TaskEvent → Exec (Unit {0})
insert_event event = commit (λ db. record db { events = db.events ++ event ∷ [] })

unfoldable pub to_envelope : TaskEvent → Envelope
to_envelope event = record {
  event_id = event.id;
  task_id = event.task_id;
  sequence = event.seq_no;
  event_type = event.event_type;
  timestamp = event.created_at;
  payload = event.payload_json;
}

-- EventBus.subscribe: a new, empty queue among those of the task
unfoldable pub subscribe : ℕ → Exec ℕ
subscribe task_id = do
  id ← uuid4
  modify (λ w. record w {
    subscribers = w.subscribers ++ record { id = id; task_id = task_id; items = [] } ∷ [];
  })
  pure id

abbrev drop_queue : ℕ → ℕ → List Queue → List Queue
drop_queue task_id id [] = []
drop_queue task_id id (q ∷ qs) =
    let rest = drop_queue task_id id qs in
    if q.task_id == task_id && q.id == id then rest else q ∷ rest

-- EventBus.unsubscribe
unfoldable pub unsubscribe : ℕ → ℕ → Exec (Unit {0})
unsubscribe task_id id =
    modify (λ w. record w { subscribers = drop_queue task_id id w.subscribers })

-- EventBus._deliver
unfoldable pub deliver : Envelope → Exec (Unit {0})
deliver envelope = modify (λ w. record w {
  subscribers =
      update_rows (λ q. q.task_id == envelope.task_id)
        (λ q. record q { items = q.items ++ envelope ∷ [] }) w.subscribers;
})

-- RedisService.publish: whether Redis took the message
unfoldable pub redis_publish : Envelope → Exec Bool
redis_publish envelope w =
    let accepted = w.env.redis_enabled && w.env.redis_accepts w.calls in
    if accepted
    then (ok true, record w { calls = suc w.calls; effects = w.effects ++ relay envelope ∷ [] })
    else (ok false, record w { calls = suc w.calls })

-- EventBus.publish: a message that Redis took comes back through its listener, which calls `deliver`
unfoldable pub publish : Envelope → Exec (Unit {0})
unfolding redis_publish deliver
publish envelope = do
  accepted ← redis_publish envelope
  if accepted then pure tt else deliver envelope

-- EventService.append_event
unfoldable pub append_event : ℕ → String → Fields → Exec Envelope
unfolding get_max_seq insert_event to_envelope
append_event task_id event_type payload_json = do
  max_seq ← get_max_seq task_id
  id ← uuid4
  created_at ← utcnow
  let event : TaskEvent = record {
    id = id;
    task_id = task_id;
    seq_no = suc max_seq;
    event_type = event_type;
    payload_json = payload_json;
    created_at = created_at;
  }
  insert_event event
  publish (to_envelope event)
  pure (to_envelope event)

-- EventService.list_envelopes
unfoldable pub list_envelopes : ℕ → ℕ → Exec (List Envelope)
unfolding list_by_task to_envelope
list_envelopes task_id after_sequence =
    query (λ db. map to_envelope (list_by_task task_id after_sequence db))
