-- ===== src/Managed/Drive.antt =====
-- The driver of a run of backend/workers/managed/session_runner.py, which is given what comes.
use phodex.Base.{
  ℕ, suc, String, Bool, true, false, not, List, [], ◌∷◌, ◌==◌, ltb, if◌then◌else◌, concat,
  where_rows,
}
use phodex.Json.{Json, Fields, str, end, field, str_or_null, get_field}
use phodex.World.{
  World, user_message, Exec, Result, ok, err, cancelled_error, attempt, pure, raise, modify, ◌>>=◌,
  ◌>>◌,
}
use phodex.Events.{append_event}
use phodex.Tasks.{message}
use phodex.Orchestrator.Jobs.{Wake}
use phodex.Managed.Client.{Managed, LiveSession, send, fail, interrupt_session}
use phodex.Managed.Events.{Handled, next, finished, asks, handle_event, after_wait}
use phodex.Managed.Run.{Driver, Point, opening, streaming, ended, waiting}

pub data Input : Type 0 where
  opened closed deadline : Input
  not_opened : String → Input
  event : Fields → Input
  woken : Wake → Input

-- `self._live.pop(task_id, None)`
unfoldable pub pop_live : ℕ → World → World
pop_live task_id w = record w { live = where_rows (λ e. not (e.task_id == task_id)) w.live }

abbrev pub ending : Driver → Driver
ending d = record d { point = ended }

-- where the driver goes after an event, with what is left of the history
abbrev pub moved : Driver → List Fields → Handled → Driver
moved d rest (next live) = record d { live = live; point = streaming }
moved d rest finished = ending d
moved d rest (asks live) = record d { live = live; point = waiting rest }

module _ (m : Managed) (task_id ref : ℕ) where
  -- the loop over the history, which stops at a wait and at the end of the task
  unfoldable pub replay : Driver → List Fields → Exec Driver
  replay d [] = pure (record d { point = streaming })
  replay d (e ∷ es) = do
    handled ← handle_event m task_id ref d.live e
    elim handled [
      | next live ↦ replay (record d { live = live }) es
      | finished ↦ pure (ending d)
      | asks live ↦ pure (moved d es (asks live))
    ]

  -- ManagedSessionRunner._history
  abbrev pub history_or_none : Result (List Fields) → Exec (List Fields)
  history_or_none (ok events) = pure events
  history_or_none (err cancelled_error) = raise cancelled_error
  history_or_none (err e) = pure []

  unfoldable pub history : LiveSession → Exec (List Fields)
  history live w =
      history_or_none (m.list w live.api_key live.session_id) (record w { calls = suc w.calls })

  -- the stream is open: the prompt is sent, or the history is replayed
  unfoldable pub on_opened : Driver → Exec Driver
  unfolding history
  on_opened d =
      if not d.first_message_sent
      then (do
        send m d.live.api_key d.live.session_id (user_message d.prompt)
        pure (record d { first_message_sent = true; point = streaming }))
      else (do events ← history d.live; replay d events)

  unfoldable pub on_not_opened : Driver → String → Exec Driver
  on_not_opened d error = do
    fail task_id "managed_stream_failed"
        (concat ("Could not open the managed session stream: " ∷ error ∷ []))
        "MANAGED_STREAM_FAILED" true
    pure (ending d)

  -- the stream has ended: at most three times it is opened again
  unfoldable pub on_closed : Driver → (attempt : String) → Exec Driver
  on_closed d attempt =
      if ltb 3 (suc d.reconnects)
      then (do
        fail task_id "managed_stream_lost" "Lost the managed session stream" "MANAGED_STREAM_LOST"
            true
        pure (ending d))
      else (do
        append_event task_id "task.log"
            (message (concat ("Reconnecting to managed session (attempt " ∷ attempt ∷ ")" ∷ [])))
        pure (record d { reconnects = suc d.reconnects; point = opening }))

  unfoldable pub on_deadline : Driver → Exec Driver
  on_deadline d = do
    interrupt_session m task_id
    fail task_id "runtime_timeout" "Managed session timed out" "WORKER_TIMEOUT" true
    pure (ending d)

  unfoldable pub on_event : Driver → Fields → Exec Driver
  on_event d e = do handled ← handle_event m task_id ref d.live e; pure (moved d [] handled)

  unfoldable pub on_woken : Driver → List Fields → Wake → Exec Driver
  on_woken d rest wake = do
    handled ← after_wait m task_id ref d.live wake
    elim handled [
      | next live ↦ replay (record d { live = live }) rest
      | finished ↦ pure (ending d)
      | asks live ↦ pure (moved d rest (asks live))
    ]

  -- ManagedSessionRunner._drive: one input at the point where the driver stands; others do not come
  unfoldable pub drive_step : Driver → Point → Input → Exec Driver
  unfolding on_opened on_not_opened on_event on_closed on_deadline on_woken
  drive_step d opening opened = on_opened d
  drive_step d opening (not_opened error) = on_not_opened d error
  drive_step d streaming (event e) = on_event d e
  drive_step d streaming closed =
      on_closed d (m.json_str (phodex.Json.int (phodex.Json.pos (suc d.reconnects))))
  drive_step d streaming deadline = on_deadline d
  drive_step d (waiting rest) (woken wake) = on_woken d rest wake
  drive_step d _ _ = pure d

  abbrev pub is_ended : Point → Bool
  is_ended ended = true
  is_ended _ = false

  -- the `finally` of ManagedSessionRunner.run
  unfoldable pub close_run : Result Driver → Exec Driver
  unfolding pop_live
  close_run (err e) = do modify (pop_live task_id); raise e
  close_run (ok d) = if is_ended d.point then (do modify (pop_live task_id); pure d) else pure d

  -- the driver in the `try` of ManagedSessionRunner.run: one input
  unfoldable pub run_step : Driver → Input → Exec Driver
  unfolding drive_step close_run
  run_step d i = attempt (drive_step d d.point i) close_run
