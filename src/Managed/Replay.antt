-- ===== src/Managed/Replay.antt =====
-- Replaying the history of a session after its stream was opened again.
use phodex.Base.{ℕ, ◌≡◌}
use phodex.World.{World, Exec, ok}
use phodex.World.Yields.{Yields}
use phodex.Managed.Client.{Managed}
use phodex.Managed.Run.{Driver}
use phodex.Managed.Drive.{Input, drive_step}
use phodex.Managed.Known.{Within}

module _ (m : Managed) (task_id ref : ℕ) where
  -- the ids that a driver remembers stay remembered
  abbrev Grows : Driver → Driver → Type 0
  Grows d d' = Within d.live.seen_event_ids d'.live.seen_event_ids

  abbrev GrowsBy : Driver → Exec Driver → Type 0
  GrowsBy d action = Yields (Grows d) action

  -- what a driver may come to while other requests stand between its steps
  pub data Leads (d : Driver) : Driver → Type 0 where
    here : Leads d d
    then_step :
        {d1 d2 : Driver} (i : Input) (w w' : World)
        → Leads d d1
        → drive_step m task_id ref d1 d1.point i w ≡ (ok d2, w')
        → Leads d d2
