-- ===== src/Tests/Approvals.antt =====
-- Runs of the theorems on approvals.
use phodex.Base.{ℕ, ◌≡◌, refl, true, false, none, some, ◌==◌, if◌then◌else◌}
use phodex.Models.{TaskStatus, Task, ApprovalStatus, ApprovalRequest}
use phodex.World.{RuntimeState, Error, ok, err}
use phodex.Tasks.Transitions.{find_task}
use phodex.Approvals.{resolve, write_resolution, is_rejected, approve, reject}
use phodex.Approvals.Resolution.{find_approval, IsOpen}
use phodex.Approvals.Effects.{settled, resolve_effect, resolve_exactly}
use phodex.Orchestrator.Runtime.{state_of}
use phodex.Orchestrator.Jobs.{find_state, CanWake, signalled}
use phodex.Orchestrator.Verdicts.{reject-SameStates, approve_wakes}
use phodex.Tests.Samples.{world, codex, orchestrator, request, state, waiting_task}

opened : IsOpen 1 request waiting_task world.db
opened = record { unresolved = refl; of_request = refl; owned = refl; waiting = refl }

resolve_exactly_example :
    ((a : ApprovalRequest) (t : Task)
      → find_approval 30 world.db ≡ some a
      → IsOpen 1 a t world.db
      → (resolve 1 30 ApprovalStatus.approved none world
          ≡ write_resolution a ApprovalStatus.approved none world)
        × ((resolve 1 30 ApprovalStatus.approved none world).0
            ≡ ok (settled a ApprovalStatus.approved none world a)))
    × (((a : ApprovalRequest) (t : Task)
          → find_approval 30 world.db ≡ some a
          → ¬ IsOpen 1 a t world.db)
        → (e : Error) × (resolve 1 30 ApprovalStatus.approved none world ≡ (err e, world)))
resolve_exactly_example = resolve_exactly 1 30 ApprovalStatus.approved none world (refl, tt)

resolve_effect_example :
    let (r, w') = resolve 1 30 ApprovalStatus.rejected (some "No") world in
    (a' : ApprovalRequest) × (r ≡ ok a')
    × (a'.status ≡ ApprovalStatus.rejected)
    × (a'.resolved_at ≡ some 100)
    × ((j : ℕ) → find_approval j w'.db ≡ (if 30 == j then some a' else find_approval j world.db))
    × (is_rejected ApprovalStatus.rejected ≡ false → w'.db.tasks ≡ world.db.tasks)
    × (is_rejected ApprovalStatus.rejected ≡ true
        → (t' : Task) × (t'.status ≡ TaskStatus.failed)
          × (t'.error_message ≡ some "Approval rejected")
          × (t'.finished_at ≡ some 101)
          × ((j : ℕ) → find_task j w'.db ≡ (if 20 == j then some t' else find_task j world.db)))
resolve_effect_example =
    resolve_effect 1 30 ApprovalStatus.rejected (some "No") world (refl, tt) request waiting_task
      refl opened

reject-SameStates_example :
    let (r, w') = reject codex 1 30 none world in
    ((a' : ApprovalRequest) × (r ≡ ok a')) × (w'.heap ≡ world.heap) × (w'.states ≡ world.states)
reject-SameStates_example =
    reject-SameStates orchestrator 1 30 none world (refl, tt) request waiting_task refl opened

has_state : state_of 20 world ≡ some state
unfolding state_of
has_state = refl

approve_wakes_example :
    let (r, w') = approve codex 1 30 none world in
    (s' : RuntimeState) × (find_state 40 w' ≡ some s')
    × CanWake signalled s'
    × (s'.approval_granted ≡ some true)
approve_wakes_example =
    approve_wakes orchestrator 1 30 none world (refl, tt) request waiting_task refl opened state
      has_state refl
