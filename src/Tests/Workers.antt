-- ===== src/Tests/Workers.antt =====
-- Runs of the theorems on repositories, prompts, parsers and the engine.
use phodex.Base.{true, ℕ, ◌≡◌, ◌≢◌, refl, none, some, count_rows}
use phodex.Models.{Task, TaskStatus, ProjectContext}
use phodex.World.{ok}
use phodex.Repositories.{is_current_of, select_repository}
use phodex.Repositories.Selection.{select_repository_lem}
use phodex.Worker.{IsLawful}
use phodex.Orchestrator.{dispatch_task, engine, ExecutionContext}
use phodex.Orchestrator.Dispatch.{dispatch_once}
use phodex.Orchestrator.Runtime.{is_running, state_of}
use phodex.Orchestrator.Jobs.{timed_out, ended, resume_job}
use phodex.Orchestrator.Launch.{time_out_overwrites}
use phodex.Orchestrator.Halt.{NeverRuns, rejected-NeverRuns, cancelled-NeverRuns}
use phodex.Approvals.{reject}
use phodex.Approvals.Resolution.{IsOpen}
use phodex.Tasks.{cancel_task}
use phodex.Tasks.Transitions.{find_task}
use phodex.Orchestrator.Contract.{engine-IsLawful}
use phodex.Tests.Samples.{request, world, waiting_task, library, orchestrator, quiet}

-- the repository of another user
select_repository_lem_example :
    let (r, w') = select_repository (λ v. "") 1 9 none world in
    ((c : ProjectContext) × (r ≡ ok c) × (c.user_id ≡ 1) × (c.synced_repository_id ≡ some 9))
    × (count_rows (is_current_of 1) w'.db.contexts ≡ 1)
    × ((other : ℕ)
        → other ≢ 1
        → count_rows (is_current_of other) w'.db.contexts
          ≡ count_rows (is_current_of other) world.db.contexts)
select_repository_lem_example = select_repository_lem (λ v. "") 1 9 none world library refl

engine-IsLawful_example : IsLawful (engine orchestrator)
engine-IsLawful_example = engine-IsLawful orchestrator quiet

abbrev plan : ExecutionContext
plan = record { prompt_text = "Fix the build"; workdir = none; context_name = none; branch = none }

opened : IsOpen 1 request waiting_task world.db
opened = record { unresolved = refl; of_request = refl; owned = refl; waiting = refl }

rejected-NeverRuns_example :
    NeverRuns orchestrator 20 40 (reject (some (engine orchestrator)) 1 30 none world).1
rejected-NeverRuns_example =
    rejected-NeverRuns orchestrator 1 world 30 none request waiting_task 40 (refl, tt) refl opened
      refl ((reject (some (engine orchestrator)) 1 30 none world).1) refl

cancelled-NeverRuns_example :
    NeverRuns orchestrator 20 40 (cancel_task (some (engine orchestrator)) 1 20 world).1
cancelled-NeverRuns_example =
    cancelled-NeverRuns orchestrator 1 world quiet 20 waiting_task 40 (refl, (refl, tt)) refl refl
      refl ((cancel_task (some (engine orchestrator)) 1 20 world).1) refl

time_out_overwrites_example :
    let (w', point) = resume_job orchestrator 20 40 timed_out plan world in
    (point ≡ ended)
    × (t' : Task) × (find_task 20 w'.db ≡ some t')
    × (t'.status ≡ TaskStatus.failed)
    × (t'.error_message ≡ some "Approval timed out")
time_out_overwrites_example = time_out_overwrites orchestrator 20 40 plan world waiting_task refl

dispatch_once_example :
    let w' = (dispatch_task orchestrator 21 world).1 in
    (is_running (state_of 21 w') ≡ true) × (dispatch_task orchestrator 21 w' ≡ (ok tt, w'))
dispatch_once_example = dispatch_once orchestrator 21 world refl
