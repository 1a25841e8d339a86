-- ===== src/Tests/Sessions.antt =====
-- Runs of the theorems on managed sessions.
use phodex.Base.{◌≤◌, ◌≡◌, refl, true, false, none, some, [], ◌∷◌, ◌++◌}
use phodex.Json.{Fields, str, end, field, get_field}
use phodex.Models.{SourceType, is_finished}
use phodex.World.{World, LiveEntry, ok}
use phodex.Worker.{IsLawful}
use phodex.Approvals.{reject}
use phodex.Approvals.Resolution.{IsOpen}
use phodex.Tasks.{get_user_id}
use phodex.AiSettings.{get_github_token, get_by_user_id}
use phodex.Orchestrator.Jobs.{find_state, signalled, CanWake}
use phodex.Orchestrator.Runtime.{state_of}
use phodex.Runners.{summary_or}
use phodex.Runners.Report.{Failed, Completed}
use phodex.Managed.Client.{Managed, LiveSession}
use phodex.Managed.Events.{finished, handle_kind, error_text_of, is_budget, default_summary}
use phodex.Managed.Run.{
  Driver, streaming, ended, waiting, opening, start_run, with_repo, configured, create_session,
  ask_session, on_created, load_repo,
}
use phodex.Managed.Drive.{ending, on_woken}
use phodex.Managed.{engine}
use phodex.Managed.Replay.{here}
use phodex.Managed.Reconnects.{closings, closings_bound}
use phodex.Managed.Verdict.{denied, refusal, reject_denies}
use phodex.Managed.Contract.{managed_engine-IsLawful}
use phodex.Managed.Outcome.{end_outcome}
use phodex.Tests.Samples.{context, world, request, state, waiting_task, running_task, orchestrator}

abbrev managed : Managed
managed = record {
  agent_id = some "agent";
  environment_id = some "env";
  risk_level = "medium";
  github_default_token = none;
  secrets = record { key = "k"; encrypt = λ k n s. s; decrypt = λ k s. some s };
  create = λ w k r. ok "session";
  accept = λ w k id i. ok tt;
  list = λ w k id. ok [];
  json_str = λ j. "";
  dumps = λ j. "";
}

abbrev tool : Fields
tool = field "id" (str "t1") (field "type" (str "agent.tool_use") (field "name" (str "bash") end))

abbrev live : LiveSession
live = record {
  session_id = "session";
  api_key = none;
  pending_tool = none;
  seen_event_ids = [];
  completed = false;
}

abbrev driver : Driver
driver = record {
  prompt = "Fix the build";
  live = live;
  reconnects = 0;
  first_message_sent = true;
  point = streaming;
}

abbrev event : Fields
event = field "id" (str "e1") (field "type" (str "agent.thinking") end)

abbrev seen_driver : Driver
seen_driver = record driver { live = record live { seen_event_ids = "e1" ∷ [] } }

managed_engine-IsLawful_example : IsLawful (engine managed orchestrator)
managed_engine-IsLawful_example = managed_engine-IsLawful managed (λ k id i v. refl) orchestrator

opened : IsOpen 1 request waiting_task world.db
opened = record { unresolved = refl; of_request = refl; owned = refl; waiting = refl }

has_state : state_of 20 world ≡ some state
unfolding state_of
has_state = refl

abbrev entry : LiveEntry
entry = record { task_id = 20; session_id = "session"; api_key = none }

abbrev woken : World
woken = record world { heap = denied state ∷ []; live = entry ∷ [] }

abbrev waiting_driver : Driver
waiting_driver = record driver {
  live = record live { pending_tool = some tool };
  point = waiting [];
}

reject_denies_example :
    (find_state 40 (reject (some (engine managed orchestrator)) 1 30 none world).1
      ≡ some (denied state))
    × CanWake signalled (denied state)
    × (let (r, v') = on_woken managed 20 40 waiting_driver [] signalled woken in
        (r ≡ ok (ending waiting_driver))
        × (v'.effects ≡ woken.effects ++ refusal managed 20 40 waiting_driver.live entry)
        × (v'.db ≡ woken.db))
reject_denies_example =
    reject_denies managed orchestrator 1 30 none world (refl, tt) request waiting_task refl opened
      state has_state refl woken waiting_driver [] entry refl refl (λ k id i u. refl)

end_outcome_example :
    (let (r, w') = handle_kind managed 21 41 live event "session.error" world in
      (r ≡ ok finished) × Failed 21 (error_text_of managed 21 41 event) world w')
    × (let (r, w') = handle_kind managed 21 41 live event "session.status_terminated" world in
        (r ≡ ok finished)
        × (is_finished running_task.status ≡ true → w' ≡ world)
        × (is_finished running_task.status ≡ false
            → Failed 21 "Managed session ended before the task completed" world w'))
    × (let (r, w') = handle_kind managed 21 41 live event "session.status_idle" world in
        (r ≡ ok finished)
        × (is_budget (get_field "stop_reason" event) ≡ true
            → Failed 21 "Managed session reached its budget" world w')
        × (is_budget (get_field "stop_reason" event) ≡ false
            → Completed 21 (summary_or default_summary (find_state 41 world)) world w'))
end_outcome_example = end_outcome 21 running_task world refl managed 41 live event refl refl refl

abbrev hosted : World
hosted = record world {
  db = record world.db {
    tasks = record running_task { project_context_id = some 10 } ∷ [];
    contexts =
        record context {
          source_type = SourceType.github;
          repo_url = some "https://github.com/acme/app.git";
        }
        ∷ [];
  };
}

abbrev with_default : Managed
with_default = record managed { github_default_token = some "token" }

abbrev fresh : Driver
fresh = record driver { first_message_sent = false; point = opening }

starts :
    start_run with_default 21 "Fix the build" hosted
    ≡ (ok (some fresh), (start_run with_default 21 "Fix the build" hosted).1)
unfolding start_run with_repo configured phodex.Managed.Run.with_token create_session ask_session
    on_created load_repo get_user_id get_github_token get_by_user_id phodex.Events.append_event
    phodex.Events.publish
starts = refl

closings_bound_example :
    (closings with_default 21 41 {d = fresh} here ≤ 4)
    × (closings with_default 21 41 {d = fresh} here ≡ 4 → opening ≡ ended)
closings_bound_example =
    closings_bound with_default 21 41 "Fix the build" hosted
      ((start_run with_default 21 "Fix the build" hosted).1) fresh fresh starts here
