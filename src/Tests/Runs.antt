-- ===== src/Tests/Runs.antt =====
-- Runs of the theorems on runtimes, the fake worker, the settings and the whole backend.
use phodex.Base.{
  ℕ, String, ◌≡◌, refl, true, false, Option, none, some, [], ◌∷◌, ◌==◌, if◌then◌else◌,
}
use phodex.Json.{pos, str}
use phodex.Models.{ApprovalStatus, ApprovalRequest, TaskStatus, Task, UserAiSettings, is_cancelled}
use phodex.World.{World, Error, ok, err}
use phodex.Subprocess.{Run, stderr}
use phodex.Tasks.{cancel_task, create_task, add_reply}
use phodex.Approvals.{approve, resolve, write_resolution, announce_approval}
use phodex.System.Once.{decide, decided_once}
use phodex.Tasks.Transitions.{find_task}
use phodex.Tasks.Lifecycle.{AllTimed}
use phodex.AiSettings.{Secrets, Update, update, status_of, set_github_token, get_github_token}
use phodex.AiSettings.Keys.{
  IsSound, find_settings, current, Holds, stripped, update_effect, get_github_token-set,
}
use phodex.Runners.{Machine}
use phodex.Runners.Codex
use phodex.Runners.Claude
use phodex.Runners.Report.{
  Decides, codex_succeeded, codex_summary, codex_error, codex_report_outcome,
}
use phodex.FakeWorker.{run_job, dispatch_task, handle_approval}
use phodex.FakeWorker.Progress.{IsAt, IsIdle, job_ends}
use phodex.System.{done, next, created, cancelled, replied, Reach-AllTimed}
use phodex.System.Numbering.{Reach-IsSequenced}
use phodex.Events.Sequence.{IsSequenced}
use phodex.Tests.Samples.{
  world, running_task, request, codex-Orderly, codex, codex-Lawful, world-AllTimed,
  world-IsSequenced,
}

abbrev run : Run
run = record {
  pid = 7;
  lines = record { source = stderr; text = "warning" } ∷ [];
  in_time = true;
  exit_code = pos 0;
}

-- a cipher that puts one character in front
abbrev opened : String → Option String
opened String.[] = none
opened (String.◌∷◌ c s) = some s

abbrev secrets : Secrets
secrets = record {
  key = "key";
  encrypt = λ key n s. String.◌∷◌ "x" s;
  decrypt = λ key token. opened token;
}

sound : IsSound secrets
sound = record { configured = refl; full = λ n s. refl; opens = λ n s. refl }

abbrev change : Update
change = record {
  anthropic_api_key = some "sk-1";
  openai_api_key = none;
  clear_anthropic_key = false;
  clear_openai_key = true;
  preferred_claude_model = some "opus";
  preferred_codex_model = none;
}

update_effect_example :
    let old = current 1 world in
    let (r, w') = update secrets 1 change world in
    (row : UserAiSettings) × (r ≡ ok (status_of (some row)))
    × ((j : ℕ) → find_settings j w'.db ≡ (if 1 == j then some row else find_settings j world.db))
    × Holds secrets sound false
        (some "sk-1")
        old.anthropic_api_key_encrypted
        row.anthropic_api_key_encrypted
    × Holds secrets sound true none old.openai_api_key_encrypted row.openai_api_key_encrypted
    × (row.github_token_encrypted ≡ old.github_token_encrypted)
update_effect_example = update_effect secrets sound 1 change world

get_github_token-set_example :
    get_github_token secrets 1 (set_github_token secrets 1 (some "ghs_1 ") world).1
    ≡ ok (stripped secrets sound (some "ghs_1 "))
get_github_token-set_example = get_github_token-set secrets sound 1 (some "ghs_1 ") world

abbrev machine : Machine
machine = record {
  host = λ c w. ok run;
  is_dir = λ w path. true;
  environ = [];
  split = λ s. ok (s ∷ []);
  loads = λ s. some (str s);
  json_str = λ v. "text";
  int_str = λ n. "1";
  upper = λ s. s;
  secrets = secrets;
}

abbrev codex_settings : Codex.Settings
codex_settings = record {
  codex_command = "codex";
  codex_args = "exec";
  codex_prompt_stdin = true;
  codex_timeout_seconds = 60;
}

abbrev claude_settings : Claude.Settings
claude_settings = record {
  claude_command = "claude";
  claude_permission_mode = "plan";
  claude_extra_args = "";
  claude_timeout_seconds = 60;
}

codex_report_outcome_example :
    (is_cancelled running_task.status ≡ true
      → Codex.report machine codex_settings 21 40 (pos 1) false world ≡ (ok tt, world))
    × (is_cancelled running_task.status ≡ false
        → Decides 21
            (codex_succeeded machine 21 40 (pos 1) false running_task world refl codex_settings)
            (codex_summary machine 21 40 (pos 1) false running_task world refl codex_settings)
            (codex_error machine 21 40 (pos 1) false running_task world refl codex_settings)
            world
            (Codex.report machine codex_settings 21 40 (pos 1) false world))
codex_report_outcome_example =
    codex_report_outcome machine 21 40 (pos 1) false running_task world refl codex_settings

job_ends_example :
    ((t : Task) (w : World)
      → find_task 20 w.db ≡ some t
      → IsIdle 20 w
      → let (r1, w1) = dispatch_task 20 w in
        let (r2, w2) = run_job 20 w1 in
        (r1 ≡ ok tt) × (r2 ≡ ok tt) × IsAt 20 TaskStatus.waiting_approval w2 × IsIdle 20 w2)
    × ((w : World)
        → IsAt 20 TaskStatus.waiting_approval w
        → IsIdle 20 w
        → let (r1, w1) = handle_approval 20 30 true w in
          let (r2, w2) = run_job 20 w1 in
          (r1 ≡ ok tt) × (r2 ≡ ok tt) × IsAt 20 TaskStatus.completed w2 × IsIdle 20 w2)
job_ends_example = job_ends 20 30

abbrev after_cancel : World
after_cancel = (cancel_task codex 1 20 world).1

abbrev after_create : World
after_create = (create_task codex 1 "Add a test" none none after_cancel).1

Reach-AllTimed_example : AllTimed after_create.db
Reach-AllTimed_example =
    Reach-AllTimed codex codex-Lawful world after_create
      (next (cancelled 1 20 refl)
        (next (created 1 "Add a test" none none refl) (done after_create)))
      world-AllTimed

Reach-IsSequenced_example : IsSequenced after_create
Reach-IsSequenced_example =
    Reach-IsSequenced codex codex-Lawful codex-Orderly world after_create
      (next (cancelled 1 20 refl)
        (next (created 1 "Add a test" none none refl) (done after_create)))
      world-IsSequenced

abbrev granted : World
granted = (approve codex 1 30 none world).1

abbrev replied_to : World
replied_to = (add_reply codex 1 20 "Go on" granted).1

abbrev granted_row : ApprovalRequest
granted_row = record request { status = ApprovalStatus.approved; resolved_at = some 100 }

grants : (approve codex 1 30 none world).0 ≡ ok granted_row
unfolding approve resolve write_resolution announce_approval phodex.Events.append_event
    phodex.Events.publish phodex.Worker.dispatcher phodex.Approvals.invalidate_usage_for_task
    phodex.Tasks.invalidate_usage phodex.Orchestrator.handle_approval phodex.Orchestrator.grant
    phodex.Tasks.get_status phodex.Orchestrator.Runtime.write_state
grants = refl

decided_once_example : (e : Error) × (decide codex false 2 30 none replied_to ≡ (err e, replied_to))
decided_once_example =
    decided_once codex codex-Lawful 30 1 none world (refl, tt) true granted_row grants replied_to
      (next (replied 1 20 "Go on" refl) (done replied_to)) (tt, tt) false 2 none
