-- ===== src/Tests/GitOps.antt =====
-- Runs of the theorems on git operations.
use phodex.Base.{
  ℕ, String, ◌⊎◌, ◌==◌, if◌then◌else◌, ◌≡◌, refl, true, Option, none, some, List, [], ◌∷◌, strip,
}
use phodex.Json.{pos}
use phodex.Models.{GitOperation, GitOperationStatus}
use phodex.World.{Result, World, Error, ok, err}
use phodex.Events.Adds.{Adds}
use phodex.Subprocess.{Variable, Run, stderr}
use phodex.Git.{Git, confirm, run_git_streamed, scrub, resolve_env}
use phodex.Git.Secrets.{IsCleanLog, run_git_streamed-Adds}
use phodex.Git.Review.{IsOpen}
use phodex.Git.Frame.{IsQuiet}
use phodex.Git.Review.{find_operation}
use phodex.Git.Outcome.{IsPushed, Ended, confirm_outcome}
use phodex.Git.Decision.{decide, decide_once, confirmed, discarded}
use phodex.Git.Verdict.{confirm_verdict, first_error, branch}
use phodex.Tests.Samples.{world}

-- a command that prints the token
abbrev run : Run
run = record {
  pid = 7;
  lines = record { source = stderr; text = "remote: ghs_1 accepted" } ∷ [];
  in_time = true;
  exit_code = pos 0;
}

abbrev token : Option (List Variable)
token = some (record { name = "PHODEX_GIT_TOKEN"; value = "ghs_1" } ∷ [])

abbrev pub git : Git
git = record {
  host = λ c w. ok run;
  env_resolver = some (λ user_id path w. (ok token, w));
  discard_hook = none;
  int_str = λ n. "0";
}

git-IsQuiet : IsQuiet git
unfolding resolve_env
git-IsQuiet = record {
  resolver = λ u path w. record { operations = refl; tasks = refl };
  hook = λ f same. absurd (cc);
}

scrub_example : scrub "remote: ghs_1 accepted" ("ghs_1" ∷ []) ≡ "remote: *** accepted"
unfolding scrub
scrub_example = refl

run_git_streamed-Adds_example :
    Adds
      (IsCleanLog 20 ("add" ∷ "-A" ∷ []) ("ghs_1" ∷ []))
      world
      (run_git_streamed git 20 "/repo" ("add" ∷ "-A" ∷ []) token ("ghs_1" ∷ []) world).1
run_git_streamed-Adds_example =
    run_git_streamed-Adds git 20 "/repo" ("add" ∷ "-A" ∷ []) token ("ghs_1" ∷ []) world

abbrev operation : GitOperation
operation = record {
  id = 50;
  task_id = 20;
  repo_path = "/repo";
  commit_message = "Phodex: Fix the build";
  status = GitOperationStatus.pending_review;
  status_output = some "M a.py";
  diff_stat_output = some "1 file changed";
  pushed_branch = none;
  error_message = none;
}

abbrev reviewed : World
reviewed = record world { db = record world.db { git_operations = operation ∷ [] } }

opened : IsOpen 1 20 operation reviewed.db
opened = record { of_task = refl; owned = refl; waiting = refl }

confirm_outcome_example :
    let (returned, w') = confirm git 1 20 50 (some "Fix it") reviewed in
    (op' : GitOperation) × ((j : ℕ)
      → find_operation j w'.db ≡ (if 50 == j then some op' else find_operation j reviewed.db))
    × (op'.commit_message ≡ "Fix it")
    × (((r : Result String) × IsPushed git git-IsQuiet 1 20
            (record operation { commit_message = "Fix it" })
            r
          × Ended op' r returned)
        ⊎ ((e : Error) × ((u : World) × ((resolve_env git.env_resolver 1 "/repo" u).0 ≡ err e))
            × (op'.status ≡ GitOperationStatus.running)
            × (returned ≡ err e)))
unfolding strip
confirm_outcome_example =
    confirm_outcome git git-IsQuiet 1 20 reviewed (refl, tt) operation refl opened (some "Fix it")

decide_once_example :
    let w' = (decide git (confirmed none) 1 20 50 reviewed).1 in
    (e : Error) × (decide git discarded 1 20 50 w' ≡ (err e, w'))
decide_once_example =
    decide_once git git-IsQuiet 1 20 reviewed (refl, tt) operation refl opened (confirmed none)
      discarded 1 20

confirm_verdict_example :
    (op' : GitOperation) × ((confirm git 1 20 50 none reviewed).0 ≡ ok op')
    × (first_error git (λ c. run) (λ c v. refl) "/repo" "Phodex: Fix the build" token ≡ none
        → (op'.status ≡ GitOperationStatus.completed)
          × (op'.pushed_branch
              ≡ some (branch git (λ c. run) (λ c v. refl) "/repo" "Phodex: Fix the build" token)))
    × ((e : String)
        → first_error git (λ c. run) (λ c v. refl) "/repo" "Phodex: Fix the build" token ≡ some e
        → (op'.status ≡ GitOperationStatus.failed) × (op'.error_message ≡ some e))
unfolding resolve_env
confirm_verdict_example =
    confirm_verdict git git-IsQuiet (λ c. run) (λ c v. refl) 1 20 reviewed (refl, tt) operation refl
      opened token (λ v. refl) none
