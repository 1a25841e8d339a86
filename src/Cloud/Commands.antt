-- ===== src/Cloud/Commands.antt =====
-- The git commands of backend/app/services/cloud_repo_service.py, and what clones or updates a workspace.
use phodex.Base.{
  ℕ, suc, String, Bool, false, not, Option, none, some, List, [], ◌∷◌, ◌++◌, if◌then◌else◌,
  is_empty, strip, join, concat, last_part,
}
use phodex.Json.{is_zero}
use phodex.World.{
  World, Result, ok, err, Exec, git_command_failed, attempt, pure, raise, gets, when, ◌>>=◌, ◌>>◌,
}
use phodex.Subprocess.{Variable, Command, Run, is_stderr, spawn, wait}
use phodex.Git.{scrub, token_of, take_last, heard, is_stdout}
use phodex.Cloud.Url.{RepoSource}
use phodex.Cloud.Setup.{Cloud}

-- what the `except` of `_detect_default_branch` and the test behind it make of the output
unfoldable pub branch_of : Result String → Exec (Option String)
branch_of (ok ref) = pure (if is_empty ref then none else some (last_part ref))
branch_of (err (git_command_failed e)) = pure none
branch_of (err e) = raise e

-- `except GitCommandFailedError` that only logs
unfoldable pub ignore_failure : Result (Unit {0}) → Exec (Unit {0})
ignore_failure (ok _) = pure tt
ignore_failure (err (git_command_failed e)) = pure tt
ignore_failure (err e) = raise e

-- scrub_secrets
unfoldable pub scrub_secrets : String → List String → String
scrub_secrets = scrub

abbrev raise_some : Option String → Exec (Unit {0})
raise_some none = pure tt
raise_some (some error) = raise (git_command_failed error)

module _ (c : Cloud) where
  -- `env.get(GIT_TOKEN_ENV, "")`
  abbrev pub secrets_in : List Variable → List String
  secrets_in env = token_of env ∷ []

  -- `"\n".join(stderr[-10:])`, scrubbed
  abbrev pub detail : List Variable → Run → String
  detail env run =
      scrub_secrets (join "\n" (take_last 10 (heard is_stderr run.lines))) (secrets_in env)

  -- the text of the exception of `_run`, if it raises one
  abbrev pub run_error : List String → List Variable → Run → Option String
  run_error args env run =
      let code = c.int_str run.exit_code in
      let d = detail env run in
      if not run.in_time
      then some (concat ("git " ∷ join " " args ∷ " timed out" ∷ []))
      else if is_zero run.exit_code
      then none
      else some (
          concat (
            "git "
            ∷ join " " args
            ∷ " failed: "
            ∷ (if is_empty d then concat ("exit code " ∷ code ∷ []) else d)
            ∷ []))

  abbrev pub git_command : String → List String → List Variable → ℕ → Command
  git_command cwd args env timeout_seconds = record {
    args = "git" ∷ args;
    cwd = some cwd;
    use_stdin = false;
    env = some env;
    timeout_seconds = timeout_seconds;
  }

  -- CloudRepoService._run, of which only the standard output is used
  unfoldable pub run_git : String → List String → List Variable → ℕ → Exec String
  unfolding spawn wait
  run_git cwd args env timeout_seconds = do
    run ← spawn c.host (git_command cwd args env timeout_seconds)
    wait (λ line source. pure tt) run
    raise_some (run_error args env run)
    pure (join "\n" (heard is_stdout run.lines))

  -- CloudRepoService._git_output
  unfoldable pub git_output : String → List String → List Variable → Exec String
  git_output cwd args env = do stdout ← run_git cwd args env 60; pure (strip stdout)

  -- CloudRepoService._git
  unfoldable pub git : String → List String → List Variable → ℕ → Exec (Unit {0})
  git cwd args env timeout_seconds = do run_git cwd args env timeout_seconds; pure tt

  -- CloudRepoService._is_clean
  unfoldable pub is_clean : String → List Variable → Exec Bool
  is_clean workdir env = do
    status ← git_output workdir ("status" ∷ "--porcelain" ∷ []) env
    pure (is_empty status)

  -- CloudRepoService._detect_default_branch
  unfoldable pub detect_default_branch : String → List Variable → Exec (Option String)
  unfolding branch_of
  detect_default_branch workdir env =
      attempt (git_output workdir ("symbolic-ref" ∷ "refs/remotes/origin/HEAD" ∷ []) env) branch_of

  -- the `except` of `_checkout_branch`
  unfoldable pub check_out_new :
      String → String → List Variable → Result (Unit {0}) → Exec (Unit {0})
  check_out_new workdir branch env (ok _) = pure tt
  check_out_new workdir branch env (err (git_command_failed e)) =
      git workdir ("checkout" ∷ "-B" ∷ branch ∷ concat ("origin/" ∷ branch ∷ []) ∷ []) env 120
  check_out_new workdir branch env (err e) = raise e

  -- CloudRepoService._checkout_branch
  unfoldable pub checkout_branch : String → String → List Variable → Exec (Unit {0})
  checkout_branch workdir branch env =
      attempt (git workdir ("checkout" ∷ branch ∷ []) env 120) (check_out_new workdir branch env)

  -- `if branch: ...`
  abbrev pub branch_given : Option String → Option String
  branch_given none = none
  branch_given (some s) = if is_empty s then none else some s

  unfoldable pub checkout_given : String → Option String → List Variable → Exec (Unit {0})
  checkout_given workdir none env = pure tt
  checkout_given workdir (some branch) env = checkout_branch workdir branch env

  abbrev pub clone_args : Option String → List String
  clone_args none = "clone" ∷ []
  clone_args (some branch) = "clone" ∷ "--branch" ∷ branch ∷ []

  abbrev pub has_git : String → World → Bool
  has_git workdir w = c.is_dir w (c.join_path workdir ".git")

  -- `workdir.parent.mkdir(parents=True, exist_ok=True)`
  unfoldable pub make_parent : String → Exec (Unit {0})
  make_parent workdir w = (c.make_dirs w (c.parent workdir), record w { calls = suc w.calls })

  -- CloudRepoService._clone_or_update: the branch for a workspace that is there
  unfoldable pub update_workspace : String → Option String → List Variable → Exec (Unit {0})
  unfolding ignore_failure
  update_workspace workdir branch env = do
    git workdir ("fetch" ∷ "--prune" ∷ "origin" ∷ []) env 120
    checkout_given workdir (branch_given branch) env
    clean ← is_clean workdir env
    when clean (attempt (git workdir ("pull" ∷ "--ff-only" ∷ []) env 120) ignore_failure)

  -- CloudRepoService._clone_or_update: the rest
  unfoldable pub clone_workspace :
      String → RepoSource → Option String → List Variable → Exec (Unit {0})
  clone_workspace workdir source branch env = do
    make_parent workdir
    git (c.parent workdir) (clone_args (branch_given branch) ++ source.url ∷ workdir ∷ []) env 600

  -- CloudRepoService._clone_or_update
  unfoldable pub clone_or_update :
      String → RepoSource → Option String → List Variable → Exec (Unit {0})
  clone_or_update workdir source branch env = do
    present ← gets (has_git workdir)
    if present
        then update_workspace workdir branch env
        else clone_workspace workdir source branch env
