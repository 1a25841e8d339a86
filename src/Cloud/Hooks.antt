-- ===== src/Cloud/Hooks.antt =====
-- What the hooks of backend/app/services/cloud_repo_service.py do to the tables, and to a repository that
-- is not of the cloud.
use mathlib.Core.Path.{subst}
use phodex.Base.{ℕ, String, ◌≡◌, refl, Bool, true, false, Option, none, some, List, [], ◌∷◌, ap}
use phodex.Models.{SyncedRepository}
use phodex.World.{World, Exec, ok, pure, gets, query, ◌>>=◌, ◌>>◌}
use phodex.World.Keeps.{
  Keeps, SameDb, SameDb-refl, SameDb-trans, bind-Keeps, attempt-Keeps, when-Keeps, if-Keeps,
}
use phodex.Subprocess.{Variable}
use phodex.Git.{Git, resolve_env}
use phodex.Git.Review.{SameRows}
use phodex.Git.Frame.{IsQuiet}
use phodex.Cloud.Url.{RepoSource}
use phodex.Cloud.Setup.{Cloud, git_env, resolve_token}
use phodex.Cloud.Commands.{git, is_clean, has_git, ignore_failure}
use phodex.Cloud.Quiet.{
  git-Quiet, is_clean-Quiet, ignore_failure-Quiet, clone_or_update-Quiet, resolve_token-Quiet,
}
use phodex.Cloud.{
  find_repo, with_source, hook_env, refresh_workspace, prepare_workspace, prepare_for_task, env_of,
  resolve_git_env, reset_tree, reset_found, reset_workspace,
}

abbrev bind :
    {A B : Type 0} (m : Exec A) (f : A → Exec B)
    → Keeps SameDb m
    → ((a : A) → Keeps SameDb (f a))
    → Keeps SameDb (m >>= f)
bind = bind-Keeps SameDb SameDb-refl SameDb-trans

-- the git service with the hooks of the cloud
abbrev pub with_hooks : Cloud → Git → Git
with_hooks c g = record g {
  env_resolver = some (resolve_git_env c);
  discard_hook = some (reset_workspace c);
}

module _ (c : Cloud) where
  hook_env-Quiet : (user_id : ℕ) → Keeps SameDb (hook_env c user_id)
  unfolding hook_env
  hook_env-Quiet user_id w =
      bind (resolve_token c user_id) _ (resolve_token-Quiet c user_id) (λ _ _. refl) w

  fetch-Quiet :
      (path : String) (env : List Variable)
      → Keeps SameDb (do
        git c path ("fetch" ∷ "--prune" ∷ "origin" ∷ []) env 120
        clean ← is_clean c path env
        phodex.World.when clean (git c path ("pull" ∷ "--ff-only" ∷ []) env 120))
  fetch-Quiet path env =
      bind (git c path ("fetch" ∷ "--prune" ∷ "origin" ∷ []) env 120) _ (git-Quiet c path _ env 120)
        (λ _. bind (is_clean c path env) _ (is_clean-Quiet c path env) (λ clean.
          when-Keeps SameDb SameDb-refl SameDb-trans clean _ (git-Quiet c path _ env 120)))

  refresh_workspace-Quiet :
      (path : String) (source : RepoSource) (branch : Option String) (env : List Variable)
      → Keeps SameDb (refresh_workspace c path source branch env)
  unfolding refresh_workspace
  refresh_workspace-Quiet path source branch env w =
      if-Keeps SameDb SameDb-refl SameDb-trans (phodex.Base.not (has_git c path w)) _ _
        (clone_or_update-Quiet c path source branch env) (fetch-Quiet path env) w

  prepare_workspace-Quiet :
      (user_id : ℕ) (path : String) (found : Option (SyncedRepository × RepoSource))
      → Keeps SameDb (prepare_workspace c user_id path found)
  unfolding prepare_workspace
  prepare_workspace-Quiet user_id path none = λ w. refl
  prepare_workspace-Quiet user_id path (some (repo, source)) =
      bind (hook_env c user_id) _ (hook_env-Quiet user_id) (λ env.
        attempt-Keeps SameDb SameDb-refl SameDb-trans _ ignore_failure
          (refresh_workspace-Quiet (c.path path) source repo.current_branch env)
          (ignore_failure-Quiet c))

  env_of-Quiet :
      (user_id : ℕ) (found : Option (SyncedRepository × RepoSource))
      → Keeps SameDb (env_of c user_id found)
  unfolding env_of
  env_of-Quiet user_id none = λ w. refl
  env_of-Quiet user_id (some _) = bind (hook_env c user_id) _ (hook_env-Quiet user_id) (λ _ _. refl)

  reset_found-Quiet :
      (path : String) (found : Option (SyncedRepository × RepoSource))
      → Keeps SameDb (reset_found c path found)
  unfolding reset_found reset_tree
  reset_found-Quiet path none = λ w. refl
  reset_found-Quiet path (some _) = λ w.
      if-Keeps SameDb SameDb-refl SameDb-trans (phodex.Base.not (has_git c path w)) (pure false) _
        (λ _. refl)
        (bind (git c path ("checkout" ∷ "--" ∷ "." ∷ []) (git_env c none none none) 120) _
          (git-Quiet c path _ _ 120)
          (λ _.
            bind (git c path ("clean" ∷ "-fd" ∷ []) (git_env c none none none) 120) _
              (git-Quiet c path _ _ 120) (λ _ _. refl)))
        w

  same_rows : (w w' : World) → w'.db ≡ w.db → SameRows w w'
  same_rows w w' e = record {
    operations = ap (λ db. db.git_operations) e;
    tasks = ap (λ db. db.tasks) e;
  }

  abbrev HookKeeps : Option (ℕ → String → Exec Bool) → ℕ → String → World → Type 0
  HookKeeps none u p v = Unit
  HookKeeps (some h) u p v = SameRows v (h u p v).1

  -- The hooks of the cloud keep the contract that the git service relies on. None of them changes a
  -- table; and for a path that is no cloud workspace of the user none does anything at all: nothing is
  -- prepared, the environment stays that of the server, and no tree is reset.
  pub hooks_lem :
      (g : Git) (user_id : ℕ) (path : String) (w : World)
      → IsQuiet (with_hooks c g)
        × ((prepare_for_task c user_id path w).1.db ≡ w.db)
        × ((resolve_git_env c user_id path w).1.db ≡ w.db)
        × ((reset_workspace c user_id path w).1.db ≡ w.db)
        × (with_source c (find_repo user_id path w.db) ≡ none
            → (prepare_for_task c user_id path w ≡ (ok tt, w))
              × (resolve_git_env c user_id path w ≡ (ok none, w))
              × (reset_workspace c user_id path w ≡ (ok false, w)))
  unfolding prepare_for_task resolve_git_env reset_workspace resolve_env
  hooks_lem g user_id path w = (
    record {
      resolver = λ u p v. same_rows v _ (env_of-Quiet u (with_source c (find_repo u p v.db)) v);
      hook = λ f is u p v.
          subst (λ h. HookKeeps h u p v) is
            (same_rows v _ (reset_found-Quiet (c.path p) (with_source c (find_repo u p v.db)) v));
    },
    prepare_workspace-Quiet user_id path (with_source c (find_repo user_id path w.db)) w,
    env_of-Quiet user_id (with_source c (find_repo user_id path w.db)) w,
    reset_found-Quiet (c.path path) (with_source c (find_repo user_id path w.db)) w,
    λ local. (rw local refl, rw local refl, rw local refl),
  )
