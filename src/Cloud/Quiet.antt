-- ===== src/Cloud/Quiet.antt =====
-- What runs git in a workspace changes no table.
use phodex.Base.{
  arith, ℕ, suc, String, refl, Option, none, some, List, [], ◌∷◌, is_empty, strip, Option-cases,
  inl, inr,
}
use phodex.World.{World, Exec, Result, ok, err, git_command_failed, Result-cases, pure, ◌>>=◌}
use phodex.World.Keeps.{
  Keeps, SameDb, SameDb-refl, SameDb-trans, bind-Keeps, attempt-Keeps, when-Keeps, if-Keeps,
}
use phodex.Subprocess.{Variable, spawn, wait, both}
use phodex.Subprocess.Rounds.{consume_rounds}
use phodex.Cloud.Url.{RepoSource}
use phodex.Cloud.Setup.{Cloud, resolve_token}
use phodex.Cloud.Commands.{
  run_git, git, git_output, is_clean, git_command, run_error, ignore_failure, branch_of,
  detect_default_branch, check_out_new, checkout_branch, checkout_given, branch_given, make_parent,
  update_workspace, clone_workspace, clone_or_update, has_git,
}

abbrev Quiet : {A : Type 0} → Exec A → Type 0
Quiet m = Keeps SameDb m

abbrev bind :
    {A B : Type 0} (m : Exec A) (f : A → Exec B)
    → Quiet m
    → ((a : A) → Quiet (f a))
    → Quiet (m >>= f)
bind = bind-Keeps SameDb SameDb-refl SameDb-trans

abbrev try :
    {A B : Type 0} (m : Exec A) (f : Result A → Exec B)
    → Quiet m
    → ((r : Result A) → Quiet (f r))
    → (w : World) → SameDb w (f (m w).0 (m w).1).1
try = attempt-Keeps SameDb SameDb-refl SameDb-trans

module _ (c : Cloud) where
  pub run_git-Quiet :
      (cwd : String) (args : List String) (env : List Variable) (t : ℕ)
      → Keeps SameDb (run_git c cwd args env t)
  unfolding run_git spawn wait
  run_git-Quiet cwd args env t w = elim (Result-cases (c.host (git_command c cwd args env t) w)) [
    | inl (run, started) ↦
        let same =
          consume_rounds (λ line source. pure tt) SameDb SameDb-refl SameDb-trans
            (λ line source w. refl) run.lines both (record w { calls = suc w.calls }) in
        rw started (elim (Option-cases (run_error c args env run)) [
          | inl fine ↦ rw fine same
          | inr (e, failed) ↦ rw failed same
        ])
    | inr (e, missing) ↦ rw missing refl
  ]

  pub git-Quiet :
      (cwd : String) (args : List String) (env : List Variable) (t : ℕ)
      → Keeps SameDb (git c cwd args env t)
  unfolding git
  git-Quiet cwd args env t =
      bind (run_git c cwd args env t) (λ _. pure tt) (run_git-Quiet cwd args env t) (λ _ w. refl)

  pub git_output-Quiet :
      (cwd : String) (args : List String) (env : List Variable)
      → Keeps SameDb (git_output c cwd args env)
  unfolding git_output
  git_output-Quiet cwd args env =
      bind (run_git c cwd args env 60) (λ s. pure (strip s)) (run_git-Quiet cwd args env 60)
        (λ _ w. refl)

  pub is_clean-Quiet : (cwd : String) (env : List Variable) → Keeps SameDb (is_clean c cwd env)
  unfolding is_clean
  is_clean-Quiet cwd env =
      bind (git_output c cwd ("status" ∷ "--porcelain" ∷ []) env) (λ s. pure (is_empty s))
        (git_output-Quiet cwd _ env) (λ _ w. refl)

  pub ignore_failure-Quiet : (r : Result (Unit {0})) → Keeps SameDb (ignore_failure r)
  unfolding ignore_failure
  ignore_failure-Quiet r w = ground arith

  branch_of-Quiet : (r : Result String) → Keeps SameDb (branch_of r)
  unfolding branch_of
  branch_of-Quiet r w = ground arith

  pub detect_default_branch-Quiet :
      (cwd : String) (env : List Variable) → Keeps SameDb (detect_default_branch c cwd env)
  unfolding detect_default_branch
  detect_default_branch-Quiet cwd env =
      try (git_output c cwd ("symbolic-ref" ∷ "refs/remotes/origin/HEAD" ∷ []) env) branch_of
        (git_output-Quiet cwd _ env) branch_of-Quiet

  check_out_new-Quiet :
      (cwd branch : String) (env : List Variable) (r : Result (Unit {0}))
      → Keeps SameDb (check_out_new c cwd branch env r)
  unfolding check_out_new
  check_out_new-Quiet cwd branch env (ok _) = λ w. refl
  check_out_new-Quiet cwd branch env (err (git_command_failed e)) = git-Quiet cwd _ env 120
  check_out_new-Quiet cwd branch env (err e) = λ w. refl

  checkout_given-Quiet :
      (cwd : String) (branch : Option String) (env : List Variable)
      → Keeps SameDb (checkout_given c cwd branch env)
  unfolding checkout_given checkout_branch
  checkout_given-Quiet cwd none env = λ w. refl
  checkout_given-Quiet cwd (some branch) env =
      try (git c cwd ("checkout" ∷ branch ∷ []) env 120) (check_out_new c cwd branch env)
        (git-Quiet cwd _ env 120) (check_out_new-Quiet cwd branch env)

  pub pull-Quiet :
      (cwd : String) (env : List Variable)
      → Keeps SameDb (git c cwd ("pull" ∷ "--ff-only" ∷ []) env 120)
  pull-Quiet cwd env = git-Quiet cwd _ env 120

  update_workspace-Quiet :
      (cwd : String) (branch : Option String) (env : List Variable)
      → Keeps SameDb (update_workspace c cwd branch env)
  unfolding update_workspace
  update_workspace-Quiet cwd branch env =
      bind (git c cwd ("fetch" ∷ "--prune" ∷ "origin" ∷ []) env 120) _ (git-Quiet cwd _ env 120)
        (λ _.
          bind (checkout_given c cwd (branch_given c branch) env) _
            (checkout_given-Quiet cwd (branch_given c branch) env)
            (λ _. bind (is_clean c cwd env) _ (is_clean-Quiet cwd env) (λ clean.
              when-Keeps SameDb SameDb-refl SameDb-trans clean _ (
                try (git c cwd ("pull" ∷ "--ff-only" ∷ []) env 120) ignore_failure
                  (pull-Quiet cwd env) ignore_failure-Quiet))))

  pub clone_or_update-Quiet :
      (cwd : String) (source : RepoSource) (branch : Option String) (env : List Variable)
      → Keeps SameDb (clone_or_update c cwd source branch env)
  unfolding clone_or_update clone_workspace make_parent
  clone_or_update-Quiet cwd source branch env w =
      if-Keeps SameDb SameDb-refl SameDb-trans (has_git c cwd w) (update_workspace c cwd branch env)
        (clone_workspace c cwd source branch env) (update_workspace-Quiet cwd branch env)
        (bind (make_parent c cwd) _ (λ _. refl) (λ _. git-Quiet (c.parent cwd) _ env 600)) w

  pub resolve_token-Quiet : (user_id : ℕ) → Keeps SameDb (resolve_token c user_id)
  unfolding resolve_token
  resolve_token-Quiet user_id w = ground arith
