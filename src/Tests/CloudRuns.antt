-- ===== src/Tests/CloudRuns.antt =====
-- Runs of the theorems on cloud repositories.
use Prim.Native.String as S
use mathlib.Core.List.{Mem}
use phodex.Base.{
  All, ◌⊎◌, ℕ, String, ◌≡◌, refl, true, false, Option, none, some, List, [], ◌∷◌, arith, strip,
}
use phodex.Json.{pos, str, end, field}
use phodex.Models.{SyncedRepository}
use phodex.World.{World, ok, err, conflict}
use phodex.Subprocess.{Run, stdout}
use phodex.Git.Frame.{IsQuiet}
use phodex.Cloud.Url.{
  RepoSource, Texts, parse_repo_source, url_error, find_source, match_github, match_short,
}
use phodex.Cloud.Setup.{Cloud}
use phodex.Cloud.{
  with_source, find_repo, prepare_for_task, resolve_git_env, reset_workspace, connect_repository,
  connect_source, is_restricted, demo_error,
}
use phodex.Cloud.Hooks.{with_hooks, hooks_lem}
use phodex.Cloud.Access.{connect_repository_outcome, Names}
use phodex.Cloud.Single.{IsSingle, connect_repository-IsSingle}
use phodex.Cloud.Spelling.{IsGithub, parse_repo_source_lem}
use phodex.Tests.Samples.{world, ada, library}
use phodex.Tests.GitOps.{git}

abbrev texts : Texts
texts = record { is_word = λ c. false; lower = λ s. s; locate = λ s. none }

-- git succeeds and prints the branch
abbrev fine : Run
fine = record {
  pid = 9;
  lines = record { source = stdout; text = "main" } ∷ [];
  in_time = true;
  exit_code = pos 0;
}

abbrev cloud : Cloud
cloud = record {
  runner_name = "Phodex Cloud";
  workspaces_root = "/srv";
  allow_local_git_urls = false;
  github_default_token = none;
  git_author_name = "Phodex Cloud";
  git_author_email = "cloud@example.org";
  demo_repo_allowlist_urls = "https://github.com/acme/demo" ∷ [];
  secrets = record { key = "k"; encrypt = λ k n s. s; decrypt = λ k s. some s };
  host = λ c w. ok fine;
  environ = [];
  is_dir = λ w s. false;
  make_dirs = λ w s. ok tt;
  path = λ s. s;
  join_path = λ a b. S.◌++◌ a (S.◌∷◌ "/" b);
  parent = λ s. s;
  int_str = λ n. "0";
  json_str = λ j. "";
  texts = texts;
}

parse_short :
    parse_repo_source texts " acme/demo.git " false
    ≡ some (record { url = "https://github.com/acme/demo.git"; owner = "acme"; name = "demo" })
unfolding parse_repo_source strip find_source match_github match_short
parse_short = refl

parse_demo :
    parse_repo_source texts "github.com/acme/demo/" false
    ≡ some (record { url = "https://github.com/acme/demo.git"; owner = "acme"; name = "demo" })
unfolding parse_repo_source strip find_source match_github match_short
parse_demo = refl

-- a url without a repository is taken for the owner `github.com`
parse_half :
    parse_repo_source texts "github.com/acme" false
    ≡ some (record {
      url = "https://github.com/github.com/acme.git";
      owner = "github.com";
      name = "acme";
    })
unfolding parse_repo_source strip find_source match_github match_short
parse_half = refl

parse_repo_source_lem_example :
    IsGithub texts
      (record { url = "https://github.com/acme/demo.git"; owner = "acme"; name = "demo" })
    × ((allow_local : phodex.Base.Bool)
        → parse_repo_source texts "https://github.com/acme/demo.git" allow_local
          ≡ some
              (record { url = "https://github.com/acme/demo.git"; owner = "acme"; name = "demo" }))
parse_repo_source_lem_example = parse_repo_source_lem texts "github.com/acme/demo/" _ parse_demo

abbrev cloned : SyncedRepository
cloned = record library {
  id = 11;
  user_id = 1;
  git_root = "/srv/id/acme__demo";
  metadata_json =
      field "source" (str "github") (field "url" (str "https://github.com/acme/demo.git") end);
}

abbrev with_clone : World
with_clone = record world { db = record world.db { repositories = library ∷ cloned ∷ [] } }

abbrev restricted : World
restricted = record world {
  settings = record world.settings { demo_account_email = some "ada@example.org" };
}

hooks_lem_example :
    IsQuiet (with_hooks cloud git)
    × ((prepare_for_task cloud 1 "/srv/id/acme__demo" with_clone).1.db ≡ with_clone.db)
    × ((resolve_git_env cloud 1 "/srv/id/acme__demo" with_clone).1.db ≡ with_clone.db)
    × ((reset_workspace cloud 1 "/srv/id/acme__demo" with_clone).1.db ≡ with_clone.db)
    × (with_source cloud (find_repo 1 "/srv/id/acme__demo" with_clone.db) ≡ none
        → (prepare_for_task cloud 1 "/srv/id/acme__demo" with_clone ≡ (ok tt, with_clone))
          × (resolve_git_env cloud 1 "/srv/id/acme__demo" with_clone ≡ (ok none, with_clone))
          × (reset_workspace cloud 1 "/srv/id/acme__demo" with_clone ≡ (ok false, with_clone)))
hooks_lem_example = hooks_lem cloud git 1 "/srv/id/acme__demo" with_clone

world-IsSingle : IsSingle world.db
world-IsSingle = record { runner = λ u. ground arith; workspace = λ u d path. ground arith }

connect_repository-IsSingle_example :
    IsSingle (connect_repository cloud ada "acme/demo" none none world).1.db
connect_repository-IsSingle_example =
    connect_repository-IsSingle cloud ada "acme/demo" none none world world-IsSingle

connect_repository_outcome_example :
    let parsed = parse_repo_source texts "acme/other" false in
    let connected = connect_repository cloud ada "acme/other" none none restricted in
    ((parsed ≡ none) × (connected ≡ (err (conflict url_error), restricted)))
    ⊎ ((source : RepoSource) × (parsed ≡ some source)
        × (((is_restricted cloud (some "ada@example.org") ada ≡ true)
              × All (λ item. ¬ Names cloud source item) ("https://github.com/acme/demo" ∷ [])
              × (connected ≡ (err demo_error, restricted)))
            ⊎ ((is_restricted cloud (some "ada@example.org") ada ≡ true
                  → (item : String) × Mem item ("https://github.com/acme/demo" ∷ [])
                    × Names cloud source item)
                × (connected ≡ connect_source cloud ada source none none restricted))))
connect_repository_outcome_example =
    connect_repository_outcome cloud ada "acme/other" none none restricted
