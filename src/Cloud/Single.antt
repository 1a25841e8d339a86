-- ===== src/Cloud/Single.antt =====
-- The rows of the server's device and of a cloud workspace are not doubled.
use phodex.Base.{
  is_some, ℕ, suc, ◌≤◌, String, ◌≡◌, refl, sym, ap, Bool, true, Option, none, some, List, [], ◌∷◌,
  arith, eq_iff, Option-cases, inl, inr, count_rows, first_row, count_rows-set_row, count_rows-none,
  count_rows_append_le,
}
use phodex.Models.{UserAiSettings, User, Device, SyncedRepository}
use phodex.World.{World, Db, Exec, pure, gets, ◌>>=◌, ◌>>◌}
use phodex.World.Keeps.{Keeps, SameDb, bind-Keeps, when-Keeps}
use phodex.AiSettings.{set_github_token, new_token, row_of, save}
use phodex.Subprocess.{Variable}
use phodex.Cloud.Url.{RepoSource}
use phodex.Cloud.Setup.{Cloud, resolve_token, git_env}
use phodex.Cloud.Runner.{
  is_runner_of, online, new_runner, store_runner, get_runner_device, ensure_runner_device,
}
use phodex.Cloud.Commands.{clone_or_update, git_output, detect_default_branch}
use phodex.Cloud.Quiet.{
  resolve_token-Quiet, clone_or_update-Quiet, git_output-Quiet, detect_default_branch-Quiet,
}
use phodex.Cloud.{
  is_workspace_of, refreshed, new_repository, write_repository, store_repository, keep_token,
  is_given, connect_source, connect_repository, workspace_path, text_or,
}
use phodex.Cloud.Access.{connect_repository_outcome}

-- no user has two devices for the server, and no workspace of a device has two rows
pub record IsSingle (db : Db) : Type 0 where
  pub runner : (u : ℕ) → count_rows (is_runner_of u) db.devices ≤ 1
  pub workspace :
      (u d : ℕ) (path : String) → count_rows (is_workspace_of u d path) db.repositories ≤ 1

abbrev Kept : World → World → Type 0
Kept w w' = IsSingle w.db → IsSingle w'.db

kept_refl : (w : World) → Kept w w
kept_refl w h = h

kept_trans : (u v w : World) → Kept u v → Kept v w → Kept u w
kept_trans u v w p q h = q (p h)

-- an action that leaves both tables alone
kept_same :
    (w w' : World)
    → w'.db.devices ≡ w.db.devices
    → w'.db.repositories ≡ w.db.repositories
    → Kept w w'
kept_same w w' devices repositories h = record {
  runner = λ u. rw devices (h.runner u);
  workspace = λ u d path. rw repositories (h.workspace u d path);
}

kept_db : (w w' : World) → w'.db ≡ w.db → Kept w w'
kept_db w w' e = kept_same w w' (ap (λ db. db.devices) e) (ap (λ db. db.repositories) e)

abbrev bind :
    {A B : Type 0} (m : Exec A) (f : A → Exec B)
    → Keeps Kept m
    → ((a : A) → Keeps Kept (f a))
    → Keeps Kept (m >>= f)
bind = bind-Keeps Kept kept_refl kept_trans

-- an action that changes no table, before one that keeps the rows single
quiet_bind :
    {A B : Type 0} (m : Exec A) (f : A → Exec B)
    → Keeps SameDb m
    → ((a : A) → Keeps Kept (f a))
    → Keeps Kept (m >>= f)
quiet_bind m f h = bind m f (λ w. kept_db w (m w).1 (h w))

alone :
    (name : String) (user_id u id seen later : ℕ) (ds : List Device)
    → first_row (is_runner_of user_id) ds ≡ none
    → is_runner_of u (new_runner name user_id id seen later) ≡ true
    → count_rows (is_runner_of u) ds ≡ 0
alone name user_id u id seen later ds none_yet its =
    let e : user_id ≡ u = ground arith in
    rw (sym e) (count_rows-none (is_runner_of user_id) ds none_yet)

store_runner-Kept :
    (name : String) (user_id : ℕ) (w : World)
    → Kept w (store_runner name user_id (first_row (is_runner_of user_id) w.db.devices) w).1
unfolding store_runner
store_runner-Kept name user_id w h =
    elim (Option-cases (first_row (is_runner_of user_id) w.db.devices)) [
      | inl none_yet ↦
          let d =
            new_runner name user_id (w.env.uuid (suc w.calls)) (w.env.now w.calls)
              (w.env.now (suc (suc w.calls))) in
          rw none_yet (record {
            runner = λ u.
                count_rows_append_le (is_runner_of u) w.db.devices d (h.runner u) (
                  alone name user_id u d.id (w.env.now w.calls) d.updated_at w.db.devices none_yet);
            workspace = h.workspace;
          })
      | inr (d, found) ↦ rw found (record {
        runner = λ u.
            rw
              (count_rows-set_row (is_runner_of u) (λ (x : Device). x.id) d.id
                (online (w.env.now w.calls) (w.env.now (suc w.calls))) w.db.devices (λ x. refl))
              (h.runner u);
        workspace = h.workspace;
      })
    ]

ensure-Kept : (name : String) (user_id : ℕ) → Keeps Kept (ensure_runner_device name user_id)
unfolding ensure_runner_device get_runner_device
ensure-Kept name user_id w = store_runner-Kept name user_id w

alone_workspace :
    (user_id device_id u d : ℕ) (workdir path : String) (r : SyncedRepository)
    → is_workspace_of user_id device_id workdir r ≡ true
    → (rs : List SyncedRepository) → first_row (is_workspace_of user_id device_id workdir) rs ≡ none
    → is_workspace_of u d path r ≡ true
    → count_rows (is_workspace_of u d path) rs ≡ 0
alone_workspace user_id device_id u d workdir path r own rs none_yet its =
    let users : user_id ≡ u = ground arith in
    let devices : device_id ≡ d = ground arith in
    let paths : workdir ≡ path =
      ground (arith, eq_iff r.git_root workdir, eq_iff r.git_root path) in
    rw (sym users) (
      rw (sym devices)
        (rw (sym paths) (count_rows-none (is_workspace_of user_id device_id workdir) rs none_yet)))

module _ (user_id device_id : ℕ) (workdir : String) (source : RepoSource) (current : String)
    (default : Option String) where
  own_workspace :
      (id now : ℕ)
      → is_workspace_of user_id device_id workdir
          (new_repository user_id device_id id workdir source current default now)
        ≡ true
  own_workspace id now = ground (arith, eq_iff workdir workdir)

  store_repository-Kept :
      Keeps Kept (store_repository user_id device_id workdir source current default)
  unfolding store_repository write_repository
  store_repository-Kept w h =
      elim (Option-cases
        (first_row (is_workspace_of user_id device_id workdir) w.db.repositories)) [
          | inl none_yet ↦
              let r =
                new_repository user_id device_id (w.env.uuid (suc w.calls)) workdir source current
                  default (w.env.now w.calls) in
              rw none_yet (record {
                runner = h.runner;
                workspace = λ u d path.
                    count_rows_append_le (is_workspace_of u d path) w.db.repositories r
                      (h.workspace u d path)
                      (alone_workspace user_id device_id u d workdir path r
                        (own_workspace r.id (w.env.now w.calls)) w.db.repositories none_yet);
              })
          | inr (r, found) ↦ rw found (record {
            runner = h.runner;
            workspace = λ u d path.
                rw
                  (count_rows-set_row (is_workspace_of u d path) (λ (x : SyncedRepository). x.id)
                    r.id (refreshed source current default (w.env.now w.calls)) w.db.repositories
                    (λ x. refl))
                  (h.workspace u d path);
          })
        ]

module _ (c : Cloud) where
  new_token-Kept : (given : Option String) → Keeps Kept (new_token c.secrets given)
  unfolding new_token
  new_token-Kept given w = kept_db w (new_token c.secrets given w).1 (ground arith)

  abbrev store_token : UserAiSettings → Option String → Exec Bool
  store_token row token = do
    save (record row { github_token_encrypted = token })
    pure (is_some token)

  set_github_token-Kept :
      (user_id : ℕ) (given : Option String) → Keeps Kept (set_github_token c.secrets user_id given)
  unfolding set_github_token row_of save
  set_github_token-Kept user_id given =
      bind (row_of user_id) (λ row. new_token c.secrets given >>= store_token row)
        (λ w h. record { runner = h.runner; workspace = h.workspace })
        (λ row.
          bind (new_token c.secrets given) (store_token row) (new_token-Kept given)
            (λ token w h. record { runner = h.runner; workspace = h.workspace }))

  keep_token-Kept : (user_id : ℕ) (given : Option String) → Keeps Kept (keep_token c user_id given)
  unfolding keep_token
  keep_token-Kept user_id given = when-Keeps Kept kept_refl kept_trans (is_given given) _ (
      bind (set_github_token c.secrets user_id given) _ (set_github_token-Kept user_id given)
        (λ _ w h. h))

  -- the branches are read and the row is written
  abbrev record_workspace :
      User → Device → String → RepoSource → List Variable → Exec SyncedRepository
  record_workspace user device workdir source env = do
    current_branch ← git_output c workdir ("rev-parse" ∷ "--abbrev-ref" ∷ "HEAD" ∷ []) env
    default_branch ← detect_default_branch c workdir env
    store_repository user.id device.id workdir source current_branch
        (some (text_or default_branch current_branch))

  record_workspace-Kept :
      (user : User) (device : Device) (workdir : String) (source : RepoSource) (env : List Variable)
      → Keeps Kept (record_workspace user device workdir source env)
  record_workspace-Kept user device workdir source env =
      quiet_bind {B = SyncedRepository}
        (git_output c workdir ("rev-parse" ∷ "--abbrev-ref" ∷ "HEAD" ∷ []) env)
        (λ current. detect_default_branch c workdir env >>= λ default.
          store_repository user.id device.id workdir source current
            (some (text_or default current)))
        (git_output-Quiet c workdir _ env)
        (λ current.
          quiet_bind {B = SyncedRepository} (detect_default_branch c workdir env)
            (λ default.
              store_repository user.id device.id workdir source current
                (some (text_or default current)))
            (detect_default_branch-Quiet c workdir env)
            (λ default.
              store_repository-Kept user.id device.id workdir source current
                (some (text_or default current))))

  -- the workspace is cloned or updated and recorded
  abbrev take_workspace :
      User → RepoSource → Option String → List Variable → Device → Exec SyncedRepository
  take_workspace user source branch env device = do
    workdir ← gets (workspace_path c user.id source)
    clone_or_update c workdir source branch env
    record_workspace user device workdir source env

  take_workspace-Kept :
      (user : User) (source : RepoSource) (branch : Option String) (env : List Variable)
      (device : Device)
      → Keeps Kept (take_workspace user source branch env device)
  take_workspace-Kept user source branch env device w =
      let workdir = workspace_path c user.id source w in
      quiet_bind {B = SyncedRepository} (clone_or_update c workdir source branch env)
        (λ _. record_workspace user device workdir source env)
        (clone_or_update-Quiet c workdir source branch env)
        (λ _. record_workspace-Kept user device workdir source env) w

  abbrev with_token :
      User → RepoSource → (branch : Option String) → Option String → Exec SyncedRepository
  with_token user source branch t =
      ensure_runner_device c.runner_name user.id
      >>= take_workspace user source branch (git_env c t (some user.name) (some user.email))

  connect_source-Kept :
      (user : User) (source : RepoSource) (branch token : Option String)
      → Keeps Kept (connect_source c user source branch token)
  unfolding connect_source
  connect_source-Kept user source branch token =
      bind {B = SyncedRepository} (keep_token c user.id token)
        (λ _. resolve_token c user.id >>= with_token user source branch)
        (keep_token-Kept user.id token)
        (λ _.
          quiet_bind {B = SyncedRepository} (resolve_token c user.id)
            (with_token user source branch) (resolve_token-Quiet c user.id)
            (λ t.
              let env = git_env c t (some user.name) (some user.email) in
              bind {B = SyncedRepository} (ensure_runner_device c.runner_name user.id)
                (take_workspace user source branch env) (ensure-Kept c.runner_name user.id)
                (take_workspace-Kept user source branch env)))

  -- Whatever is connected, and however that ends, no user comes to have two devices for the server,
  -- and no workspace of a device two rows.
  pub connect_repository-IsSingle :
      (user : User) (raw_url : String) (branch token : Option String) (w : World)
      → IsSingle w.db
      → IsSingle (connect_repository c user raw_url branch token w).1.db
  connect_repository-IsSingle user raw_url branch token w h =
      elim (connect_repository_outcome c user raw_url branch token w) [
        | inl (unknown, refused) ↦ rw refused h
        | inr (source, parsed, cases) ↦ elim cases [
          | inl (bound, missing, refused) ↦ rw refused h
          | inr (named, passed) ↦ rw passed (connect_source-Kept user source branch token w h)
        ]
      ]
