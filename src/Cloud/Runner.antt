-- ===== src/Cloud/Runner.antt =====
-- The device that stands for the server: the runner of backend/app/services/cloud_repo_service.py.
use phodex.Base.{
  ℕ, suc, ◌+◌, String, Bool, ◌&&◌, Option, none, some, List, [], ◌∷◌, ◌++◌, ◌==◌, if◌then◌else◌,
  set_row, first_row, str_eq,
}
use phodex.Models.{Device}
use phodex.World.{ok, Exec, pure, query, commit, utcnow, uuid4, ◌>>=◌, ◌>>◌}

abbrev pub is_runner_of : ℕ → Device → Bool
is_runner_of user_id d = d.user_id == user_id && str_eq d.platform "cloud"

abbrev pub online : ℕ → ℕ → Device → Device
online seen later d = record d { status = "online"; last_seen_at = some seen; updated_at = later }

-- CloudRepoService.get_runner_device
unfoldable pub get_runner_device : ℕ → Exec (Option Device)
get_runner_device user_id = query (λ db. first_row (is_runner_of user_id) db.devices)

abbrev pub new_runner : String → ℕ → (id seen later : ℕ) → Device
new_runner name user_id id seen later = record {
  id = id;
  user_id = user_id;
  name = name;
  platform = "cloud";
  status = "online";
  agent_version = some "cloud-0.1.0";
  last_seen_at = some seen;
  updated_at = later;
}

-- the branches of `ensure_runner_device`
unfoldable pub store_runner : String → ℕ → Option Device → Exec Device
store_runner name user_id none = do
  seen ← utcnow
  id ← uuid4
  later ← utcnow
  commit (λ db. record db { devices = db.devices ++ new_runner name user_id id seen later ∷ [] })
  pure (new_runner name user_id id seen later)
store_runner name user_id (some device) = do
  seen ← utcnow
  later ← utcnow
  commit
      (λ db. record db { devices = set_row (λ d. d.id) device.id (online seen later) db.devices })
  pure (online seen later device)

-- the rows after `heartbeat_runners`, the n-th of which is written at the n-th time
abbrev pub beat : (ℕ → ℕ) → ℕ → ℕ → List Device → List Device
beat now seen n [] = []
beat now seen n (d ∷ ds) =
    let hit = str_eq d.platform "cloud" in
    (if hit then online seen (now n) d else d) ∷ beat now seen (if hit then suc n else n) ds

abbrev pub runners : List Device → ℕ
runners [] = 0
runners (d ∷ ds) = let rest = runners ds in if str_eq d.platform "cloud" then suc rest else rest

-- CloudRepoService.heartbeat_runners
unfoldable pub heartbeat_runners : Exec ℕ
heartbeat_runners w =
    let n = runners w.db.devices in
    let seen = w.env.now w.calls in
    let devices = beat w.env.now seen (suc w.calls) w.db.devices in
    (ok n, record w { db = record w.db { devices = devices }; calls = suc w.calls + n })

-- CloudRepoService.ensure_runner_device
unfoldable pub ensure_runner_device : String → ℕ → Exec Device
unfolding get_runner_device store_runner
ensure_runner_device name user_id = do
  found ← get_runner_device user_id
  store_runner name user_id found
