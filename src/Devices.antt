-- ===== src/Devices.antt =====
-- backend/app/services/device_service.py and backend/app/repositories/device_repo.py. Every write to a row
-- sets `updated_at` (`onupdate` of models/mixins.py).
pub mod Ownership
use phodex.Base.{
  ℕ, suc, String, Bool, true, false, ◌&&◌, Option, none, some, List, [], ◌∷◌, ◌++◌, ◌==◌,
  if◌then◌else◌, get_or, get_row, set_row, first_row, where_rows, order_by, is_empty,
}
use phodex.Models.{Device}
use phodex.World.{
  World, Db, Exec, not_found, runtime_error, ok, err, pure, raise, or_raise, query, commit, utcnow,
  uuid4, ◌>>=◌, ◌>>◌,
}

-- `DeviceRegisterRequest` and `DeviceHeartbeatRequest` of schemas/devices.py
pub record DeviceRegisterRequest : Type 0 where
  pub device_id : Option ℕ
  pub name : String
  pub platform : String
  pub status : String
  pub agent_version : Option String

pub record DeviceHeartbeatRequest : Type 0 where
  pub device_id : ℕ
  pub status : String
  pub agent_version : Option String

-- DeviceRepository.get_by_id_and_user
unfoldable pub get_by_id_and_user : ℕ → ℕ → Db → Option Device
get_by_id_and_user device_id user_id db =
    first_row (λ d. d.id == device_id && d.user_id == user_id) db.devices

-- DeviceRepository.list_by_user, the last updated first
unfoldable pub list_by_user : ℕ → Db → List Device
list_by_user user_id db =
    mathlib.Core.List.reverse
      (order_by (λ d. d.updated_at) (where_rows (λ d. d.user_id == user_id) db.devices))

-- the device that the request names, if the user has it
abbrev pub named_device : ℕ → Option ℕ → Db → Option Device
named_device user_id none db = none
named_device user_id (some device_id) db = get_by_id_and_user device_id user_id db

abbrev pub registered : DeviceRegisterRequest → ℕ → ℕ → Device → Device
registered payload seen later d = record d {
  name = payload.name;
  platform = payload.platform;
  status = payload.status;
  agent_version = payload.agent_version;
  last_seen_at = some seen;
  updated_at = later;
}

-- the id of a new row: the one of the request, or a new one
abbrev pub new_id : Option ℕ → Exec ℕ
new_id none = uuid4
new_id (some device_id) = pure device_id

-- A row with the id of one that is there violates the primary key, and the commit raises.
abbrev pub add_device : Device → Option Device → Exec Device
add_device device none = do
  commit (λ db. record db { devices = db.devices ++ device ∷ [] })
  pure device
add_device device (some other) = raise (runtime_error "IntegrityError")

-- the row of a device that is registered first
abbrev pub new_device : ℕ → DeviceRegisterRequest → (id seen later : ℕ) → Device
new_device user_id payload id seen later = record {
  id = id;
  user_id = user_id;
  name = payload.name;
  platform = payload.platform;
  status = payload.status;
  agent_version = payload.agent_version;
  last_seen_at = some seen;
  updated_at = later;
}

-- the branch of `register_device` for a device that the user does not have
unfoldable pub insert_device : ℕ → DeviceRegisterRequest → Exec Device
insert_device user_id payload = do
  seen ← utcnow
  id ← new_id payload.device_id
  later ← utcnow
  taken ← query (λ db. get_row (λ d. d.id) id db.devices)
  add_device (new_device user_id payload id seen later) taken

unfoldable pub update_device : DeviceRegisterRequest → Device → Exec Device
update_device payload device = do
  seen ← utcnow
  later ← utcnow
  commit (λ db. record db {
    devices = set_row (λ d. d.id) device.id (registered payload seen later) db.devices;
  })
  pure (registered payload seen later device)

abbrev store_device : ℕ → DeviceRegisterRequest → Option Device → Exec Device
store_device user_id payload none = insert_device user_id payload
store_device user_id payload (some device) = update_device payload device

-- DeviceService.register_device
unfoldable pub register_device : ℕ → DeviceRegisterRequest → Exec Device
unfolding insert_device update_device get_by_id_and_user
register_device user_id payload = do
  found ← query (named_device user_id payload.device_id)
  store_device user_id payload found

-- `payload.agent_version or device.agent_version`
abbrev or_version : Option String → Option String → Option String
or_version none old = old
or_version (some s) old = if is_empty s then old else some s

abbrev pub beating : DeviceHeartbeatRequest → ℕ → ℕ → Device → Device
beating payload seen later d = record d {
  status = payload.status;
  agent_version = or_version payload.agent_version d.agent_version;
  last_seen_at = some seen;
  updated_at = later;
}

-- DeviceService.heartbeat
unfoldable pub heartbeat : ℕ → DeviceHeartbeatRequest → Exec Device
unfolding get_by_id_and_user
heartbeat user_id payload = do
  found ← query (get_by_id_and_user payload.device_id user_id)
  device ← or_raise (not_found "Device not found") found
  seen ← utcnow
  later ← utcnow
  commit (λ db. record db {
    devices = set_row (λ d. d.id) device.id (beating payload seen later) db.devices;
  })
  pure (beating payload seen later device)

-- DeviceService.get_device
unfoldable pub get_device : ℕ → ℕ → Exec Device
unfolding get_by_id_and_user
get_device user_id device_id = do
  found ← query (get_by_id_and_user device_id user_id)
  or_raise (not_found "Device not found") found
