-- ===== src/Devices/Ownership.antt =====
-- Whose devices the actions change.
use phodex.Base.{
  ℕ, suc, ◌≡◌, refl, ◌≢◌, Option, some, arith, ◌==◌, if◌then◌else◌, get_row, get_row-set_row,
  get_row-append_new, first_row-IsKeyed, keep_if, IsKeyed, key-get_row, Option-cases, Bool-cases,
  inl, inr, ◌⊎◌,
}
use phodex.Models.{Device}
use phodex.World.{World, Db, ok, err, not_found}
use phodex.Devices.{
  DeviceRegisterRequest, DeviceHeartbeatRequest, get_by_id_and_user, registered, beating,
  insert_device, add_device, new_device, update_device, register_device, heartbeat,
}

abbrev pub find_device : ℕ → Db → Option Device
find_device device_id db = get_row (λ d. d.id) device_id db.devices

abbrev pub Keyed : Db → Type 0
Keyed db = IsKeyed (λ (d : Device). d.id) db.devices

module _ (user_id : ℕ) (w : World) (keyed : Keyed w.db) where
  get_by_id_and_user_lem :
      (device_id : ℕ)
      → get_by_id_and_user device_id user_id w.db
        ≡ keep_if (λ d. d.user_id == user_id) (find_device device_id w.db)
  unfolding get_by_id_and_user
  get_by_id_and_user_lem device_id =
      first_row-IsKeyed (λ (d : Device). d.id) (λ d. d.user_id == user_id) device_id w.db.devices
        keyed

  -- A heartbeat of the owner stores its status and time in the device and changes no other device; for
  -- a device that is missing or somebody else's it raises and changes nothing.
  pub heartbeat_lem :
      (payload : DeviceHeartbeatRequest)
      → let (r, w') = heartbeat user_id payload w in
        ((d : Device) × (find_device payload.device_id w.db ≡ some d)
          × (d.user_id ≡ user_id)
          × (r ≡ ok (beating payload (w.env.now w.calls) (w.env.now (suc w.calls)) d))
          × ((j : ℕ)
              → find_device j w'.db ≡ (
                  if payload.device_id == j
                  then some (beating payload (w.env.now w.calls) (w.env.now (suc w.calls)) d)
                  else find_device j w.db)))
        ⊎ ((r ≡ err (not_found "Device not found")) × (w' ≡ w))
  unfolding heartbeat
  heartbeat_lem payload = elim (Option-cases (find_device payload.device_id w.db)) [
    | inl missing ↦ inr (
      ground (arith, get_by_id_and_user_lem payload.device_id),
      ground (arith, get_by_id_and_user_lem payload.device_id),
    )
    | inr (d, found) ↦ elim (Bool-cases (d.user_id == user_id)) [
      | inr foreign ↦ inr (
        ground (arith, get_by_id_and_user_lem payload.device_id),
        ground (arith, get_by_id_and_user_lem payload.device_id),
      )
      | inl own ↦
          let f = beating payload (w.env.now w.calls) (w.env.now (suc w.calls)) in
          let named = key-get_row (λ (x : Device). x.id) payload.device_id w.db.devices d found in
          inl (
            d,
            found,
            ground arith,
            ground (arith, get_by_id_and_user_lem payload.device_id),
            λ j. ground (
              arith,
              get_by_id_and_user_lem payload.device_id,
              get_row-set_row (λ (x : Device). x.id) j d.id f w.db.devices (λ x. refl),
            ),
          )
    ]
  ]

  add_keeps :
      (v : World) (j : ℕ) (x d : Device)
      → find_device j v.db ≡ some d
      → find_device j (add_device x (find_device x.id v.db) v).1.db ≡ some d
  add_keeps v j x d found = elim (Option-cases (find_device x.id v.db)) [
    | inl free ↦
        rw free (ground (arith, get_row-append_new (λ (y : Device). y.id) j v.db.devices x free))
    | inr (other, taken) ↦ rw taken found
  ]

  insert_keeps :
      (payload : DeviceRegisterRequest) (j : ℕ) (d : Device)
      → find_device j w.db ≡ some d
      → find_device j (insert_device user_id payload w).1.db ≡ some d
  unfolding insert_device
  insert_keeps payload j d found = elim (Option-cases payload.device_id) [
    | inl fresh ↦ rw fresh (
        add_keeps (record w { calls = suc (suc (suc w.calls)) }) j
          (new_device user_id payload (w.env.uuid (suc w.calls)) (w.env.now w.calls)
            (w.env.now (suc (suc w.calls))))
          d found)
    | inr (id, given) ↦ rw given (
        add_keeps (record w { calls = suc (suc w.calls) }) j
          (new_device user_id payload id (w.env.now w.calls) (w.env.now (suc w.calls))) d found)
  ]

  -- Registering never touches a device of somebody else: every such row stays as it is, also when the
  -- request names its id.
  pub register_device_keeps :
      (payload : DeviceRegisterRequest) (j : ℕ) (d : Device)
      → find_device j w.db ≡ some d
      → d.user_id ≢ user_id
      → find_device j (register_device user_id payload w).1.db ≡ some d
  unfolding register_device update_device
  register_device_keeps payload j d found foreign = elim (Option-cases payload.device_id) [
    | inl fresh ↦ ground (arith, insert_keeps payload j d found)
    | inr (id, given) ↦ elim (Option-cases (find_device id w.db)) [
      | inl missing ↦ ground (arith, get_by_id_and_user_lem id, insert_keeps payload j d found)
      | inr (x, there) ↦ ground (
        arith,
        get_by_id_and_user_lem id,
        insert_keeps payload j d found,
        key-get_row (λ (y : Device). y.id) id w.db.devices x there,
        get_row-set_row (λ (y : Device). y.id) j x.id
            (registered payload (w.env.now w.calls) (w.env.now (suc w.calls))) w.db.devices
            (λ y. refl),
      )
    ]
  ]
