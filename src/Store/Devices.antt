-- ===== src/Store/Devices.antt =====
-- The statements on devices of apps/license-api/internal/store/licenses.go.
use vertify_license_platform.Prelude.{
  ℕ, Bool, true, false, ◌&&◌, ◌||◌, not, none, some, [], ◌∷◌, ◌++◌, ltb, leb, ◌==◌, is_some,
  is_empty, Text, text_eq, if◌then◌else◌,
}
use vertify_license_platform.Domain.{
  DeviceStatus, device_active, ok, err, no_rows, unique_violation,
}
use vertify_license_platform.Store.Table.{find, first, exists, count, update}
use vertify_license_platform.Store.Rows.{Device, Kty, TrustLevel}
use vertify_license_platform.Store.Tx.{Tx, selects}

-- `UNIQUE (license_id, fingerprint_hash)`
abbrev pub same_machine : ℕ → Text → Device → Bool
same_machine license_id fp d = d.license_id == license_id && text_eq d.fingerprint_hash fp

-- the rows of the unique index on `device_pub` where the status is active
abbrev pub active_with_pub : Text → Device → Bool
active_with_pub pub_key d = device_active d.status && text_eq d.device_pub pub_key

-- `CreateDevice`: a free key, a machine that is new to the licence, and a public key that no active
-- device has.
unfoldable pub create_device : Device → Tx Device
create_device d db =
    if is_some (find (λ (e : Device). e.id) d.id db.devices)
      || exists (same_machine d.license_id d.fingerprint_hash) db.devices
      || exists (active_with_pub d.device_pub) db.devices
    then (err unique_violation, db)
    else (ok d, record db { devices = db.devices ++ d ∷ [] })

-- `GetDeviceByFingerprint`
unfoldable pub get_device_by_fingerprint : ℕ → Text → Tx Device
get_device_by_fingerprint license_id fp =
    selects (λ db. first (same_machine license_id fp) db.devices)

-- `GetDeviceByPub`; the index leaves one active device at most, so its order does not matter.
unfoldable pub get_device_by_pub : Text → Tx Device
get_device_by_pub pub_key = selects (λ db. first (active_with_pub pub_key) db.devices)

-- `GetDevice`
abbrev pub get_device : ℕ → Tx Device
get_device id = selects (λ db. find (λ (d : Device). d.id) id db.devices)

abbrev pub active_on : ℕ → Device → Bool
active_on license_id d = d.license_id == license_id && device_active d.status

-- `CountActiveDevices`
abbrev pub count_active_devices : ℕ → Tx ℕ
count_active_devices license_id db = (ok (count (active_on license_id) db.devices), db)

-- `UnbindDevice`: the row as it is after the update
unfoldable pub unbind_device : ℕ → ℕ → Tx Device
unbind_device now id db = elim (find (λ (d : Device). d.id) id db.devices) [
  | none ↦ (err no_rows, db)
  | some d ↦
      if device_active d.status
      then (
        ok (record d { status = DeviceStatus.unbound; unbound_at = some now }),
        record db {
          devices =
              update (λ (e : Device). e.id) id (λ e. device_active e.status)
                (λ e. record e { status = DeviceStatus.unbound; unbound_at = some now }) db.devices;
        },
      )
      else (err no_rows, db)
]

-- `RotateDevicePub`. The statement's guard is that no other active device has the new key.
unfoldable pub rotate_device_pub : ℕ → Text → Kty → TrustLevel → Tx (Unit {0})
rotate_device_pub id pub_key kty trust db =
    if is_some (find (λ (d : Device). d.id) id db.devices)
      && not (exists (λ (d : Device). active_with_pub pub_key d && not (d.id == id)) db.devices)
    then (
      ok tt,
      record db {
        devices =
            update (λ (d : Device). d.id) id (λ d. true)
              (λ d. record d { device_pub = pub_key; pub_kty = kty; trust_level = trust })
              db.devices;
      },
    )
    else (err no_rows, db)

-- `GREATEST(a, b)`
abbrev pub greatest : ℕ → ℕ → ℕ
greatest a b = if leb a b then b else a

-- `BumpDeviceHeartbeat`
unfoldable pub bump_device_heartbeat : ℕ → ℕ → ℕ → Text → Tx (Unit {0})
bump_device_heartbeat now id seq version db = (
  ok tt,
  record db {
    devices =
        update (λ (d : Device). d.id) id (λ d. true)
          (λ d. record d {
            last_heartbeat_at = some now;
            last_seq = greatest d.last_seq seq;
            client_version = if is_empty version then d.client_version else version;
          })
          db.devices;
  },
)

-- `AcceptDeviceSeq`
unfoldable pub accept_device_seq : ℕ → ℕ → Tx Bool
accept_device_seq id seq db = elim (find (λ (d : Device). d.id) id db.devices) [
  | none ↦ (err no_rows, db)
  | some d ↦
      if ltb d.last_seq seq
      then (
        ok true,
        record db {
          devices =
              update (λ (e : Device). e.id) id (λ e. ltb e.last_seq seq)
                (λ e. record e { last_seq = seq }) db.devices;
        },
      )
      else (ok false, db)
]
