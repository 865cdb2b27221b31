-- ===== src/Heartbeat/Lease.antt =====
-- `Heartbeat` and `Deactivate` of apps/license-api/internal/service/heartbeat.go. A request's time is
-- one moment, in nanoseconds; the cache counts milliseconds.
pub mod Refused
pub mod Answered
use vertify_license_platform.Prelude.{
  ℕ, ◌+◌, ◌*◌, ◌/◌, ◌^◌, Bool, true, false, ◌&&◌, not, Option, none, some, List, [], points_to,
  is_empty, ◌==◌, Text, if◌then◌else◌,
}
use vertify_license_platform.Domain.{
  LicenseStatus, license_is, device_active, Result, ok, err, Error, no_rows, device_not_found,
  device_unbound, bad_signature, banned, license_expired, version_too_old, concurrent_limit,
  signing_failed,
}
use vertify_license_platform.Version.{is_version, Sign, less, equal, greater, compare_version}
use vertify_license_platform.Cache.{
  Redis, Admission, admitted, renewed, full, renew_online, drop_online,
}
use vertify_license_platform.Cache.Keys.{Scope, heartbeat, deactivate}
use vertify_license_platform.Store.Table.{find, first}
use vertify_license_platform.Store.Rows.{
  Product, Plan, License, Device, Kty, EventKind, BanKind, Db, unix,
}
use vertify_license_platform.Store.Devices.{active_with_pub, bump_device_heartbeat, unbind_device}
use vertify_license_platform.Store.Licenses.{insert_event}
use vertify_license_platform.Store.Catalog.{is_banned}
use vertify_license_platform.Claims.{LeaseClaims, expiry_claim, map_license_err, has_expired}
use vertify_license_platform.Heartbeat.{Signed, Windows, check_replay}

-- The signed headers, the body's device ID, which may be missing, and its version.
pub record HeartbeatRequest : Type 0 where
  pub pub_key : Text
  pub signed : Signed
  pub device_id : Option ℕ
  pub client_version : Text

pub record HeartbeatResponse : Type 0 where
  pub claims : LeaseClaims
  pub server_time : ℕ
  pub license_exp : Option ℕ

-- which of the three calls Redis answers, and whether the signer signs the lease of a heartbeat
pub record Answers : Type 0 where
  pub to_nonce : Bool
  pub to_seq : Bool
  pub to_seat : Bool
  pub to_sign : Bool

-- `productCodeOf`
abbrev product_code_of : ℕ → Db → Text
product_code_of id db = elim (find (λ (p : Product). p.id) id db.products) [
  | none ↦ []
  | some p ↦ p.code
]

abbrev pub unix_of : Option ℕ → Option ℕ
unix_of none = none
unix_of (some t) = some (unix t)

unfoldable pub lease : ℕ → License → Device → Plan → Db → HeartbeatResponse
lease now lic dev plan db = record {
  claims = record {
    lic = lic.id;
    prod = product_code_of lic.product_id db;
    dev = dev.id;
    feat = plan.features;
    iss = unix now;
    exp = unix now + plan.lease_ttl;
    lic_exp = expiry_claim lic.expires_at;
    pol = lic.policy_version;
    hbi = plan.heartbeat_sec;
    grace = plan.offline_grace;
    min_ver = plan.min_client_ver;
  };
  server_time = unix now;
  license_exp = unix_of lic.expires_at;
}

abbrev is_less : Sign → Bool
is_less less = true
is_less _ = false

-- the checks of the client's version
unfoldable pub version_error : ℕ → Text → Plan → Db → Option Error
version_error now version plan db =
    if is_empty version
    then none
    else if not (is_version version)
    then some version_too_old
    else if is_banned now BanKind.client_version version db
    then some banned
    else if not (is_empty plan.min_client_ver)
        && is_less (compare_version version plan.min_client_ver)
    then some version_too_old
    else none

-- the checks of the licence, with its plan
unfoldable pub entitled : ℕ → Text → Device → Db → Result (License × Plan)
unfolding version_error
entitled now version dev db = elim (find (λ (l : License). l.id) dev.license_id db.licenses) [
  | none ↦ err no_rows
  | some lic ↦
      if is_banned now BanKind.device dev.device_pub db
      then err banned
      else if not (license_is lic.status LicenseStatus.active)
      then err (map_license_err lic.status)
      else if has_expired now lic
      then err license_expired
      else elim (find (λ (p : Plan). p.id) lic.plan_id db.plans) [
        | none ↦ err no_rows
        | some plan ↦ elim (version_error now version plan db) [
          | none ↦ ok (lic, plan)
          | some e ↦ err e
        ]
      ]
]

-- `verify` tells whether the request carries the signature of a public key over its message.
module _ (r : Redis) (verify : Text → Kty → Bool) where
  open r use {Strings, ZSet}

  -- the state of the services: Redis, with the seats of each licence, and the database
  pub record World : Type 0 where
    pub strings : Strings
    pub seats : ℕ → ZSet
    pub db : Db

  -- the device that signs
  unfoldable pub signer : Text → Db → Result Device
  signer pub_key db = elim (first (active_with_pub pub_key) db.devices) [
    | none ↦ err device_not_found
    | some dev ↦
        if not (device_active dev.status)
        then err device_unbound
        else if verify dev.device_pub dev.pub_kty
        then ok dev
        else err bad_signature
  ]

  abbrev pub seat_of : ℕ → ZSet → (ℕ → ZSet) → ℕ → ZSet
  seat_of lic z seats k = if k == lic then z else seats k

  -- the last writes, and the lease, if the signer signs it
  abbrev pub grant :
      Bool
      → ℕ
      → HeartbeatRequest
      → License
      → Device
      → Plan
      → World
      → Result HeartbeatResponse × World
  grant to_sign now req lic dev plan w = (
    if to_sign then ok (lease now lic dev plan w.db) else err signing_failed,
    record w { db = (bump_device_heartbeat now dev.id req.signed.seq req.client_version w.db).1 },
  )

  -- from the licence's checks on
  unfoldable pub renew_lease :
      Answers → HeartbeatRequest → ℕ → Device → World → Result HeartbeatResponse × World
  unfolding entitled lease bump_device_heartbeat renew_online
  renew_lease answers req now dev w = elim (entitled now req.client_version dev w.db) [
    | err e ↦ (err e, w)
    | ok (lic, plan) ↦
        let (admission, z) =
          renew_online r (now / 10 ^ 6) (plan.lease_ttl * 1000) dev.id plan.concurrent_limit
            (w.seats lic.id) in
        if answers.to_seat
        then elim admission [
          | full ↦ (err concurrent_limit, record w { seats = seat_of lic.id z w.seats })
          | _ ↦
              grant answers.to_sign now req lic dev plan
                (record w { seats = seat_of lic.id z w.seats })
        ]
        else grant answers.to_sign now req lic dev plan w
  ]

  -- the replay check on the state
  unfoldable pub replay :
      Windows → Answers → Scope → Device → Signed → ℕ → World → Result (Unit {0}) × World
  unfolding check_replay
  replay win answers scope dev ds now w =
      let (checked, (s, db)) =
        check_replay r win answers.to_nonce answers.to_seq scope dev ds (now / 10 ^ 6)
          (w.strings, w.db) in
      (checked, record w { strings = s; db = db })

  -- `Heartbeat`
  unfoldable pub heartbeat_of :
      Windows → Answers → HeartbeatRequest → ℕ → World → Result HeartbeatResponse × World
  unfolding signer replay renew_lease
  heartbeat_of win answers req now w = elim (first (active_with_pub req.pub_key) w.db.devices) [
    | none ↦ (err device_not_found, w)
    | some dev ↦
        if not (device_active dev.status)
        then (err device_unbound, w)
        else if not (points_to req.device_id dev.id)
        then (err bad_signature, w)
        else if not (verify dev.device_pub dev.pub_kty)
        then (err bad_signature, w)
        else (let (checked, w') = replay win answers heartbeat dev req.signed now w in
            elim checked [ ok _ ↦ renew_lease answers req now dev w' | err e ↦ (err e, w') ])
  ]

  -- `Deactivate`
  unfoldable pub deactivate_of :
      Windows → Answers → Text → Signed → ℕ → World → Result (Unit {0}) × World
  unfolding signer replay unbind_device drop_online
  deactivate_of win answers pub_key ds now w = elim (signer pub_key w.db) [
    | err e ↦ (err e, w)
    | ok dev ↦
        let (checked, w') = replay win answers deactivate dev ds now w in
        elim checked [
          | err e ↦ (err e, w')
          | ok _ ↦
              let (unbound, db) = unbind_device now dev.id w'.db in
              elim unbound [
                | err no_rows ↦ (err device_unbound, record w' { db = db })
                | err e ↦ (err e, record w' { db = db })
                | ok gone ↦ (
                  ok tt,
                  record w' {
                    seats =
                        if answers.to_seat
                        then seat_of gone.license_id
                            (drop_online r gone.id (w'.seats gone.license_id)) w'.seats
                        else w'.seats;
                    db = (insert_event gone.license_id EventKind.device_unbound db).1;
                  },
                )
              ]
        ]
  ]
