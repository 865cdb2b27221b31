-- ===== src/Heartbeat/Lease/Answered.antt =====
-- That `Heartbeat` of apps/license-api/internal/service/heartbeat.go answers a device that keeps to
-- the rules, with Redis and without it.
use vertify_license_platform.Prelude.{
  ℕ, List, ◌+◌, ◌*◌, ◌/◌, ◌^◌, ◌≡◌, ◌≢◌, refl, ap, ◌∙◌, Bool, true, false, none, some, points_to,
  ltb, Text, arith,
}
use vertify_license_platform.Domain.{ok}
use vertify_license_platform.Cache.{
  Redis, Admission, full, consume_nonce, check_seq, above, renew_online,
}
use vertify_license_platform.Cache.Keys.{heartbeat, device, seq_dev, nonce, key_eq}
use vertify_license_platform.Store.Table.{find, update, first, first-passes}
use vertify_license_platform.Store.Rows.{License, Device, Plan, Kty, Db}
use vertify_license_platform.Store.Catalog.{is_banned}
use vertify_license_platform.Store.Devices.{active_with_pub, accept_device_seq}
use vertify_license_platform.Heartbeat.{Windows, off_time, fall_back, check_sequence, check_replay}
use vertify_license_platform.Heartbeat.Lease.{
  HeartbeatRequest, Answers, entitled, lease, World, renew_lease, replay, heartbeat_of,
}

-- the licence's checks do not read the devices
entitled_same :
    (now : ℕ) (version : Text) (dev : Device) (db : Db) (devices : List Device)
    → entitled now version dev (record db { devices = devices }) ≡ entitled now version dev db
unfolding entitled is_banned
entitled_same now version dev db devices = refl

-- Redis is down; the signer signs
abbrev pub outage : Answers
outage = record { to_nonce = false; to_seq = false; to_seat = false; to_sign = true }

abbrev pub answering : Answers
answering = record { to_nonce = true; to_seq = true; to_seat = true; to_sign = true }

module _ (r : Redis) (verify : Text → Kty → Bool) where
  open r use {Strings, get, set_px, get-set_px, shown, tonumber}

  -- A request of a bound device in time: its body names the device and its signature is good.
  abbrev pub IsProper : HeartbeatRequest → ℕ → Windows → Device → Db → Type 0
  IsProper req now win dev db =
      (first (active_with_pub req.pub_key) db.devices ≡ some dev)
      × (points_to req.device_id dev.id ≡ true)
      × (verify dev.device_pub dev.pub_kty ≡ true)
      × (off_time win (now / 10 ^ 6) req.signed.ts ≡ false)

  passes :
      (req : HeartbeatRequest) (dev : Device) (win : Windows) (answers : Answers) (now : ℕ)
      (w w' : World r verify)
      → IsProper req now win dev w.db
      → replay r verify win answers heartbeat dev req.signed now w ≡ (ok tt, w')
      → heartbeat_of r verify win answers req now w ≡ renew_lease r verify answers req now dev w'
  unfolding heartbeat_of
  passes req dev win answers now w w' (here, named, good, timely) replayed = ground (
    arith,
    here,
    named,
    good,
    replayed,
    first-passes (active_with_pub req.pub_key) w.db.devices dev here,
  )

  replay_outage :
      (req : HeartbeatRequest) (dev : Device) (win : Windows) (now : ℕ) (w : World r verify)
      → IsProper req now win dev w.db
      → find (λ (d : Device). d.id) dev.id w.db.devices ≡ some dev
      → ltb dev.last_seq req.signed.seq ≡ true
      → replay r verify win outage heartbeat dev req.signed now w ≡ (
        ok tt,
        record w {
          db = record w.db {
            devices =
                update
                  (λ (d : Device). d.id)
                  dev.id
                  (λ d. ltb d.last_seq req.signed.seq)
                  (λ d. record d { last_seq = req.signed.seq })
                  w.db.devices;
          };
        },
      )
  unfolding replay check_replay check_sequence fall_back accept_device_seq
  replay_outage req dev win now w (here, named, good, timely) row larger =
      ground (arith, timely, row, larger)

  unseated :
      (req : HeartbeatRequest) (now : ℕ) (dev : Device) (lic : License) (plan : Plan)
      (w : World r verify)
      → entitled now req.client_version dev w.db ≡ ok (lic, plan)
      → (renew_lease r verify outage req now dev w).0 ≡ ok (lease now lic dev plan w.db)
  unfolding renew_lease
  unseated req now dev lic plan w e = ground (arith, e)

  -- the seat that a heartbeat asks for
  abbrev pub seat_asked : ℕ → Device → License → Plan → World r verify → Admission
  seat_asked now dev lic plan w =
      (renew_online r (now / 10 ^ 6) (plan.lease_ttl * 1000) dev.id plan.concurrent_limit
        (w.seats lic.id)).0

  seated :
      (req : HeartbeatRequest) (now : ℕ) (dev : Device) (lic : License) (plan : Plan)
      (w : World r verify)
      → entitled now req.client_version dev w.db ≡ ok (lic, plan)
      → seat_asked now dev lic plan w ≢ full
      → (renew_lease r verify answering req now dev w).0 ≡ ok (lease now lic dev plan w.db)
  unfolding renew_lease
  seated req now dev lic plan w e free = ground (arith, e, free)

  -- While Redis answers nothing and the signer signs, a proper request of a device whose licence entitles it is answered
  -- with the lease of the licence and its plan, if its sequence number is above the one in the
  -- device's row.
  outage_answered :
      (req : HeartbeatRequest) (dev : Device) (lic : License) (plan : Plan) (win : Windows)
      (now : ℕ) (w : World r verify)
      → IsProper req now win dev w.db
      → find (λ (d : Device). d.id) dev.id w.db.devices ≡ some dev
      → ltb dev.last_seq req.signed.seq ≡ true
      → entitled now req.client_version dev w.db ≡ ok (lic, plan)
      → (heartbeat_of r verify win outage req now w).0 ≡ ok (lease now lic dev plan w.db)
  unfolding renew_lease lease
  outage_answered req dev lic plan win now w proper row larger entitles =
      let devices =
        update (λ (d : Device). d.id) dev.id (λ d. ltb d.last_seq req.signed.seq)
          (λ d. record d { last_seq = req.signed.seq }) w.db.devices in
      let w' = record w { db = record w.db { devices = devices } } in
      ap (λ x. x.0)
        (passes req dev win outage now w w' proper
          (replay_outage req dev win now w proper row larger))
      ∙ unseated req now dev lic plan w'
          (entitled_same now req.client_version dev w.db devices ∙ entitles)

  -- Redis has the nonce and the sequence number
  abbrev recorded : HeartbeatRequest → Device → Windows → ℕ → World r verify → World r verify
  recorded req dev win now w = record w {
    strings =
        set_px
          (set_px w.strings (nonce heartbeat req.signed.nonce) 1 (now / 10 ^ 6)
            (win.replay + win.skew))
          (seq_dev (device dev.id)) (shown (tonumber req.signed.seq)) (now / 10 ^ 6)
          (win.replay * 10);
  }

  replay_answered :
      (req : HeartbeatRequest) (dev : Device) (win : Windows) (now : ℕ) (w : World r verify)
      → IsProper req now win dev w.db
      → get w.strings (nonce heartbeat req.signed.nonce) (now / 10 ^ 6) ≡ none
      → above r (get w.strings (seq_dev (device dev.id)) (now / 10 ^ 6)) (tonumber req.signed.seq)
        ≡ true
      → replay r verify win answering heartbeat dev req.signed now w
        ≡ (ok tt, recorded req dev win now w)
  unfolding replay check_replay check_sequence check_seq consume_nonce key_eq
  replay_answered req dev win now w (here, named, good, timely) new larger = ground (
    arith,
    timely,
    new,
    larger,
    get-set_px w.strings (nonce heartbeat req.signed.nonce) 1 (now / 10 ^ 6) (win.replay + win.skew)
        (seq_dev (device dev.id)) (now / 10 ^ 6),
  )

  -- While Redis answers and the signer signs, a proper request of a device whose licence entitles it
  -- is answered with the lease of the licence and its plan, if its nonce is new to Redis, its sequence
  -- number, as the script reads it, is above the one in Redis, and the seats of the licence are not
  -- full. A request is proper if an active device has its key, which signed it, it names this device,
  -- and its time is within the allowed skew.
  pub heartbeat_answered :
      (req : HeartbeatRequest) (dev : Device) (lic : License) (plan : Plan) (win : Windows)
      (now : ℕ) (w : World r verify)
      → IsProper req now win dev w.db
      → get w.strings (nonce heartbeat req.signed.nonce) (now / 10 ^ 6) ≡ none
      → above r (get w.strings (seq_dev (device dev.id)) (now / 10 ^ 6)) (tonumber req.signed.seq)
        ≡ true
      → entitled now req.client_version dev w.db ≡ ok (lic, plan)
      → seat_asked now dev lic plan w ≢ full
      → (heartbeat_of r verify win answering req now w).0 ≡ ok (lease now lic dev plan w.db)
  heartbeat_answered req dev lic plan win now w proper new larger entitles free =
      let w' = recorded req dev win now w in
      ap (λ x. x.0)
        (passes req dev win answering now w w' proper
          (replay_answered req dev win now w proper new larger))
      ∙ seated req now dev lic plan w' entitles free
