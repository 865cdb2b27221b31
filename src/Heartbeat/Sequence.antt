-- ===== src/Heartbeat/Sequence.antt =====
-- Sequence numbers in the database and in a Redis that may be lost (`checkReplay` of
-- apps/license-api/internal/service/heartbeat.go).
use vertify_license_platform.Prelude.{
  ℕ, ◌+◌, ◌≤◌, ◌≡◌, refl, Bool, true, false, none, some, List, [], ◌∷◌, ltb, leb, if◌then◌else◌,
  inl, inr, Option-cases, Text, is_empty, arith,
}
use vertify_license_platform.Domain.{ok, is_ok}
use vertify_license_platform.Store.Table.{find, holds, find-update}
use vertify_license_platform.Store.Rows.{Device, Db}
use vertify_license_platform.Store.Devices.{accept_device_seq, bump_device_heartbeat, greatest}
use vertify_license_platform.Cache.{Redis, consume_nonce, check_seq}
use vertify_license_platform.Cache.Keys.{Scope, device, seq_dev, nonce, key_eq}
use vertify_license_platform.Heartbeat.{
  Signed, Windows, off_time, fall_back, check_sequence, check_replay,
}

-- what other requests write to the devices' sequence numbers in between
pub data Write : Type 0 where
  accepts : ℕ → ℕ → Write
  bumps : ℕ → ℕ → ℕ → Text → Write

unfoldable pub write_all : List Write → Db → Db
write_all [] db = db
write_all (accepts id seq ∷ ws) db = write_all ws (accept_device_seq id seq db).1
write_all (bumps now id seq version ∷ ws) db =
    write_all ws (bump_device_heartbeat now id seq version db).1

-- the device's number is `seq` or above
abbrev reached : ℕ → ℕ → Db → Bool
reached id seq db =
    holds (λ (d : Device). leb seq d.last_seq) (find (λ (d : Device). d.id) id db.devices)

accept_reached :
    (k n id seq : ℕ) (db : Db)
    → reached k n db ≡ true
    → reached k n (accept_device_seq id seq db).1 ≡ true
unfolding accept_device_seq
accept_reached k n id seq db h = elim (Option-cases (find (λ (d : Device). d.id) id db.devices)) [
  | inl e ↦ ground (arith, e, h)
  | inr (d, e) ↦ ground (
    arith,
    e,
    h,
    find-update (λ (x : Device). x.id) id (λ x. ltb x.last_seq seq)
        (λ x. record x { last_seq = seq }) k db.devices (λ x. refl),
  )
]

bump_reached :
    (k n now id seq : ℕ) (version : Text) (db : Db)
    → reached k n db ≡ true
    → reached k n (bump_device_heartbeat now id seq version db).1 ≡ true
unfolding bump_device_heartbeat
bump_reached k n now id seq version db h = ground (
  arith,
  h,
  find-update (λ (x : Device). x.id) id (λ x. true)
      (λ x. record x {
        last_heartbeat_at = some now;
        last_seq = greatest x.last_seq seq;
        client_version = if is_empty version then x.client_version else version;
      })
      k db.devices (λ x. refl),
)

write_all-reached :
    (k n : ℕ) (ws : List Write) (db : Db)
    → reached k n db ≡ true
    → reached k n (write_all ws db) ≡ true
unfolding write_all
write_all-reached k n [] db h = h
write_all-reached k n (accepts id seq ∷ ws) db h =
    write_all-reached k n ws (accept_device_seq id seq db).1 (accept_reached k n id seq db h)
write_all-reached k n (bumps now id seq version ∷ ws) db h =
    write_all-reached k n ws (bump_device_heartbeat now id seq version db).1
      (bump_reached k n now id seq version db h)

fall_back-reached :
    (dev : Device) (seq : ℕ) (db : Db)
    → is_ok (fall_back dev seq db).0 ≡ true
    → reached dev.id seq (fall_back dev seq db).1 ≡ true
unfolding fall_back accept_device_seq
fall_back-reached dev seq db h =
    elim (Option-cases (find (λ (d : Device). d.id) dev.id db.devices)) [
      | inl e ↦ ground (arith, e, h)
      | inr (d, e) ↦ ground (
        arith,
        e,
        h,
        find-update (λ (x : Device). x.id) dev.id (λ x. ltb x.last_seq seq)
            (λ x. record x { last_seq = seq }) dev.id db.devices (λ x. refl),
      )
    ]

reached_refused :
    (dev : Device) (seq n : ℕ) (db : Db)
    → seq ≤ n
    → reached dev.id n db ≡ true
    → is_ok (fall_back dev seq db).0 ≡ false
unfolding fall_back accept_device_seq
reached_refused dev seq n db le h =
    elim (Option-cases (find (λ (d : Device). d.id) dev.id db.devices)) [
      | inl e ↦ ground (arith, e, h)
      | inr (d, e) ↦ ground (arith, e, h, le)
    ]

module _ (r : Redis) where
  open r use {Strings, get, get-set_px}

  -- the replay check whose sequence number falls back on the database
  fallen :
      (w : Windows) (answers : Bool) (scope : Scope) (dev : Device) (ds : Signed) (now : ℕ)
      (s : Strings) (db : Db)
      → is_ok (check_replay r w answers false scope dev ds now (s, db)).0 ≡ true
      → (is_ok (fall_back dev ds.seq db).0 ≡ true)
        × ((check_replay r w answers false scope dev ds now (s, db)).1.1
            ≡ (fall_back dev ds.seq db).1)
  unfolding check_replay check_sequence
  fallen w answers scope dev ds now s db h = (ground (arith, h), ground (arith, h))

  -- While Redis does not answer for sequence numbers, a number that was accepted from a device is
  -- not accepted again, nor is a lower one, whatever other requests have written in between, and
  -- whether or not Redis answers for nonces.
  pub outage_sequence :
      (w : Windows) (answers answers' : Bool) (scope scope' : Scope) (dev : Device)
      (ds ds' : Signed) (now now' : ℕ) (s s' : Strings) (db : Db) (ws : List Write)
      → is_ok (check_replay r w answers false scope dev ds now (s, db)).0 ≡ true
      → ds'.seq ≤ ds.seq
      → is_ok
          (check_replay r w answers' false scope' dev ds' now'
            (s', write_all ws (check_replay r w answers false scope dev ds now (s, db)).1.1)).0
        ≡ false
  unfolding check_replay check_sequence
  outage_sequence w answers answers' scope scope' dev ds ds' now now' s s' db ws h le =
      let one = fallen w answers scope dev ds now s db h in
      let db₁ = (fall_back dev ds.seq db).1 in
      let low =
        reached_refused dev ds'.seq ds.seq (write_all ws db₁) le
          (write_all-reached dev.id ds.seq ws db₁ (fall_back-reached dev ds.seq db one.0)) in
      rw (one.1) (ground (arith, low))

  -- Where Redis answers but has lost the device's number, a request in time and with a fresh nonce
  -- is accepted with any number, and the number in the database is neither asked nor changed.
  forgotten_sequence :
      (w : Windows) (scope : Scope) (dev : Device) (ds : Signed) (now : ℕ) (s : Strings) (db : Db)
      → off_time w now ds.ts ≡ false
      → get s (nonce scope ds.nonce) now ≡ none
      → get s (seq_dev (device dev.id)) now ≡ none
      → let (answer, (s', db')) = check_replay r w true true scope dev ds now (s, db) in
        (answer ≡ ok tt) × (db' ≡ db)
  unfolding check_replay check_sequence consume_nonce check_seq key_eq
  forgotten_sequence w scope dev ds now s db timely fresh lost =
      let kept =
        get-set_px s (nonce scope ds.nonce) 1 now (w.replay + w.skew) (seq_dev (device dev.id)) now
          (omega arith) in
      ground (arith, timely, fresh, lost, kept)
