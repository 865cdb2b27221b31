-- ===== src/Heartbeat.antt =====
-- The replay check of apps/license-api/internal/service/heartbeat.go, with a Redis that may not
-- answer: `checkReplay`.
pub mod Sequence
pub mod Lease
use vertify_license_platform.Prelude.{
  ℕ, ◌+◌, ◌-◌, ◌*◌, ◌/◌, Bool, true, false, ◌||◌, ltb, if◌then◌else◌, Text,
}
use vertify_license_platform.Domain.{Result, ok, err, rate_limited, replay_detected, seq_regression}
use vertify_license_platform.Store.Rows.{Device, Db}
use vertify_license_platform.Store.Devices.{accept_device_seq}
use vertify_license_platform.Cache.{Redis, consume_nonce, check_seq}
use vertify_license_platform.Cache.Keys.{Scope, activate, device}

-- the headers of a signed request: the time in seconds, the nonce and the sequence number
pub record Signed : Type 0 where
  pub ts : ℕ
  pub nonce : Text
  pub seq : ℕ

-- `MaxClockSkew` and `ReplayWindow` in milliseconds, the unit of the cache's times
pub record Windows : Type 0 where
  pub skew : ℕ
  pub replay : ℕ

abbrev pub is_activate : Scope → Bool
is_activate activate = true
is_activate _ = false

-- `ds.TS < now.Add(-skew).Unix() || ds.TS > now.Add(skew).Unix()`
abbrev pub off_time : Windows → ℕ → ℕ → Bool
off_time w now ts = ltb ts ((now - w.skew) / 1000) || ltb ((now + w.skew) / 1000) ts

-- the database's sequence number, where Redis gives none
unfoldable pub fall_back : Device → ℕ → Db → Result (Unit {0}) × Db
unfolding accept_device_seq
fall_back dev seq db =
    let (r, db') = accept_device_seq dev.id seq db in
    elim r [ ok true ↦ (ok tt, db') | ok false ↦ (err seq_regression, db') | err e ↦ (err e, db') ]

module _ (r : Redis) where
  open r use {Strings}

  -- The sequence number's check, answered by Redis or not.
  unfoldable pub check_sequence :
      Windows → Bool → Device → ℕ → ℕ → Strings × Db → Result (Unit {0}) × (Strings × Db)
  unfolding fall_back check_seq
  check_sequence w answers dev seq now (s, db) =
      let (fallen, db') = fall_back dev seq db in
      let ((good, known), s') = check_seq r (device dev.id) seq (w.replay * 10) now s in
      if answers then (if good then ok tt else err seq_regression, (s', db)) else (fallen, (s, db'))

  -- `checkReplay`; each of the two Booleans tells whether Redis answers that call.
  unfoldable pub check_replay :
      Windows
      → Bool
      → Bool
      → Scope
      → Device
      → Signed
      → ℕ
      → Strings × Db
      → Result (Unit {0}) × (Strings × Db)
  unfolding check_sequence consume_nonce
  check_replay w nonce_answers seq_answers scope dev ds now (s, db) =
      let (new, s') = consume_nonce r scope ds.nonce (w.replay + w.skew) now s in
      if off_time w now ds.ts
      then (err replay_detected, (s, db))
      else if nonce_answers
      then (if new
          then check_sequence w seq_answers dev ds.seq now (s', db)
          else (err replay_detected, (s', db)))
      else if is_activate scope
      then (err rate_limited, (s, db))
      else check_sequence w seq_answers dev ds.seq now (s, db)
