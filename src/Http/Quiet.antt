-- ===== src/Http/Quiet.antt =====
-- A heartbeat is never answered with an internal error (apps/license-api/internal/httpapi/client.go
-- and service/heartbeat.go).
use vertify_license_platform.Prelude.{
  ℕ, ◌/◌, ◌^◌, ◌≡◌, refl, Bool, true, false, not, Option, none, some, inl, inr, Option-cases, Text,
  ◌==◌, arith,
}
use vertify_license_platform.Domain.{Error, Result, ok, err, Result-cases, LicenseStatus}
use vertify_license_platform.Cache.{Redis}
use vertify_license_platform.Cache.Keys.{Scope, heartbeat}
use vertify_license_platform.Store.Table.{find, first}
use vertify_license_platform.Store.Rows.{Kty, License, Plan, Device, Db}
use vertify_license_platform.Store.Devices.{active_with_pub, accept_device_seq}
use vertify_license_platform.Claims.{map_license_err}
use vertify_license_platform.Heartbeat.{Signed, Windows, fall_back, check_sequence, check_replay}
use vertify_license_platform.Heartbeat.Lease.{
  HeartbeatRequest, Answers, World, version_error, entitled, renew_lease, replay, heartbeat_of,
}
use vertify_license_platform.Http.{map_error}
use vertify_license_platform.Http.Client.{Front, handle_heartbeat}

-- the status of the answer to an error
abbrev quiet_error : Error → Bool
quiet_error e = not ((map_error e).status == 500)

abbrev is_quiet : {A : Type 0} → Result A → Bool
is_quiet (ok a) = true
is_quiet (err e) = quiet_error e

map_license_err_quiet : (s : LicenseStatus) → quiet_error (map_license_err s) ≡ true
unfolding map_error
map_license_err_quiet LicenseStatus.active = refl
map_license_err_quiet LicenseStatus.frozen = refl
map_license_err_quiet LicenseStatus.revoked = refl
map_license_err_quiet LicenseStatus.voided = refl

abbrev none_or_quiet : Option Error → Bool
none_or_quiet none = true
none_or_quiet (some e) = quiet_error e

version_error_quiet :
    (now : ℕ) (version : Text) (plan : Plan) (db : Db)
    → none_or_quiet (version_error now version plan db) ≡ true
unfolding version_error map_error
version_error_quiet now version plan db = ground arith

entitled_quiet :
    (now : ℕ) (version : Text) (dev : Device) (db : Db)
    → is_quiet (entitled now version dev db) ≡ true
unfolding entitled map_error
entitled_quiet now version dev db =
    elim (Option-cases (find (λ (l : License). l.id) dev.license_id db.licenses)) [
      | inl e ↦ ground (arith, e)
      | inr (lic, e) ↦ elim (Option-cases (find (λ (p : Plan). p.id) lic.plan_id db.plans)) [
        | inl e' ↦ ground (arith, e, e', map_license_err_quiet lic.status)
        | inr (plan, e') ↦ ground (
          arith,
          e,
          e',
          map_license_err_quiet lic.status,
          version_error_quiet now version plan db,
        )
      ]
    ]

fall_back_quiet : (dev : Device) (seq : ℕ) (db : Db) → is_quiet (fall_back dev seq db).0 ≡ true
unfolding fall_back accept_device_seq map_error
fall_back_quiet dev seq db = ground arith

module _ (r : Redis) (verify : Text → Kty → Bool) where
  check_replay_quiet :
      (win : Windows) (to_nonce to_seq : Bool) (scope : Scope) (dev : Device) (ds : Signed)
      (now : ℕ) (s : r.Strings) (db : Db)
      → is_quiet (check_replay r win to_nonce to_seq scope dev ds now (s, db)).0 ≡ true
  unfolding check_replay check_sequence map_error
  check_replay_quiet win to_nonce to_seq scope dev ds now s db =
      ground (arith, fall_back_quiet dev ds.seq db)

  renew_quiet :
      (answers : Answers) (req : HeartbeatRequest) (now : ℕ) (dev : Device) (w : World r verify)
      → answers.to_sign ≡ true
      → is_quiet (renew_lease r verify answers req now dev w).0 ≡ true
  unfolding renew_lease map_error
  renew_quiet answers req now dev w signs =
      elim (Result-cases (entitled now req.client_version dev w.db)) [
        | inr (x, e) ↦ ground (arith, e, signs, entitled_quiet now req.client_version dev w.db)
        | inl (a, e) ↦ ground (arith, e, signs)
      ]

  heartbeat_quiet :
      (win : Windows) (answers : Answers) (req : HeartbeatRequest) (now : ℕ) (w : World r verify)
      → answers.to_sign ≡ true
      → is_quiet (heartbeat_of r verify win answers req now w).0 ≡ true
  unfolding heartbeat_of replay map_error
  heartbeat_quiet win answers req now w signs =
      elim (Option-cases (first (active_with_pub req.pub_key) w.db.devices)) [
        | inl e ↦ ground (arith, e)
        | inr (dev, e) ↦
            let m =
              check_replay r win answers.to_nonce answers.to_seq heartbeat dev req.signed
                (now / 10 ^ 6) (w.strings, w.db) in
            let w' = record w { strings = m.1.0; db = m.1.1 } in
            elim (Result-cases m.0) [
              | inr (x, f) ↦ ground (
                arith,
                e,
                f,
                check_replay_quiet win answers.to_nonce answers.to_seq heartbeat dev req.signed
                    (now / 10 ^ 6) w.strings w.db,
              )
              | inl (_, f) ↦ ground (arith, e, f, renew_quiet answers req now dev w' signs)
            ]
      ]

  -- While the signer signs, the handler of heartbeats does not answer with the status 500, whether
  -- Redis answers or not, and whatever the tables hold. The database answers, and the headers are
  -- texts, that is valid UTF-8.
  pub heartbeat_never_internal :
      (win : Windows) (answers : Answers) (f : Front) (body : Option HeartbeatRequest) (now : ℕ)
      (w : World r verify)
      → answers.to_sign ≡ true
      → ((handle_heartbeat r verify win answers f body now w).0.status == 500) ≡ false
  unfolding handle_heartbeat
  heartbeat_never_internal win answers f none now w signs = refl
  heartbeat_never_internal win answers f (some req) now w signs =
      elim (Result-cases (heartbeat_of r verify win answers req now w).0) [
        | inl (a, e) ↦ ground (arith, e)
        | inr (x, e) ↦ ground (arith, e, heartbeat_quiet win answers req now w signs)
      ]
