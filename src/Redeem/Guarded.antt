-- ===== src/Redeem/Guarded.antt =====
-- What `Redeem` of apps/license-api/internal/service/heartbeat.go asks before its transaction.
use vertify_license_platform.Prelude.{
  ℕ, ◌/◌, ◌^◌, ◌≡◌, refl, ap, Bool, true, false, ◌&&◌, not, Option, none, some, inl, inr,
  Option-cases, Bool-cases, is_empty, Text, arith, if◌then◌else◌,
}
use mathlib.Core.Path.{subst⁻¹}
use vertify_license_platform.Domain.{
  Error, Result, err, is_ok, device_active, device_unbound, bad_signature, card_invalid_format,
  banned, Result-cases,
}
use vertify_license_platform.Cache.{Redis}
use vertify_license_platform.Cache.Keys.{Scope, redeem}
use vertify_license_platform.CardCode.{normalize_card, card_prefix}
use vertify_license_platform.Store.Table.{first}
use vertify_license_platform.Store.Rows.{Kty, BanKind, Device, Db}
use vertify_license_platform.Store.Tx.{with_tx}
use vertify_license_platform.Store.Devices.{active_with_pub, accept_device_seq}
use vertify_license_platform.Store.Catalog.{is_banned}
use vertify_license_platform.Redeem.{Redeeming, RedeemResult, redeem_body}
use vertify_license_platform.Redeem.Request.{
  payload, RedeemRequest, redeeming_of, redeem_checked, redeem_signed,
}
use vertify_license_platform.Heartbeat.{
  Signed, Windows, off_time, fall_back, check_sequence, check_replay,
}
use vertify_license_platform.Heartbeat.Lease.{Answers, World, signer, replay}

-- the replay check writes no card, no licence and no renewal
abbrev pub Keeps : Db → Db → Type 0
Keeps db db' = (db'.cards ≡ db.cards) × (db'.licenses ≡ db.licenses) × (db'.renewals ≡ db.renewals)

fall_back-Keeps : (dev : Device) (seq : ℕ) (db : Db) → Keeps db (fall_back dev seq db).1
unfolding fall_back accept_device_seq
fall_back-Keeps dev seq db = (ground arith, ground arith, ground arith)

module _ (r : Redis) (verify : Text → Kty → Bool) (card_lookup : Text → Text) where
  -- the headers are in time and pass the replay check
  abbrev is_new : Windows → Answers → Device → Signed → ℕ → World r verify → Bool
  is_new win answers dev ds now w =
      not (off_time win (now / 10 ^ 6) ds.ts)
      && is_ok (replay r verify win answers redeem dev ds now w).0

  -- what a card's code is asked
  abbrev admitted_card : Device → Text → ℕ → Db → Option (Redeeming × Db)
  admitted_card dev code now db = elim (normalize_card code) [
    | none ↦ none
    | some norm ↦
        if is_banned now BanKind.card_prefix (card_prefix norm) db
        then none
        else some (redeeming_of r verify card_lookup dev norm now, db)
  ]

  abbrev admitted_code :
      Windows → Answers → RedeemRequest → Text → ℕ → World r verify → Option (Redeeming × Db)
  admitted_code win answers req code now w =
      elim (first (active_with_pub req.pub_key) w.db.devices) [
        | none ↦ none
        | some dev ↦
            if device_active dev.status
              && verify dev.device_pub dev.pub_kty
              && is_new win answers dev req.signed now w
            then admitted_card dev code now
                (replay r verify win answers redeem dev req.signed now w).1.db
            else none
      ]

  -- Everything that the request must satisfy, and what the transaction is given and the database it
  -- runs on if it does: the envelope opens and has a card's code, an active device has the headers'
  -- key and signed, the headers are in time and pass the replay check, the code has a normal form,
  -- and its prefix is not banned.
  abbrev pub admitted :
      Windows → Answers → RedeemRequest → ℕ → World r verify → Option (Redeeming × Db)
  admitted win answers req now w = elim req.opened [
    | payload code ↦ if is_empty code then none else admitted_code win answers req code now w
    | _ ↦ none
  ]

  -- what is left of a request
  abbrev pub AsAdmitted :
      Option (Redeeming × Db) → Db → Result RedeemResult × World r verify → Type 0
  AsAdmitted none db (x, w) = (is_ok x ≡ false) × Keeps db w.db
  AsAdmitted (some (q, db')) db (x, w) = Keeps db db' × ((x, w.db) ≡ with_tx (redeem_body q) db')

  -- the two sides replaced by what they equal
  along :
      (db : Db) {o : Option (Redeeming × Db)} (o' : Option (Redeeming × Db))
      {x : Result RedeemResult × World r verify} (y : Result RedeemResult × World r verify)
      → o ≡ o'
      → x ≡ y
      → AsAdmitted o' db y
      → AsAdmitted o db x
  along db {o} o' {x} y p q h = subst⁻¹ (λ u. AsAdmitted u db x) p (subst⁻¹ (AsAdmitted o' db) q h)

  replay-Keeps :
      (win : Windows) (answers : Answers) (scope : Scope) (dev : Device) (ds : Signed) (now : ℕ)
      (w : World r verify)
      → Keeps w.db (replay r verify win answers scope dev ds now w).1.db
  unfolding replay check_replay check_sequence
  replay-Keeps win answers scope dev ds now w =
      let kept = fall_back-Keeps dev ds.seq w.db in
      (ground (arith, kept.0), ground (arith, kept.1), ground (arith, kept.2))

  replay_in_time :
      (win : Windows) (answers : Answers) (scope : Scope) (dev : Device) (ds : Signed) (now : ℕ)
      (w : World r verify)
      → is_ok (replay r verify win answers scope dev ds now w).0 ≡ true
      → off_time win (now / 10 ^ 6) ds.ts ≡ false
  unfolding replay check_replay
  replay_in_time win answers scope dev ds now w h = ground (arith, h)

  -- nothing is admitted, and an error leaves the database
  turned_away :
      (db : Db) {o : Option (Redeeming × Db)} {x : Result RedeemResult × World r verify} (e : Error)
      (w : World r verify)
      → o ≡ none
      → x ≡ (err e, w)
      → Keeps db w.db
      → AsAdmitted o db x
  turned_away db e w p q kept = along db none (err e, w) p q (refl, kept)

  abbrev unchanged : (db : Db) → Keeps db db
  unchanged db = (refl, refl, refl)

  checked :
      (dev : Device) (code : Text) (now : ℕ) (db : Db) (w : World r verify)
      → Keeps db w.db
      → AsAdmitted
          (admitted_card dev code now w.db)
          db
          (redeem_checked r verify card_lookup dev code now w)
  unfolding redeem_checked vertify_license_platform.Redeem.redeem
  checked dev code now db w kept = elim (Option-cases (normalize_card code)) [
    | inl e ↦ turned_away db card_invalid_format w (ground (arith, e)) (ground (arith, e)) kept
    | inr (norm, e) ↦
        elim (Bool-cases (is_banned now BanKind.card_prefix (card_prefix norm) w.db)) [
          | inl e' ↦ turned_away db banned w (ground (arith, e, e')) (ground (arith, e, e')) kept
          | inr e' ↦
              let q = redeeming_of r verify card_lookup dev norm now in
              let (x, db') = with_tx (redeem_body q) w.db in
              along db (some (q, w.db)) (x, record w { db = db' }) (ground (arith, e, e'))
                (ground (arith, e, e')) (kept, refl)
        ]
  ]

  signed :
      (win : Windows) (answers : Answers) (req : RedeemRequest) (code : Text) (dev : Device)
      (now : ℕ) (w : World r verify)
      → first (active_with_pub req.pub_key) w.db.devices ≡ some dev
      → AsAdmitted
          (admitted_code win answers req code now w)
          w.db
          (redeem_signed r verify card_lookup win answers req code now w)
  unfolding redeem_signed signer
  signed win answers req code dev now w e = elim (Bool-cases (device_active dev.status)) [
    | inr f ↦
        turned_away w.db device_unbound w (ground (arith, e, f)) (ground (arith, e, f))
          (unchanged w.db)
    | inl f ↦ elim (Bool-cases (verify dev.device_pub dev.pub_kty)) [
      | inr g ↦
          turned_away w.db bad_signature w (ground (arith, e, f, g)) (ground (arith, e, f, g))
            (unchanged w.db)
      | inl g ↦
          let m = replay r verify win answers redeem dev req.signed now w in
          let kept = replay-Keeps win answers redeem dev req.signed now w in
          elim (Result-cases m.0) [
            | inr (x, h) ↦
                turned_away w.db x m.1 (ground (arith, e, f, g, h)) (ground (arith, e, f, g, h))
                  kept
            | inl (_, h) ↦
                let timely = replay_in_time win answers redeem dev req.signed now w (ap is_ok h) in
                along w.db (admitted_card dev code now m.1.db)
                  (redeem_checked r verify card_lookup dev code now m.1)
                  (ground (arith, e, f, g, h, timely)) (ground (arith, e, f, g, h))
                  (checked dev code now w.db m.1 kept)
          ]
    ]
  ]
