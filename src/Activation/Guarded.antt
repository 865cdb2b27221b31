-- ===== src/Activation/Guarded.antt =====
-- When `Activate` of apps/license-api/internal/service/service.go reaches its transaction.
use vertify_license_platform.Prelude.{
  ℕ, ◌+◌, ◌/◌, ◌^◌, ◌≡◌, ◌⊎◌, refl, sym, ap, ◌∙◌, Bool, true, false, ◌&&◌, ◌||◌, not, Option, none,
  some, inl, inr, Option-cases, Bool-cases, is_some, List, Text, if◌then◌else◌, arith,
}
use mathlib.Core.Path.{subst⁻¹}
use vertify_license_platform.Domain.{Result, ok, err, is_ok, rate_limited, Result-cases}
use vertify_license_platform.Cache.{Redis, above, consume_nonce, check_seq}
use vertify_license_platform.Cache.Keys.{activate, activating, nonce, seq_dev, key_eq}
use vertify_license_platform.CardCode.{normalize_card, card_prefix}
use vertify_license_platform.Store.Rows.{Kty, BanKind, Db}
use vertify_license_platform.Store.Tx.{with_tx}
use vertify_license_platform.Store.Catalog.{is_banned}
use vertify_license_platform.Activation.{Activating, ActivationResult, activate_body}
use vertify_license_platform.Activation.Request.{
  ActivatePayload, Opened, unopened, malformed, payload, valid_payload, kty_of, ActivateRequest,
  check_activation_replay, activating_of, take_seat, run_activation, activate_checked,
  activate_payload, activate_of,
}
use vertify_license_platform.Heartbeat.{Signed, Windows, off_time}
use vertify_license_platform.Heartbeat.Lease.{Answers, World}

-- what an outage at the seat makes of a result
abbrev pub unseated : Result ActivationResult → Result ActivationResult
unseated (ok a) = err rate_limited
unseated (err e) = err e

Opened-cases :
    (o : Opened) → (o ≡ unopened) ⊎ (o ≡ malformed) ⊎ ((p : ActivatePayload) × (o ≡ payload p))
Opened-cases unopened = inl refl
Opened-cases malformed = inr (inl refl)
Opened-cases (payload p) = inr (inr (p, refl))

module _ (r : Redis) (verify : Text → Kty → Bool) (card_lookup : Text → Text)
    (fingerprint : List Text → Text) where
  open r use {Strings, get, get-set_px, tonumber}

  -- in time, with a nonce that Redis does not hold and a number above the key's last
  abbrev pub is_new : Windows → Answers → Text → Signed → ℕ → Strings → Bool
  is_new win answers key ds now s =
      not (off_time win now ds.ts)
      && answers.to_nonce
      && not (is_some (get s (nonce activate ds.nonce) now))
      && answers.to_seq
      && above r (get s (seq_dev (activating key)) now) (tonumber ds.seq)

  check_new :
      (win : Windows) (answers : Answers) (key : Text) (ds : Signed) (now : ℕ) (s : Strings)
      → is_ok (check_activation_replay r win answers.to_nonce answers.to_seq key ds now s).0
        ≡ is_new win answers key ds now s
  unfolding check_activation_replay consume_nonce check_seq key_eq
  check_new win answers key ds now s = ground (
    arith,
    get-set_px s (nonce activate ds.nonce) 1 now (win.replay + win.skew) (seq_dev (activating key))
        now (omega arith),
  )

  abbrev is_barred : ℕ → ActivatePayload → Text → Db → Bool
  is_barred now p norm db =
      is_banned now BanKind.card_prefix (card_prefix norm) db
      || is_banned now BanKind.device p.device_pub db

  -- what a card's code is asked, with the transaction's input if it holds
  abbrev pub admitted_card : ActivateRequest → ActivatePayload → ℕ → Db → Option Activating
  admitted_card req p now db = elim (normalize_card p.card) [
    | none ↦ none
    | some norm ↦
        if is_barred now p norm db
        then none
        else some (activating_of r verify card_lookup fingerprint req p norm now)
  ]

  abbrev pub admitted_payload :
      Windows → Answers → ActivateRequest → ActivatePayload → ℕ → World r verify → Option Activating
  admitted_payload win answers req p now w = elim req.signed [
    | none ↦ none
    | some ds ↦
        if verify p.device_pub (kty_of p.pub_kty)
          && is_new win answers p.device_pub ds (now / 10 ^ 6) w.strings
        then admitted_card req p now w.db
        else none
  ]

  -- Everything that the request must satisfy, and the transaction's input if it does: the envelope
  -- opens, the payload is valid and carries the signature of its key, the headers are new, the card's
  -- code has a normal form, and neither its prefix nor the key is banned.
  abbrev pub admitted : Windows → Answers → ActivateRequest → ℕ → World r verify → Option Activating
  admitted win answers req now w = elim req.opened [
    | payload p ↦ if valid_payload p then admitted_payload win answers req p now w else none
    | _ ↦ none
  ]

  -- what is left of a request
  abbrev pub AsAdmitted :
      Bool → Option Activating → Db → Result ActivationResult × World r verify → Type 0
  AsAdmitted to_seat none db (x, w) = (is_ok x ≡ false) × (w.db ≡ db)
  AsAdmitted to_seat (some a) db (x, w) =
      let (y, db') = with_tx (activate_body a) db in
      (x ≡ (if to_seat then y else unseated y)) × (w.db ≡ db')

  seated :
      (to_seat : Bool) (now : ℕ) (y : Result ActivationResult) (w : World r verify)
      → ((take_seat r verify card_lookup fingerprint to_seat now y w).0
          ≡ (if to_seat then y else unseated y))
        × ((take_seat r verify card_lookup fingerprint to_seat now y w).1.db ≡ w.db)
  unfolding take_seat
  seated true now (ok a) w = (refl, refl)
  seated false now (ok a) w = (refl, refl)
  seated true now (err e) w = (refl, refl)
  seated false now (err e) w = (refl, refl)

  -- the two sides replaced by what they equal
  along :
      (to_seat : Bool) (db : Db) {o : Option Activating} (o' : Option Activating)
      (x x' : Result ActivationResult × World r verify)
      → o ≡ o'
      → x ≡ x'
      → AsAdmitted to_seat o' db x'
      → AsAdmitted to_seat o db x
  along to_seat db {o} o' x x' p q h =
      subst⁻¹ (λ u. AsAdmitted to_seat u db x) p (subst⁻¹ (AsAdmitted to_seat o' db) q h)

  -- nothing is admitted, and an error leaves the database
  turned_away :
      (to_seat : Bool) (db : Db) {o : Option Activating}
      (x : Result ActivationResult × World r verify)
      → o ≡ none
      → (is_ok x.0 ≡ false) × (x.1.db ≡ db)
      → AsAdmitted to_seat o db x
  turned_away to_seat db {o} x p h = subst⁻¹ (λ u. AsAdmitted to_seat u db x) p h

  checked :
      (to_seat : Bool) (req : ActivateRequest) (p : ActivatePayload) (now : ℕ) (w : World r verify)
      → AsAdmitted to_seat
          (admitted_card req p now w.db)
          w.db
          (activate_checked r verify card_lookup fingerprint to_seat req p now w)
  unfolding activate_checked run_activation
  checked to_seat req p now w = elim (Option-cases (normalize_card p.card)) [
    | inl e ↦ turned_away to_seat w.db _ (ground (arith, e)) (ground (arith, e), ground (arith, e))
    | inr (norm, e) ↦ elim (Bool-cases (is_barred now p norm w.db)) [
      | inl e' ↦
          turned_away to_seat w.db _ (ground (arith, e, e'))
            (ground (arith, e, e'), ground (arith, e, e'))
      | inr e' ↦
          let a = activating_of r verify card_lookup fingerprint req p norm now in
          let (y, db) = with_tx (activate_body a) w.db in
          along to_seat w.db (some a) _
            (take_seat r verify card_lookup fingerprint to_seat now y (record w { db = db }))
            (ground (arith, e, e')) (ground (arith, e, e'))
            (seated to_seat now y (record w { db = db }))
    ]
  ]

  signed :
      (win : Windows) (answers : Answers) (req : ActivateRequest) (p : ActivatePayload) (now : ℕ)
      (w : World r verify)
      → AsAdmitted answers.to_seat
          (admitted_payload win answers req p now w)
          w.db
          (activate_payload r verify card_lookup fingerprint win answers req p now w)
  unfolding activate_payload
  signed win answers req p now w = elim (Option-cases req.signed) [
    | inl e ↦
        turned_away answers.to_seat w.db _ (ground (arith, e))
          (ground (arith, e), ground (arith, e))
    | inr (ds, e) ↦ elim (Bool-cases (verify p.device_pub (kty_of p.pub_kty))) [
      | inr e' ↦
          turned_away answers.to_seat w.db _ (ground (arith, e, e'))
            (ground (arith, e, e'), ground (arith, e, e'))
      | inl e' ↦
          let now_ms = now / 10 ^ 6 in
          let m =
            check_activation_replay r win answers.to_nonce answers.to_seq p.device_pub ds now_ms
              w.strings in
          let new = check_new win answers p.device_pub ds now_ms w.strings in
          elim (Result-cases m.0) [
            | inr (x, e'') ↦
                let old : is_new win answers p.device_pub ds now_ms w.strings ≡ false =
                  sym new ∙ ap is_ok e'' in
                turned_away answers.to_seat w.db _ (ground (arith, e, e', old))
                  (ground (arith, e, e', e''), ground (arith, e, e', e''))
            | inl (_, e'') ↦
                let fresh : is_new win answers p.device_pub ds now_ms w.strings ≡ true =
                  sym new ∙ ap is_ok e'' in
                let w' = record w { strings = m.1 } in
                along answers.to_seat w.db (admitted_card req p now w.db) _
                  (activate_checked r verify card_lookup fingerprint answers.to_seat req p now w')
                  (ground (arith, e, e', fresh)) (ground (arith, e, e', e''))
                  (checked answers.to_seat req p now (record w { strings = m.1 }))
          ]
    ]
  ]

  -- A request of which everything holds that `admitted` asks runs the transaction on the database as
  -- it stands, and is answered with its result, or with `rate_limited` where Redis does not give the
  -- seat. Every other request is refused and leaves the database as it was: so do all requests while
  -- Redis does not answer for nonces or sequence numbers.
  pub activation_guarded :
      (win : Windows) (answers : Answers) (req : ActivateRequest) (now : ℕ) (w : World r verify)
      → AsAdmitted answers.to_seat
          (admitted win answers req now w)
          w.db
          (activate_of r verify card_lookup fingerprint win answers req now w)
  unfolding activate_of
  activation_guarded win answers req now w = elim (Opened-cases req.opened) [
    | inl e ↦
        turned_away answers.to_seat w.db _ (ground (arith, e))
          (ground (arith, e), ground (arith, e))
    | inr (inl e) ↦
        turned_away answers.to_seat w.db _ (ground (arith, e))
          (ground (arith, e), ground (arith, e))
    | inr (inr (p, e)) ↦ elim (Bool-cases (valid_payload p)) [
      | inr e' ↦
          turned_away answers.to_seat w.db _ (ground (arith, e, e'))
            (ground (arith, e, e'), ground (arith, e, e'))
      | inl e' ↦
          along answers.to_seat w.db (admitted_payload win answers req p now w) _
            (activate_payload r verify card_lookup fingerprint win answers req p now w)
            (ground (arith, e, e')) (ground (arith, e, e')) (signed win answers req p now w)
    ]
  ]
