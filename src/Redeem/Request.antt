-- ===== src/Redeem/Request.antt =====
-- `Redeem` of apps/license-api/internal/service/heartbeat.go from the opened envelope to the
-- transaction. A request's time is one moment, in nanoseconds.
use vertify_license_platform.Prelude.{ℕ, Bool, none, some, is_empty, Text, if◌then◌else◌}
use vertify_license_platform.Domain.{Result, ok, err, card_invalid_format, banned, undecryptable}
use vertify_license_platform.Cache.{Redis}
use vertify_license_platform.Cache.Keys.{redeem}
use vertify_license_platform.CardCode.{normalize_card, card_prefix}
use vertify_license_platform.Store.Rows.{Device, Kty, BanKind}
use vertify_license_platform.Store.Catalog.{is_banned}
use vertify_license_platform.Redeem.{Redeeming, RedeemResult}
use vertify_license_platform.Heartbeat.{Signed, Windows}
use vertify_license_platform.Heartbeat.Lease.{Answers, World, signer, replay}

-- What `OpenEnvelope` and `unmarshalStrict` make of the request's body: the payload's card, if any.
pub data Opened : Type 0 where
  unopened malformed : Opened
  payload : Text → Opened

-- what is in the envelope, and the signed headers
pub record RedeemRequest : Type 0 where
  pub opened : Opened
  pub pub_key : Text
  pub signed : Signed

-- The keyed hash is a parameter, and `verify` is whether the request carries the signature of a
-- public key over its message.
module _ (r : Redis) (verify : Text → Kty → Bool) (card_lookup : Text → Text) where
  -- what the transaction is given
  abbrev pub redeeming_of : Device → Text → ℕ → Redeeming
  redeeming_of dev norm now = record {
    device_id = dev.id;
    license_id = dev.license_id;
    lookup = card_lookup norm;
    now = now;
    tx_now = now;
  }

  -- from the card's normal form on
  unfoldable pub redeem_checked :
      Device → Text → ℕ → World r verify → Result RedeemResult × World r verify
  unfolding vertify_license_platform.Redeem.redeem
  redeem_checked dev card now w = elim (normalize_card card) [
    | none ↦ (err card_invalid_format, w)
    | some norm ↦
        if is_banned now BanKind.card_prefix (card_prefix norm) w.db
        then (err banned, w)
        else (let (x, db) =
              vertify_license_platform.Redeem.redeem (redeeming_of dev norm now) w.db in
            (x, record w { db = db }))
  ]

  -- from the device on
  unfoldable pub redeem_signed :
      Windows
      → Answers
      → RedeemRequest
      → Text
      → ℕ
      → World r verify
      → Result RedeemResult × World r verify
  unfolding signer replay redeem_checked
  redeem_signed win answers req card now w = elim (signer r verify req.pub_key w.db) [
    | err e ↦ (err e, w)
    | ok dev ↦
        let (checked, w') = replay r verify win answers redeem dev req.signed now w in
        elim checked [ err e ↦ (err e, w') | ok _ ↦ redeem_checked dev card now w' ]
  ]

  -- `Redeem`
  unfoldable pub redeem_of :
      Windows → Answers → RedeemRequest → ℕ → World r verify → Result RedeemResult × World r verify
  unfolding redeem_signed
  redeem_of win answers req now w = elim req.opened [
    | unopened ↦ (err undecryptable, w)
    | malformed ↦ (err card_invalid_format, w)
    | payload card ↦
        if is_empty card
        then (err card_invalid_format, w)
        else redeem_signed win answers req card now w
  ]
