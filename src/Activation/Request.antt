-- ===== src/Activation/Request.antt =====
-- `Activate` of apps/license-api/internal/service/service.go from the opened envelope to the seat, and
-- `checkActivationReplay` of heartbeat.go. A request's time is one moment, in nanoseconds.
use vertify_license_platform.Prelude.{
  ℕ, ◌+◌, ◌*◌, ◌/◌, ◌^◌, Bool, true, ◌&&◌, ◌||◌, not, Option, none, some, List, [], ◌∷◌, map,
  is_empty, leb, ◌==◌, length, all_of, Text, codes, text_eq, trim_space, if◌then◌else◌,
}
use vertify_license_platform.Domain.{
  Result, ok, err, card_invalid_format, bad_signature, rate_limited, replay_detected,
  seq_regression, banned, undecryptable,
}
use vertify_license_platform.Cache.{Redis, consume_nonce, check_seq, renew_online}
use vertify_license_platform.Cache.Keys.{activate, activating}
use vertify_license_platform.CardCode.{normalize_card, card_prefix, seen}
use vertify_license_platform.Store.Rows.{Kty, TrustLevel, BanKind}
use vertify_license_platform.Store.Tx.{with_tx}
use vertify_license_platform.Store.Catalog.{is_banned}
use vertify_license_platform.Activation.{Activating, ActivationResult, activate_body}
use vertify_license_platform.Heartbeat.{Signed, Windows, off_time}
use vertify_license_platform.Heartbeat.Lease.{Answers, World, seat_of}

-- `ActivatePayload`, but for the entries that are not read
pub record ActivatePayload : Type 0 where
  pub card : Text
  pub components : List Text
  pub device_pub : Text
  pub pub_kty : Text
  pub trust_level : Text
  pub client_version : Text

-- What `OpenEnvelope` and `unmarshalStrict` make of the request's body.
pub data Opened : Type 0 where
  unopened malformed : Opened
  payload : ActivatePayload → Opened

abbrev b64url_rune : ℕ → Bool
b64url_rune c =
    (leb b'A' c && leb c b'Z')
    || (leb b'a' c && leb c b'z')
    || (leb b'0' c && leb c b'9')
    || c == b'_'
    || c == b'-'

-- `validDevicePub`: 43 letters, or 87
unfoldable pub valid_device_pub : Text → Bool
valid_device_pub s = (length s == 43 || length s == 87) && all_of b64url_rune s

abbrev hex_rune : ℕ → Bool
hex_rune c = (leb b'A' c && leb c b'F') || (leb b'a' c && leb c b'f') || (leb b'0' c && leb c b'9')

-- `digestRe`
unfoldable pub is_digest : Text → Bool
is_digest s = length s == 64 && all_of hex_rune s

-- `strings.ToLower` of a digest, which is ASCII
abbrev pub to_lower : Text → Text
to_lower = map (λ c. if leb b'A' c && leb c b'Z' then c + 32 else c)

-- the loop of `validComponents`, `keys` the digests before
unfoldable pub distinct_digests : List Text → List Text → Bool
unfolding is_digest
distinct_digests keys [] = true
distinct_digests keys (d ∷ ds) =
    let key = to_lower (trim_space d) in
    let rest = distinct_digests (key ∷ keys) ds in
    is_digest (trim_space d) && not (seen keys key) && rest

-- `validComponents`
unfoldable pub valid_components : List Text → Bool
unfolding distinct_digests
valid_components ds = leb 1 (length ds) && leb (length ds) 16 && distinct_digests [] ds

-- the checks of the payload
unfoldable pub valid_payload : ActivatePayload → Bool
unfolding valid_device_pub valid_components
valid_payload p =
    not (is_empty p.card) && valid_device_pub p.device_pub && valid_components p.components

-- `if payload.PubKty != "p256" { payload.PubKty = "ed25519" }`
abbrev pub kty_of : Text → Kty
kty_of s = if text_eq s (codes "p256") then Kty.p256 else Kty.ed25519

-- a trust level that is not "tpm" counts as "software"
abbrev pub trust_of : Text → TrustLevel
trust_of s = if text_eq s (codes "tpm") then TrustLevel.tpm else TrustLevel.software

-- The request: what is in the envelope, the signed headers if any, with their `pub`, which the code
-- does not read here, and the UUIDs that the database draws.
pub record ActivateRequest : Type 0 where
  pub opened : Opened
  pub signed : Option Signed
  pub header_pub : Text
  pub new_license : ℕ
  pub new_device : ℕ

module _ (r : Redis) where
  open r use {Strings}

  -- `checkActivationReplay`; each of the two Booleans tells whether Redis answers that call.
  unfoldable pub check_activation_replay :
      Windows → Bool → Bool → Text → Signed → ℕ → Strings → Result (Unit {0}) × Strings
  unfolding consume_nonce check_seq
  check_activation_replay win to_nonce to_seq key ds now s =
      let (new, s₁) = consume_nonce r activate ds.nonce (win.replay + win.skew) now s in
      let ((good, known), s₂) = check_seq r (activating key) ds.seq (win.replay * 10) now s₁ in
      if off_time win now ds.ts
      then (err replay_detected, s)
      else if not to_nonce
      then (err rate_limited, s)
      else if not new
      then (err replay_detected, s₁)
      else if not to_seq
      then (err rate_limited, s₁)
      else if good
      then (ok tt, s₂)
      else (err seq_regression, s₂)

-- The keyed hashes are parameters, and `verify` is whether the request carries the signature of a
-- public key over its message.
module _ (r : Redis) (verify : Text → Kty → Bool) (card_lookup : Text → Text)
    (fingerprint : List Text → Text) where
  -- what the transaction is given
  abbrev pub activating_of : ActivateRequest → ActivatePayload → Text → ℕ → Activating
  activating_of req p norm now = record {
    lookup = card_lookup norm;
    fp_hash = fingerprint p.components;
    device_pub = p.device_pub;
    pub_kty = kty_of p.pub_kty;
    trust_level = trust_of p.trust_level;
    version = p.client_version;
    now = now;
    new_license = req.new_license;
    new_device = req.new_device;
  }

  -- the seat of the new device, which Redis gives or not; a full licence is activated all the same
  unfoldable pub take_seat :
      Bool → ℕ → Result ActivationResult → World r verify → Result ActivationResult × World r verify
  unfolding renew_online
  take_seat to_seat now (err e) w = (err e, w)
  take_seat to_seat now (ok a) w =
      let (_, z) =
        renew_online r (now / 10 ^ 6) (a.lease_ttl * 1000) a.device_id a.concurrent_lim
          (w.seats a.license_id) in
      if to_seat
      then (ok a, record w { seats = seat_of r verify a.license_id z w.seats })
      else (err rate_limited, w)

  -- the transaction and the seat
  unfoldable pub run_activation :
      Bool → Activating → World r verify → Result ActivationResult × World r verify
  unfolding activate_body take_seat
  run_activation to_seat a w =
      let (x, db) = with_tx (activate_body a) w.db in
      take_seat to_seat a.now x (record w { db = db })

  -- from the card's normal form on
  unfoldable pub activate_checked :
      Bool
      → ActivateRequest
      → ActivatePayload
      → ℕ
      → World r verify
      → Result ActivationResult × World r verify
  unfolding run_activation
  activate_checked to_seat req p now w = elim (normalize_card p.card) [
    | none ↦ (err card_invalid_format, w)
    | some norm ↦
        if is_banned now BanKind.card_prefix (card_prefix norm) w.db
          || is_banned now BanKind.device p.device_pub w.db
        then (err banned, w)
        else run_activation to_seat (activating_of req p norm now) w
  ]

  -- from the signature on
  unfoldable pub activate_payload :
      Windows
      → Answers
      → ActivateRequest
      → ActivatePayload
      → ℕ
      → World r verify
      → Result ActivationResult × World r verify
  unfolding check_activation_replay activate_checked
  activate_payload win answers req p now w = elim req.signed [
    | none ↦ (err bad_signature, w)
    | some ds ↦
        if not (verify p.device_pub (kty_of p.pub_kty))
        then (err bad_signature, w)
        else (let (checked, s) =
              check_activation_replay r win answers.to_nonce answers.to_seq p.device_pub ds
                (now / 10 ^ 6) w.strings in
            elim checked [
              | err e ↦ (err e, record w { strings = s })
              | ok _ ↦ activate_checked answers.to_seat req p now (record w { strings = s })
            ])
  ]

  -- `Activate`
  unfoldable pub activate_of :
      Windows
      → Answers
      → ActivateRequest
      → ℕ
      → World r verify
      → Result ActivationResult × World r verify
  unfolding valid_payload activate_payload
  activate_of win answers req now w = elim req.opened [
    | unopened ↦ (err undecryptable, w)
    | malformed ↦ (err card_invalid_format, w)
    | payload p ↦
        if valid_payload p
        then activate_payload win answers req p now w
        else (err card_invalid_format, w)
  ]
