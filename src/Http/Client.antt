-- ===== src/Http/Client.antt =====
-- The clients' handlers of apps/license-api/internal/httpapi/client.go: `handleActivate`,
-- `handleHeartbeat`, `handleRedeem` and `handleDeactivate`.
use vertify_license_platform.Prelude.{
  ℕ, ◌≡◌, Bool, true, false, ◌&&◌, not, Option, none, some, List, Text, codes, if◌then◌else◌, arith,
}
use vertify_license_platform.Domain.{Error, Result, ok, err, card_not_found, card_invalid_format}
use vertify_license_platform.Cache.{Redis}
use vertify_license_platform.Store.Rows.{Kty, BanKind}
use vertify_license_platform.Store.Catalog.{is_banned}
use vertify_license_platform.Activation.Request.{ActivateRequest, unopened, activate_of}
use vertify_license_platform.Redeem.Request.{RedeemRequest, redeem_of}
use vertify_license_platform.Heartbeat.{Signed, Windows}
use vertify_license_platform.Heartbeat.Lease.{
  HeartbeatRequest, Answers, World, heartbeat_of, deactivate_of,
}
use vertify_license_platform.Http.{Answer, answer, success, bad_request, map_error, answer_of}

-- What the front of a handler is told: whether the body is there, the client's address, whether
-- `CardFailure` limits it, and whether the lease of an
-- activation or a renewal could be signed.
pub record Front : Type 0 where
  pub has_body : Bool
  pub ip : Text
  pub limited : Bool
  pub minted : Bool

-- `errors.Is(err, ErrCardNotFound) || errors.Is(err, ErrCardInvalidFormat)`
abbrev pub is_card_miss : Error → Bool
is_card_miss card_not_found = true
is_card_miss card_invalid_format = true
is_card_miss _ = false

-- the answer to the result of an activation, or of a renewal
unfoldable pub card_answer : {A : Type 0} → Front → Result A → Answer
unfolding map_error
card_answer f (ok a) = if f.minted then success 200 else answer 500 (codes "INTERNAL")
card_answer f (err e) =
    if is_card_miss e && f.limited then answer 429 (codes "RATE_LIMITED") else map_error e

module _ (r : Redis) (verify : Text → Kty → Bool) where
  -- `handleHeartbeat`; the header is none where `parseDeviceAuth` fails.
  unfoldable pub handle_heartbeat :
      Windows
      → Answers
      → Front
      → Option HeartbeatRequest
      → ℕ
      → World r verify
      → Answer × World r verify
  unfolding heartbeat_of map_error
  handle_heartbeat win answers f none now w = (bad_request, w)
  handle_heartbeat win answers f (some req) now w =
      let (x, w') = heartbeat_of r verify win answers req now w in
      if f.has_body then (answer_of 200 x, w') else (bad_request, w)

  -- `handleDeactivate`
  unfoldable pub handle_deactivate :
      Windows
      → Answers
      → Front
      → Text
      → Option Signed
      → ℕ
      → World r verify
      → Answer × World r verify
  unfolding deactivate_of map_error
  handle_deactivate win answers f pub_key none now w = (bad_request, w)
  handle_deactivate win answers f pub_key (some ds) now w =
      let (x, w') = deactivate_of r verify win answers pub_key ds now w in
      if f.has_body then (answer_of 200 x, w') else (bad_request, w)

  module _ (card_lookup : Text → Text) (fingerprint : List Text → Text) where
    -- `handleActivate`
    unfoldable pub handle_activate :
        Windows → Answers → Front → ActivateRequest → ℕ → World r verify → Answer × World r verify
    unfolding activate_of card_answer
    handle_activate win answers f req now w = elim req.signed [
      | none ↦ (bad_request, w)
      | some _ ↦
          let (x, w') = activate_of r verify card_lookup fingerprint win answers req now w in
          if not f.has_body
          then (bad_request, w)
          else if is_banned now BanKind.ip f.ip w.db
          then (answer 403 (codes "BANNED"), w)
          else (card_answer f x, w')
    ]

    -- `handleRedeem`; the request is none where `parseDeviceAuth` fails.
    unfoldable pub handle_redeem :
        Windows
        → Answers
        → Front
        → Option RedeemRequest
        → ℕ
        → World r verify
        → Answer × World r verify
    unfolding redeem_of card_answer
    handle_redeem win answers f none now w = (bad_request, w)
    handle_redeem win answers f (some req) now w =
        let (x, w') = redeem_of r verify card_lookup win answers req now w in
        if not f.has_body
        then (bad_request, w)
        else if is_banned now BanKind.ip f.ip w.db
        then (answer 403 (codes "BANNED"), w)
        else (card_answer f x, w')

    -- A complete activation request from an address that is not banned, whose envelope cannot be
    -- opened, changes nothing and is answered with an internal error, and not as an invalid envelope.
    unopened_internal :
        (win : Windows) (answers : Answers) (f : Front) (req : ActivateRequest) (ds : Signed)
        (now : ℕ) (w : World r verify)
        → f.has_body ≡ true
        → req.signed ≡ some ds
        → req.opened ≡ unopened
        → is_banned now BanKind.ip f.ip w.db ≡ false
        → handle_activate win answers f req now w ≡ (answer 500 (codes "INTERNAL"), w)
    unfolding handle_activate activate_of card_answer map_error
    unopened_internal win answers f req ds now w body sent closed free =
        ground (arith, body, sent, closed, free)
