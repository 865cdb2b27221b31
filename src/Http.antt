-- ===== src/Http.antt =====
-- The answers of the HTTP API: `MapError` of apps/license-api/internal/httpapi/middleware.go. An
-- answer is its status and the stable code of its error, empty where the call succeeds; the messages
-- and the data are left out.
pub mod Routes
pub mod Gate
pub mod Access
pub mod Commands
pub mod Handlers
pub mod Login
pub mod Limits
pub mod Client
pub mod Quiet
pub mod Isolation
use vertify_license_platform.Prelude.{ℕ, Option, none, some, [], Text, codes}
use vertify_license_platform.Domain.{
  Error, card_not_found, card_invalid_format, card_not_usable, card_frozen, card_revoked,
  card_voided, card_depleted, license_frozen, license_revoked, license_expired, license_voided,
  device_limit, concurrent_limit, device_not_found, device_unbound, bad_signature, replay_detected,
  seq_regression, rate_limited, banned, plan_retired, product_retired, product_not_granted,
  version_too_old, insufficient_balance, agent_not_found, plan_in_use, plan_not_retired,
  user_exists, user_disabled, machine_bound, bad_security_code, bad_username, bad_credentials,
  account_expired, envelope, foreign_key_violation, invalid_input, no_rows, unique_violation,
  Result, ok, err,
}
use vertify_license_platform.Store.Rows.{Db}
use vertify_license_platform.Store.Tx.{Tx}

pub record Answer : Type 0 where
  pub status : ℕ
  pub code : Text

abbrev pub answer : ℕ → Text → Answer
answer n s = record { status = n; code = s }

-- `writeJSON` of a result
abbrev pub success : ℕ → Answer
success n = answer n []

-- `MapError`; no two of its cases hold of one error, so their order is free.
unfoldable pub map_error : Error → Answer
map_error no_rows = answer 404 (codes "NOT_FOUND")
map_error plan_in_use = answer 409 (codes "PLAN_IN_USE")
map_error plan_not_retired = answer 409 (codes "PLAN_NOT_RETIRED")
map_error product_not_granted = answer 403 (codes "PRODUCT_NOT_GRANTED")
map_error card_not_found = answer 404 (codes "CARD_NOT_FOUND")
map_error card_invalid_format = answer 400 (codes "CARD_INVALID")
map_error card_not_usable = answer 409 (codes "CARD_NOT_USABLE")
map_error plan_retired = answer 409 (codes "CARD_NOT_USABLE")
map_error product_retired = answer 409 (codes "CARD_NOT_USABLE")
map_error card_frozen = answer 403 (codes "CARD_FROZEN")
map_error card_revoked = answer 403 (codes "CARD_REVOKED")
map_error card_voided = answer 403 (codes "CARD_VOIDED")
map_error card_depleted = answer 403 (codes "CARD_DEPLETED")
map_error license_frozen = answer 403 (codes "LICENSE_FROZEN")
map_error license_revoked = answer 403 (codes "LICENSE_REVOKED")
map_error license_voided = answer 403 (codes "LICENSE_VOIDED")
map_error license_expired = answer 403 (codes "LICENSE_EXPIRED")
map_error device_limit = answer 409 (codes "DEVICE_LIMIT")
map_error concurrent_limit = answer 409 (codes "CONCURRENT_LIMIT")
map_error device_not_found = answer 404 (codes "DEVICE_NOT_FOUND")
map_error device_unbound = answer 409 (codes "DEVICE_UNBOUND")
map_error bad_signature = answer 401 (codes "BAD_SIGNATURE")
map_error replay_detected = answer 409 (codes "REPLAY_DETECTED")
map_error seq_regression = answer 409 (codes "SEQ_REGRESSION")
map_error rate_limited = answer 429 (codes "RATE_LIMITED")
map_error banned = answer 403 (codes "BANNED")
map_error agent_not_found = answer 404 (codes "AGENT_NOT_FOUND")
map_error insufficient_balance = answer 409 (codes "BALANCE_INSUFFICIENT")
map_error bad_credentials = answer 401 (codes "BAD_CREDENTIALS")
map_error user_exists = answer 409 (codes "USER_EXISTS")
map_error user_disabled = answer 403 (codes "USER_DISABLED")
map_error machine_bound = answer 409 (codes "MACHINE_BOUND")
map_error bad_security_code = answer 400 (codes "BAD_SECURITY_CODE")
map_error account_expired = answer 403 (codes "ACCOUNT_EXPIRED")
map_error bad_username = answer 400 (codes "BAD_USERNAME")
map_error version_too_old = answer 426 (codes "VERSION_TOO_OLD")
map_error envelope = answer 400 (codes "ENVELOPE_INVALID")
map_error unique_violation = answer 409 (codes "ALREADY_EXISTS")
map_error foreign_key_violation = answer 400 (codes "BAD_REFERENCE")
map_error invalid_input = answer 404 (codes "NOT_FOUND")
map_error _ = answer 500 (codes "INTERNAL")

-- what a handler answers to the result of a call: the error's answer, or that of its result
abbrev pub answer_of {ℓ} : {A : Type ℓ} → ℕ → Result A → Answer
answer_of n (ok a) = success n
answer_of n (err e) = map_error e

-- A handler reads and writes the database, and answers.
abbrev pub Handler : Type 0
Handler = Db → Answer × Db

abbrev pub refuse : Answer → Handler
refuse a db = (a, db)

-- the call of a service
abbrev pub call : {A : Type 0} → ℕ → Tx A → Handler
call n m db = let (r, db') = m db in (answer_of n r, db')

abbrev pub bad_request : Answer
bad_request = answer 400 (codes "BAD_REQUEST")

-- the request's body, none where `decodeJSON` fails
abbrev pub with_body : {B : Type 0} → Option B → (B → Handler) → Handler
with_body none h db = (bad_request, db)
with_body (some b) h db = h b db
