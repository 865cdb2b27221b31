-- ===== src/Domain.antt =====
-- apps/license-api/internal/domain/domain.go: the states, roles, permissions and error values.
-- A status column holds one of the strings that the schema's CHECK admits, so it is an enumeration.
pub mod Roles
use vertify_license_platform.Prelude.{ℕ, Bool, true, false, ◌||◌, ◌==◌, ◌≡◌, refl, ◌⊎◌, inl, inr}

pub data CardStatus : Type 0 where
  unused active frozen revoked voided depleted : CardStatus

abbrev card_index : CardStatus → ℕ
card_index CardStatus.unused = 0
card_index CardStatus.active = 1
card_index CardStatus.frozen = 2
card_index CardStatus.revoked = 3
card_index CardStatus.voided = 4
card_index CardStatus.depleted = 5

-- `card.Status == "…"`
abbrev pub card_is : CardStatus → CardStatus → Bool
card_is s t = card_index s == card_index t

-- `Terminal`
abbrev pub terminal : CardStatus → Bool
terminal s =
    card_is s CardStatus.revoked || card_is s CardStatus.voided || card_is s CardStatus.depleted

-- expired is derived from `expires_at`, and no stored state
pub data LicenseStatus : Type 0 where
  active frozen revoked voided : LicenseStatus

abbrev license_index : LicenseStatus → ℕ
license_index LicenseStatus.active = 0
license_index LicenseStatus.frozen = 1
license_index LicenseStatus.revoked = 2
license_index LicenseStatus.voided = 3

abbrev pub license_is : LicenseStatus → LicenseStatus → Bool
license_is s t = license_index s == license_index t

pub data DeviceStatus : Type 0 where
  active unbound : DeviceStatus

-- `dev.Status == "active"`
abbrev pub device_active : DeviceStatus → Bool
device_active DeviceStatus.active = true
device_active DeviceStatus.unbound = false

pub data AdminRole : Type 0 where
  superadmin admin agent auditor viewer : AdminRole

pub data Permission : Type 0 where
  products_read products_write cards_read cards_export cards_manage : Permission
  licenses_read licenses_manage devices_manage admins_manage agents_manage : Permission
  audit_read risk_manage stats_read users_manage : Permission

-- The error values that the modelled code returns: those of the domain package, then
-- `store.ErrNoRows`, the unique violations of PostgreSQL, and the messages made on the spot.
pub data Error : Type 0 where
  card_not_found card_invalid_format card_not_usable card_frozen card_revoked : Error
  card_voided card_depleted license_frozen license_revoked license_expired license_voided : Error
  device_limit concurrent_limit device_not_found device_unbound bad_signature : Error
  replay_detected seq_regression rate_limited banned plan_retired product_retired : Error
  product_not_granted version_too_old insufficient_balance agent_not_found : Error
  plan_in_use plan_not_retired : Error
  user_exists user_disabled machine_bound bad_security_code bad_username : Error
  bad_credentials account_locked mfa_required mfa_bad session_gone csrf : Error
  -- a nil pointer that is followed
  nil_pointer : Error
  rebind_cooldown rebind_limit account_expired : Error
  -- `errEnvelope`, the errors of `OpenEnvelope`, and what PostgreSQL and the argument checks report
  envelope undecryptable foreign_key_violation invalid_input : Error
  no_rows signing_failed unique_violation unknown_action out_of_range bad_argument : Error

pub data Result {ℓ} (A : Type ℓ) : Type ℓ where
  ok : A → Result A
  err : Error → Result A

abbrev pub is_ok {ℓ} : {A : Type ℓ} → Result A → Bool
is_ok (ok a) = true
is_ok (err e) = false

pub Result-cases {ℓ} :
    {A : Type ℓ} (r : Result A) → ((a : A) × (r ≡ ok a)) ⊎ ((e : Error) × (r ≡ err e))
Result-cases (ok a) = inl (a, refl)
Result-cases (err e) = inr (e, refl)
