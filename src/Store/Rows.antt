-- ===== src/Store/Rows.antt =====
-- apps/license-api/internal/store/models.go: the rows of the tables, and the database. Columns that
-- are only shown (names, IP addresses, user agents, JSON details) are left out. An ID is a UUID,
-- which is a number; a time counts nanoseconds.
use vertify_license_platform.Prelude.{ℕ, ◌*◌, ◌/◌, ◌^◌, Bool, Option, List, Text}
use vertify_license_platform.Domain.{CardStatus, LicenseStatus, DeviceStatus}
use vertify_license_platform.Store.Accounts.{
  Agent, AgentTransaction, CardBatch, Grant, EndUser, Admin, AdminSession,
}

-- `time.Duration` of a day, with neither leap seconds nor a change of the clock
abbrev pub day : ℕ
day = 86400 * 10 ^ 9

-- `t.Unix()`
abbrev pub unix : ℕ → ℕ
unix t = t / 10 ^ 9

-- products and plans are active or retired
pub record Product : Type 0 where
  pub id : ℕ
  pub code : Text
  pub is_active : Bool

pub data PlanKind : Type 0 where
  duration fixed permanent uses : PlanKind

pub record Plan : Type 0 where
  pub id : ℕ
  pub product_id : ℕ
  pub code : Text
  pub kind : PlanKind
  pub duration_days : ℕ
  pub fixed_expiry_days : ℕ
  pub uses_total : ℕ
  pub device_limit : ℕ
  pub concurrent_limit : ℕ
  pub features : List Text
  pub offline_grace : ℕ
  pub lease_ttl : ℕ
  pub heartbeat_sec : ℕ
  pub rebind_cooldown_h : ℕ
  pub monthly_rebind : ℕ
  pub min_client_ver : Text
  pub price_cents : ℕ
  pub is_active : Bool

pub data CardKind : Type 0 where
  license renewal : CardKind

pub record Card : Type 0 where
  pub id : ℕ
  pub batch_id : ℕ
  pub agent_id : Option ℕ
  pub product_id : ℕ
  pub plan_id : ℕ
  pub lookup : Text
  pub prefix : Text
  pub kind : CardKind
  pub status : CardStatus
  pub uses_total : ℕ
  pub uses_left : ℕ
  pub license_id : Option ℕ
  pub used_by_user : Option ℕ
  pub note : Text
  pub activated_at : Option ℕ
  pub created_at : ℕ

pub record License : Type 0 where
  pub id : ℕ
  pub product_id : ℕ
  pub plan_id : ℕ
  pub agent_id : Option ℕ
  pub origin_card_id : ℕ
  pub status : LicenseStatus
  pub uses_left : Option ℕ
  pub activated_at : ℕ
  pub expires_at : Option ℕ
  pub policy_version : ℕ

pub data Kty : Type 0 where
  ed25519 p256 : Kty

pub data TrustLevel : Type 0 where
  tpm software : TrustLevel

pub record Device : Type 0 where
  pub id : ℕ
  pub license_id : ℕ
  pub fingerprint_hash : Text
  pub device_pub : Text
  pub pub_kty : Kty
  pub trust_level : TrustLevel
  pub status : DeviceStatus
  pub bound_at : ℕ
  pub unbound_at : Option ℕ
  pub last_heartbeat_at : Option ℕ
  pub client_version : Text
  pub last_seq : ℕ

pub data BanKind : Type 0 where
  ip device card_prefix client_version asn : BanKind

pub record Ban : Type 0 where
  pub kind : BanKind
  pub value : Text
  pub until : Option ℕ

pub data ActivationKind : Type 0 where
  initial rebind reactivation : ActivationKind

pub record Activation : Type 0 where
  pub license_id : ℕ
  pub card_id : ℕ
  pub device_id : ℕ
  pub kind : ActivationKind

pub record Renewal : Type 0 where
  pub license_id : ℕ
  pub card_id : ℕ
  pub days_added : ℕ
  pub old_expires_at : Option ℕ
  pub new_expires_at : Option ℕ

pub data EventKind : Type 0 where
  activated renewed frozen unfrozen revoked voided device_bound device_unbound expired : EventKind

pub record LicenseEvent : Type 0 where
  pub license_id : ℕ
  pub kind : EventKind

pub record Db : Type 0 where
  pub products : List Product
  pub plans : List Plan
  pub cards : List Card
  pub licenses : List License
  pub devices : List Device
  pub bans : List Ban
  pub activations : List Activation
  pub renewals : List Renewal
  pub events : List LicenseEvent
  pub agents : List Agent
  pub transactions : List AgentTransaction
  pub batches : List CardBatch
  pub grants : List Grant
  pub users : List EndUser
  pub admins : List Admin
  pub sessions : List AdminSession
