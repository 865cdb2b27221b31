-- ===== src/Store/Accounts.antt =====
-- apps/license-api/internal/store/models.go and users.go: the rows of agents, their transactions and
-- batches, end users, administrators and sessions.
use vertify_license_platform.Prelude.{ℕ, Bool, Option, Text}
use vertify_license_platform.Domain.{AdminRole}

-- agents are active or suspended
pub record Agent : Type 0 where
  pub id : ℕ
  pub parent_id : Option ℕ
  pub balance_cents : ℕ
  pub is_active : Bool

-- A signed number of cents: a credit is positive, a debit negative.
pub data Amount : Type 0 where
  credit debit : ℕ → Amount

pub data TransactionKind : Type 0 where
  topup adjust batch_purchase : TransactionKind

pub record AgentTransaction : Type 0 where
  pub agent_id : ℕ
  pub amount_cents : Amount
  pub balance_after : ℕ
  pub kind : TransactionKind
  pub ref_batch_id : Option ℕ

pub record CardBatch : Type 0 where
  pub id : ℕ
  pub agent_id : Option ℕ
  pub product_id : ℕ
  pub plan_id : ℕ
  pub quantity : ℕ
  pub prefix : Text

-- `agent_product_grants`
pub record Grant : Type 0 where
  pub agent_id : ℕ
  pub product_id : ℕ

-- Users are active or disabled; an expiry of none is Go's zero time, in the year 1.
pub record EndUser : Type 0 where
  pub id : ℕ
  pub product_id : ℕ
  pub username : Text
  pub password_hash : Text
  pub security_hash : Text
  pub is_active : Bool
  pub expires_at : Option ℕ
  pub machine_hash : Option Text
  pub last_login_at : Option ℕ

-- administrators are active or disabled
pub record Admin : Type 0 where
  pub id : ℕ
  pub username : Text
  pub password_hash : Text
  pub role : AdminRole
  pub agent_id : Option ℕ
  pub totp_secret : Option Text
  pub mfa_enabled : Bool
  pub is_active : Bool
  pub failed_attempts : ℕ
  pub locked_until : Option ℕ
  pub must_change_password : Bool

pub record AdminSession : Type 0 where
  pub id : ℕ
  pub admin_id : ℕ
  pub token_hash : Text
  pub csrf_token : Text
  pub expires_at : ℕ
  pub revoked_at : Option ℕ
