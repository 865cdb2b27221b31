-- ===== src/Cache/Keys.antt =====
-- The string keys of apps/license-api/internal/cache/cache.go, by their parts.
use vertify_license_platform.Prelude.{
  ℕ, ◌≡◌, ◌↔◌, Bool, true, false, ◌&&◌, ◌==◌, Text, text_eq, text_eq_iff, arith,
}

-- the `scope` arguments of the callers
pub data Scope : Type 0 where
  activate heartbeat redeem deactivate : Scope

abbrev scope_index : Scope → ℕ
scope_index activate = 0
scope_index heartbeat = 1
scope_index redeem = 2
scope_index deactivate = 3

-- whose sequence: a device by its ID, or a public key that activates ("activate:" + pub)
pub data Owner : Type 0 where
  device : ℕ → Owner
  activating : Text → Owner

abbrev owner_eq : Owner → Owner → Bool
owner_eq (device a) (device b) = a == b
owner_eq (device a) (activating q) = false
owner_eq (activating p) (device b) = false
owner_eq (activating p) (activating q) = text_eq p q

-- "nonce:<scope>:<nonce>" and "seq:dev:<owner>"
pub data Key : Type 0 where
  nonce : Scope → Text → Key
  seq_dev : Owner → Key

unfoldable pub key_eq : Key → Key → Bool
key_eq (nonce s n) (nonce t m) = scope_index s == scope_index t && text_eq n m
key_eq (nonce s n) (seq_dev o) = false
key_eq (seq_dev o) (nonce t m) = false
key_eq (seq_dev o) (seq_dev p) = owner_eq o p

pub key_eq_self : (k : Key) → key_eq k k ≡ true
unfolding key_eq
key_eq_self (nonce s n) = ground (arith, text_eq_iff n n)
key_eq_self (seq_dev (device a)) = ground arith
key_eq_self (seq_dev (activating p)) = ground (arith, text_eq_iff p p)

pub key_eq_iff : (j k : Key) → (key_eq j k ≡ true) ↔ (j ≡ k)
unfolding key_eq
key_eq_iff (nonce s n) (nonce t m) = ground (arith, text_eq_iff n m)
key_eq_iff (nonce s n) (seq_dev o) = ground arith
key_eq_iff (seq_dev o) (nonce t m) = ground arith
key_eq_iff (seq_dev (device a)) (seq_dev (device b)) = ground arith
key_eq_iff (seq_dev (device a)) (seq_dev (activating q)) = ground arith
key_eq_iff (seq_dev (activating p)) (seq_dev (device b)) = ground arith
key_eq_iff (seq_dev (activating p)) (seq_dev (activating q)) = ground (arith, text_eq_iff p q)
