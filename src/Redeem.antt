-- ===== src/Redeem.antt =====
-- The transaction of `Redeem` in apps/license-api/internal/service/heartbeat.go: a renewal card
-- lengthens the licence of the device that signs.
pub mod Renew
pub mod Once
pub mod Request
pub mod Guarded
use vertify_license_platform.Prelude.{
  ℕ, ◌+◌, true, not, none, some, [], ltb, ◌==◌, Text, if◌then◌else◌, Bool, false, Option,
}
use vertify_license_platform.Domain.{
  CardStatus, card_is, LicenseStatus, license_is, card_not_found, card_not_usable, plan_retired,
}
use vertify_license_platform.Store.Rows.{Card, Plan, License, EventKind, Renewal, unix}
use vertify_license_platform.Store.Tx.{Tx, pure, raise_if, or_raise, with_tx, ◌>>=◌, ◌>>◌}
use vertify_license_platform.Store.Cards.{get_card_by_lookup, set_card_status}
use vertify_license_platform.Store.Licenses.{
  get_license, extend_license, insert_renewal, insert_event,
}
use vertify_license_platform.Store.Catalog.{get_plan}
use vertify_license_platform.Claims.{
  LeaseClaims, expiry_claim, map_card_err, map_license_err, is_license_card,
}

-- The device that signs, the lookup of the card, the time in the service, and the time that the
-- database gives the transaction.
pub record Redeeming : Type 0 where
  pub device_id : ℕ
  pub license_id : ℕ
  pub lookup : Text
  pub now : ℕ
  pub tx_now : ℕ

pub record RedeemResult : Type 0 where
  pub license_id : ℕ
  pub new_expiry : ℕ
  pub days_added : ℕ
  pub claims : LeaseClaims

abbrev pub never_expires : Option ℕ → Bool
never_expires none = true
never_expires (some t) = false

-- the claims: `lic` is the row as it was read, before `ExtendLicense`
unfoldable pub redeem_claims : Redeeming → License → Plan → LeaseClaims
redeem_claims q lic plan = record {
  lic = lic.id;
  prod = [];
  dev = q.device_id;
  feat = plan.features;
  iss = unix q.now;
  exp = unix q.now + plan.lease_ttl;
  lic_exp = expiry_claim lic.expires_at;
  pol = lic.policy_version;
  hbi = plan.heartbeat_sec;
  grace = plan.offline_grace;
  min_ver = [];
}

-- the guards on the card
unfoldable pub redeemable : License → Card → Tx (Unit {0})
redeemable lic card = do
  raise_if (is_license_card card.kind) card_not_usable
  raise_if (not (card.product_id == lic.product_id)) card_not_usable
  raise_if (not (card_is card.status CardStatus.unused)) (map_card_err card.status)

-- what is written once the guards have passed
unfoldable pub renew : Redeeming → License → Card → ℕ → Plan → Tx RedeemResult
unfolding redeem_claims
renew q lic card days plan = do
  new_expiry ← extend_license q.tx_now lic.id days
  set_card_status card.id CardStatus.depleted
  insert_renewal (record {
    license_id = lic.id;
    card_id = card.id;
    days_added = days;
    old_expires_at = lic.expires_at;
    new_expires_at = some new_expiry;
  })
  insert_event lic.id EventKind.renewed
  pure (record {
    license_id = lic.id;
    new_expiry = new_expiry;
    days_added = days;
    claims = redeem_claims q lic plan;
  })

-- the plans of the card and of the licence
unfoldable pub redeem_planned : Redeeming → License → Card → Tx RedeemResult
unfolding renew
redeem_planned q lic card = do
  plan ← get_plan card.plan_id
  raise_if (plan.duration_days == 0) card_not_usable
  license_plan ← get_plan lic.plan_id
  raise_if (not license_plan.is_active) plan_retired
  renew q lic card plan.duration_days license_plan

-- the function that `Redeem` hands to `WithTx`
unfoldable pub redeem_body : Redeeming → Tx RedeemResult
unfolding redeemable redeem_planned get_card_by_lookup
redeem_body q = do
  lic ← get_license q.license_id
  raise_if (not (license_is lic.status LicenseStatus.active)) (map_license_err lic.status)
  raise_if (never_expires lic.expires_at) card_not_usable
  card ← or_raise (get_card_by_lookup q.lookup) card_not_found
  redeemable lic card
  redeem_planned q lic card

-- `s.Store.WithTx` around it
unfoldable pub redeem : Redeeming → Tx RedeemResult
unfolding redeem_body
redeem q = with_tx (redeem_body q)
