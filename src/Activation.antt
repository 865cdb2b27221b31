-- ===== src/Activation.antt =====
-- The transaction of `Activate` in apps/license-api/internal/service/service.go: a card makes a
-- licence with its first device, or binds a further device to the licence that it made.
pub mod Fresh
pub mod Again
pub mod Request
pub mod Guarded
use vertify_license_platform.Prelude.{
  ℕ, ◌+◌, ◌*◌, ◌≡◌, Bool, true, false, ◌&&◌, ◌||◌, not, Option, none, some, List, [], ◌∷◌, ltb, leb,
  ◌==◌, Text, text_eq, if◌then◌else◌,
}
use vertify_license_platform.Domain.{
  CardStatus, LicenseStatus, license_is, DeviceStatus, Error, Result, ok, err, no_rows, nil_pointer,
  card_not_found, card_not_usable, card_frozen, card_revoked, card_voided, card_depleted,
  license_frozen, license_revoked, license_voided, license_expired, device_limit, product_retired,
  plan_retired,
}
use vertify_license_platform.Claims.{
  LeaseClaims, expiry_claim, map_card_err, map_license_err, has_expired, is_license_card,
}
use vertify_license_platform.Store.Rows.{
  Product, Plan, PlanKind, Card, CardKind, License, Device, Kty, TrustLevel, Activation,
  ActivationKind, EventKind, Db, day, unix,
}
use vertify_license_platform.Store.Tx.{Tx, pure, raise, raise_if, or_raise, or_any, ◌>>=◌, ◌>>◌}
use vertify_license_platform.Store.Cards.{get_card_by_lookup, set_card_status, set_card_activated}
use vertify_license_platform.Store.Licenses.{
  get_license, create_license, consume_license_use, insert_event, insert_activation,
}
use vertify_license_platform.Store.Devices.{
  create_device, get_device_by_fingerprint, count_active_devices, rotate_device_pub,
}
use vertify_license_platform.Store.Catalog.{get_plan, get_product}

-- What the transaction is given: the checked payload, the time, and the UUIDs that the database
-- draws for a new licence and a new device.
pub record Activating : Type 0 where
  pub lookup : Text
  pub fp_hash : Text
  pub device_pub : Text
  pub pub_kty : Kty
  pub trust_level : TrustLevel
  pub version : Text
  pub now : ℕ
  pub new_license : ℕ
  pub new_device : ℕ

pub record ActivationResult : Type 0 where
  pub license_id : ℕ
  pub device_id : ℕ
  pub lease_ttl : ℕ
  pub concurrent_lim : ℕ
  pub license_expiry : Option ℕ
  pub reactivated : Bool
  pub claims : LeaseClaims

unfoldable pub build_result : ℕ → License → Device → Plan → Product → Bool → ActivationResult
build_result now lic dev plan prod reactivated = record {
  license_id = lic.id;
  device_id = dev.id;
  lease_ttl = plan.lease_ttl;
  concurrent_lim = plan.concurrent_limit;
  license_expiry = lic.expires_at;
  reactivated = reactivated;
  claims = record {
    lic = lic.id;
    prod = prod.code;
    dev = dev.id;
    feat = plan.features;
    iss = unix now;
    exp = unix now + plan.lease_ttl;
    lic_exp = expiry_claim lic.expires_at;
    pol = lic.policy_version;
    hbi = plan.heartbeat_sec;
    grace = plan.offline_grace;
    min_ver = plan.min_client_ver;
  };
}

-- `expiresAt` of a fresh licence
unfoldable pub fresh_expiry : ℕ → Plan → Card → Option ℕ
fresh_expiry now plan card = elim plan.kind [
  | PlanKind.duration ↦ some (now + plan.duration_days * day)
  | PlanKind.fixed ↦ some (card.created_at + plan.fixed_expiry_days * day)
  | PlanKind.permanent ↦ none
  | PlanKind.uses ↦ none
]

-- `usesLeft` of a fresh licence
unfoldable pub fresh_uses : Plan → Option ℕ
fresh_uses plan = elim plan.kind [ PlanKind.uses ↦ some plan.uses_total | _ ↦ none ]

-- `if t.Before(now) { return domain.ErrCardNotUsable }`, under "fixed"
abbrev fixed_over : ℕ → Plan → Card → Bool
fixed_over now plan card = elim plan.kind [
  | PlanKind.fixed ↦ ltb (card.created_at + plan.fixed_expiry_days * day) now
  | _ ↦ false
]

abbrev pub is_uses : PlanKind → Bool
is_uses PlanKind.uses = true
is_uses _ = false

abbrev pub kty_eq : Kty → Kty → Bool
kty_eq Kty.ed25519 Kty.ed25519 = true
kty_eq Kty.p256 Kty.p256 = true
kty_eq _ _ = false

-- the row that `CreateLicense` inserts
unfoldable pub fresh_license : Activating → Plan → Card → License
unfolding fresh_expiry fresh_uses
fresh_license a plan card = record {
  id = a.new_license;
  product_id = card.product_id;
  plan_id = card.plan_id;
  agent_id = card.agent_id;
  origin_card_id = card.id;
  status = LicenseStatus.active;
  uses_left = fresh_uses plan;
  activated_at = a.now;
  expires_at = fresh_expiry a.now plan card;
  policy_version = 1;
}

-- the row that `CreateDevice` inserts
unfoldable pub bound_device : Activating → ℕ → Device
bound_device a license_id = record {
  id = a.new_device;
  license_id = license_id;
  fingerprint_hash = a.fp_hash;
  device_pub = a.device_pub;
  pub_kty = a.pub_kty;
  trust_level = a.trust_level;
  status = DeviceStatus.active;
  bound_at = a.now;
  unbound_at = none;
  last_heartbeat_at = none;
  client_version = a.version;
  last_seq = 0;
}

-- the last use depletes the card
abbrev pub spend_card : Card → License → ℕ → Tx License
spend_card card lic left = do
  if left == 0 then set_card_status card.id CardStatus.depleted else pure tt
  pure (record lic { uses_left = some left })

-- a counted plan: the first binding takes one use
unfoldable pub take_first_use : Plan → License → Card → Tx License
take_first_use plan lic card =
    if is_uses plan.kind then consume_license_use lic.id >>= spend_card card lic else pure lic

-- `case "unused"`
unfoldable pub activate_unused : Activating → Card → Plan → Product → Tx ActivationResult
unfolding take_first_use build_result fresh_license bound_device
activate_unused a card plan prod = do
  raise_if (not (is_license_card card.kind)) card_not_usable
  raise_if (fixed_over a.now plan card) card_not_usable
  created ← create_license (fresh_license a plan card)
  lic ← take_first_use plan created card
  dev ← create_device (bound_device a lic.id)
  set_card_activated card.id lic.id a.now
  insert_event lic.id EventKind.activated
  pure (build_result a.now lic dev plan prod false)

-- the same machine again: a new key replaces the old one
unfoldable pub reactivate :
    Activating → Card → License → Device → Plan → Product → Tx ActivationResult
unfolding build_result
reactivate a card lic dev plan prod =
    let same = text_eq dev.device_pub a.device_pub && kty_eq dev.pub_kty a.pub_kty in
    do
      if same then pure tt else rotate_device_pub dev.id a.device_pub a.pub_kty a.trust_level
      insert_activation (record {
        license_id = lic.id;
        card_id = card.id;
        device_id = dev.id;
        kind = ActivationKind.reactivation;
      })
      pure (
          build_result a.now lic
            (if same then dev else record dev { device_pub = a.device_pub; pub_kty = a.pub_kty })
            plan prod true)

-- a further machine
unfoldable pub bind_device : Activating → Card → License → Plan → Product → Tx ActivationResult
unfolding build_result bound_device
bind_device a card lic plan prod = do
  n ← count_active_devices lic.id
  raise_if (leb plan.device_limit n) device_limit
  if is_uses plan.kind then or_any (consume_license_use lic.id) card_depleted else pure 0
  dev ← create_device (bound_device a lic.id)
  insert_activation (record {
    license_id = lic.id;
    card_id = card.id;
    device_id = dev.id;
    kind = ActivationKind.rebind;
  })
  insert_event lic.id EventKind.device_bound
  pure (build_result a.now lic dev plan prod false)

-- the two outcomes of `GetDeviceByFingerprint`
abbrev pub by_machine : Activating → Card → License → Plan → Product → Tx ActivationResult
by_machine a card lic plan prod db = elim (get_device_by_fingerprint lic.id a.fp_hash db).0 [
  | ok dev ↦ reactivate a card lic dev plan prod db
  | err no_rows ↦ bind_device a card lic plan prod db
  | err e ↦ (err e, db)
]

-- `*card.LicenseID`: the code dereferences the pointer, which an active card has.
abbrev pub license_of : Card → Tx License
license_of card = elim card.license_id [ none ↦ raise nil_pointer | some id ↦ get_license id ]

-- `case "active"`
unfoldable pub activate_active : Activating → Card → Plan → Product → Tx ActivationResult
unfolding reactivate bind_device get_device_by_fingerprint
activate_active a card plan prod = do
  lic ← license_of card
  raise_if (not (license_is lic.status LicenseStatus.active)) (map_license_err lic.status)
  raise_if (has_expired a.now lic) license_expired
  by_machine a card lic plan prod

abbrev pub by_status : CardStatus → Activating → Card → Plan → Product → Tx ActivationResult
by_status CardStatus.unused a card plan prod = activate_unused a card plan prod
by_status CardStatus.active a card plan prod = activate_active a card plan prod
by_status s a card plan prod = raise (map_card_err s)

-- the plan and the product are checked, then the card's status decides
unfoldable pub activate_on : Activating → Card → Plan → Product → Tx ActivationResult
unfolding activate_unused activate_active
activate_on a card plan prod = do
  raise_if (not prod.is_active) product_retired
  raise_if (not plan.is_active) plan_retired
  by_status card.status a card plan prod

-- what follows once the card is found
unfoldable pub activate_card : Activating → Card → Tx ActivationResult
unfolding activate_on
activate_card a card = do
  plan ← get_plan card.plan_id
  prod ← get_product card.product_id
  activate_on a card plan prod

-- the function that `Activate` hands to `WithTx`
unfoldable pub activate_body : Activating → Tx ActivationResult
unfolding activate_card get_card_by_lookup
activate_body a = or_raise (get_card_by_lookup a.lookup) card_not_found >>= activate_card a
