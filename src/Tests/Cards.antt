-- ===== src/Tests/Cards.antt =====
-- A shop with a few cards, licences and devices, for the witnesses.
use vertify_license_platform.Prelude.{true, none, some, [], ◌∷◌, codes}
use vertify_license_platform.Domain.{CardStatus, LicenseStatus, DeviceStatus, AdminRole}
use vertify_license_platform.Store.Rows.{
  Product, Plan, PlanKind, Card, CardKind, License, Device, Kty, TrustLevel, Db,
}
use vertify_license_platform.Store.Accounts.{Agent, credit, TransactionKind}
use vertify_license_platform.Activation.{Activating}
use vertify_license_platform.Redeem.{Redeeming}
use vertify_license_platform.Admin.{Actor}

abbrev pub product : Product
product = record { id = 1; code = codes "APP"; is_active = true }

-- thirty days on two machines
abbrev pub month : Plan
month = record {
  id = 2;
  product_id = 1;
  code = codes "month";
  kind = PlanKind.duration;
  duration_days = 30;
  fixed_expiry_days = 0;
  uses_total = 0;
  device_limit = 2;
  concurrent_limit = 1;
  features = [];
  offline_grace = 3600;
  lease_ttl = 300;
  heartbeat_sec = 60;
  rebind_cooldown_h = 0;
  monthly_rebind = 0;
  min_client_ver = [];
  price_cents = 100;
  is_active = true;
}

-- a single use
abbrev pub once : Plan
once = record month { id = 3; kind = PlanKind.uses; uses_total = 1; device_limit = 1 }

abbrev pub month_card : Card
month_card = record {
  id = 10;
  batch_id = 1;
  agent_id = none;
  product_id = 1;
  plan_id = 2;
  lookup = codes "k10";
  prefix = codes "ABCDE";
  kind = CardKind.license;
  status = CardStatus.unused;
  uses_total = 0;
  uses_left = 0;
  license_id = none;
  used_by_user = none;
  activated_at = none;
  note = [];
  created_at = 500;
}

abbrev pub once_card : Card
once_card = record month_card { id = 11; plan_id = 3; lookup = codes "k11" }

abbrev pub renewal_card : Card
renewal_card = record month_card { id = 12; lookup = codes "k12"; kind = CardKind.renewal }

-- a card that has made a licence
abbrev pub active_card : Card
active_card = record month_card {
  id = 13;
  lookup = codes "k13";
  status = CardStatus.active;
  license_id = some 20;
  activated_at = some 900;
  note = [];
}

abbrev pub license : License
license = record {
  id = 20;
  product_id = 1;
  plan_id = 2;
  agent_id = none;
  origin_card_id = 13;
  status = LicenseStatus.active;
  uses_left = none;
  activated_at = 900;
  expires_at = some 5000;
  policy_version = 1;
}

-- a licence that was voided
abbrev pub dead_license : License
dead_license = record license { id = 21; status = LicenseStatus.voided }

abbrev pub machine : Device
machine = record {
  id = 30;
  license_id = 20;
  fingerprint_hash = codes "fp30";
  device_pub = codes "pub30";
  pub_kty = Kty.ed25519;
  trust_level = TrustLevel.software;
  status = DeviceStatus.active;
  bound_at = 900;
  unbound_at = none;
  last_heartbeat_at = none;
  client_version = [];
  last_seq = 0;
}

-- a machine that was unbound
abbrev pub left_machine : Device
left_machine = record machine {
  id = 31;
  fingerprint_hash = codes "fp31";
  device_pub = codes "pub31";
  status = DeviceStatus.unbound;
  unbound_at = some 950;
}

abbrev pub agency : Agent
agency = record { id = 40; parent_id = none; balance_cents = 250; is_active = true }

abbrev pub shop : Db
shop = record {
  products = product ∷ [];
  plans = month ∷ once ∷ [];
  cards = month_card ∷ once_card ∷ renewal_card ∷ active_card ∷ [];
  licenses = license ∷ dead_license ∷ [];
  devices = machine ∷ left_machine ∷ [];
  bans = [];
  activations = [];
  renewals = [];
  events = [];
  agents = agency ∷ [];
  transactions =
      record {
        agent_id = 40;
        amount_cents = credit 250;
        balance_after = 250;
        kind = TransactionKind.topup;
        ref_batch_id = none;
      }
      ∷ [];
  batches = [];
  grants = [];
  users = [];
  admins = [];
  sessions = [];
}

-- a request from a new machine
abbrev pub request : Activating
request = record {
  lookup = codes "k11";
  fp_hash = codes "fp32";
  device_pub = codes "pub32";
  pub_kty = Kty.p256;
  trust_level = TrustLevel.tpm;
  version = codes "1.0.0";
  now = 1000;
  new_license = 22;
  new_device = 32;
}

abbrev pub return_request : Activating
return_request = record request {
  lookup = codes "k13";
  fp_hash = codes "fp31";
  device_pub = codes "pub31b";
}

abbrev pub renewal_request : Redeeming
renewal_request = record {
  device_id = 30;
  license_id = 20;
  lookup = codes "k12";
  now = 1000;
  tx_now = 1001;
}

abbrev pub root : Actor
root = record { role = AdminRole.superadmin; agent_id = none }
