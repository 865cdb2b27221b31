-- ===== src/Tests/Web.antt =====
-- Requests to the administration API and the clients' API.
use vertify_license_platform.Prelude.{
  ◌^◌, ◌≡◌, ◌⊎◌, ◌↔◌, refl, Bool, true, false, none, some, [], ◌∷◌, ℕ, ◌==◌, Text, codes, text_eq,
}
use vertify_license_platform.Domain.{AdminRole, superadmin, agent}
use vertify_license_platform.Domain.Roles.{role_has}
use vertify_license_platform.Store.Accounts.{Admin, AdminSession}
use vertify_license_platform.Store.Rows.{Db}
use vertify_license_platform.SignIn.{Login, AdminContext}
use vertify_license_platform.Admin.{revoke, agent_denied}
use vertify_license_platform.Heartbeat.Lease.Answered.{outage}
use vertify_license_platform.Http.Routes.{create_plan}
use vertify_license_platform.Http.Gate.{Request, passed, gate}
use vertify_license_platform.Http.Access.{
  IsAdmitted, is_card_route, gate_iff, readers_change_nothing,
}
use vertify_license_platform.Http.Commands.{Command, bulk_card_action, Headers}
use vertify_license_platform.Http.Handlers.{Sources, serve}
use vertify_license_platform.Http.Isolation.{Row, agent_isolated}
use vertify_license_platform.Http.Client.{Front, handle_heartbeat}
use vertify_license_platform.Http.Quiet.{heartbeat_never_internal}
use vertify_license_platform.Tests.Redis.{list_redis}
use vertify_license_platform.Tests.Cards.{month_card, once_card, shop}
use vertify_license_platform.Tests.Beats.{trusting, windows, world, beat}
use vertify_license_platform.Tests.People.{plain}

abbrev boss : Admin
boss = record {
  id = 90;
  username = codes "boss";
  password_hash = codes "long password";
  role = superadmin;
  agent_id = none;
  totp_secret = none;
  mfa_enabled = false;
  is_active = true;
  failed_attempts = 0;
  locked_until = none;
  must_change_password = false;
}

abbrev seller : Admin
seller = record boss { id = 91; username = codes "seller"; role = agent; agent_id = some 41 }

abbrev session_of : ℕ → Admin → Text → AdminSession
session_of id a token = record {
  id = id;
  admin_id = a.id;
  token_hash = token;
  csrf_token = codes "csrf";
  expires_at = 10 ^ 15;
  revoked_at = none;
}

abbrev office : Db
office = record shop {
  cards = month_card ∷ record once_card { agent_id = some 41 } ∷ [];
  admins = boss ∷ seller ∷ [];
  sessions = session_of 95 boss (codes "t1") ∷ session_of 96 seller (codes "t2") ∷ [];
}

abbrev same_digest : Text → Text
same_digest t = t

abbrev no_codes : Text → Text → ℕ → Bool
no_codes secret code t = false

abbrev posting : Request
posting = record {
  route = create_plan;
  id = [];
  cookie = some (codes "t1");
  csrf_header = codes "csrf";
  now = 1000;
}

abbrev boss_context : AdminContext
boss_context = record { session = session_of 95 boss (codes "t1"); admin = boss }

gate_iff_example :
    (gate plain same_digest no_codes 1000 posting office ≡ passed boss_context)
    ↔ IsAdmitted plain same_digest no_codes 1000 posting boss_context office
gate_iff_example = gate_iff plain same_digest no_codes 1000 posting boss_context office

readers_change_nothing_example :
    (superadmin ≡ superadmin)
    ⊎ (superadmin ≡ AdminRole.admin)
    ⊎ ((superadmin ≡ agent) × (is_card_route create_plan ≡ true))
unfolding gate text_eq role_has
readers_change_nothing_example =
    readers_change_nothing plain same_digest no_codes 1000 posting boss_context office refl refl
      refl

abbrev sources : Sources
sources = record {
  pw = plain;
  digest = same_digest;
  verify_totp = no_codes;
  ttl = 1000;
  card_lookup = same_digest;
  secret = λ norm. true;
  draw = λ i. none;
  fuel = 1;
}

abbrev headers : Headers
headers = record { id = []; cookie = some (codes "t2"); csrf_header = codes "csrf"; now = 1000 }

-- a revocation of two cards, of which the second is the seller's
abbrev revocation : Command
revocation =
    bulk_card_action (some (record { ids = 10 ∷ 11 ∷ []; action = revoke; has_reason = true }))

abbrev seller_context : AdminContext
seller_context = record { session = session_of 96 seller (codes "t2"); admin = seller }

agent_isolated_example : Row 10 month_card (serve sources headers revocation office).1
unfolding gate text_eq role_has agent_denied
agent_isolated_example =
    agent_isolated 10 month_card sources headers revocation seller_context office refl refl refl
      refl

abbrev stranger : Login
stranger = record {
  username = codes "nobody";
  password = codes "guess";
  totp = [];
  now = 1000;
  session_id = 97;
  token = codes "t3";
  csrf_token = codes "c3";
}

abbrev front : Front
front = record { has_body = true; ip = codes "10.0.0.1"; limited = false; minted = true }

heartbeat_never_internal_example :
    ((handle_heartbeat list_redis trusting windows outage front
        (some beat)
        1000
        (world shop)).0.status
      == 500)
    ≡ false
heartbeat_never_internal_example =
    heartbeat_never_internal list_redis trusting windows outage front (some beat) 1000 (world shop)
      refl
