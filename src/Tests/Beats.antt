-- ===== src/Tests/Beats.antt =====
-- Heartbeats of the shop's machine.
use vertify_license_platform.Prelude.{
  ◌≡◌, refl, Bool, true, some, List, [], ◌∷◌, Text, codes, text_eq, arith,
}
use vertify_license_platform.Domain.{ok}
use vertify_license_platform.Store.Rows.{Kty, Db}
use vertify_license_platform.Version.{is_version}
use vertify_license_platform.Cache.{renew_online}
use vertify_license_platform.Store.Catalog.{is_banned}
use vertify_license_platform.Lifecycle.{Request, extends, acts_on_license}
use vertify_license_platform.Admin.{unfreeze}
use vertify_license_platform.Heartbeat.{Windows}
use vertify_license_platform.Heartbeat.Lease.{
  HeartbeatRequest, World, lease, entitled, heartbeat_of,
}
use vertify_license_platform.Heartbeat.Lease.Answered.{answering, heartbeat_answered}
use vertify_license_platform.Tests.Cards.{month, license, dead_license, machine, shop, root}
use vertify_license_platform.Tests.Redis.{list_redis}

abbrev pub trusting : Text → Kty → Bool
trusting pub_key kty = true

abbrev pub windows : Windows
windows = record { skew = 60000; replay = 300000 }

abbrev pub world : Db → World list_redis trusting
world db = record { strings = []; seats = λ _. ([], tt); db = db }

abbrev pub beat : HeartbeatRequest
beat = record {
  pub_key = codes "pub30";
  signed = record { ts = 0; nonce = codes "n1"; seq = 5 };
  device_id = some 30;
  client_version = codes "1.0.0";
}

heartbeat_answered_example :
    (heartbeat_of list_redis trusting windows answering beat 1000 (world shop)).0
    ≡ ok (lease 1000 license machine month shop)
unfolding text_eq entitled is_banned is_version renew_online
heartbeat_answered_example =
    heartbeat_answered list_redis trusting beat machine license month windows 1000 (world shop)
      (refl, refl, refl, refl) refl refl refl (λ e. grind arith)

abbrev taken : List Request
taken = extends root 1000 21 30 ∷ acts_on_license unfreeze dead_license ∷ []

abbrev dead_shop : Db
dead_shop = record shop { devices = record machine { license_id = 21 } ∷ [] }
