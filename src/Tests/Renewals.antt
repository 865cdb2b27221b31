-- ===== src/Tests/Renewals.antt =====
-- A request that renews the licence of the shop's machine.
use vertify_license_platform.Prelude.{
  ◌≡◌, refl, true, Text, codes, text_eq, trim_space, contains_rune,
}
use vertify_license_platform.Domain.{is_ok}
use vertify_license_platform.Cache.Keys.{key_eq}
use vertify_license_platform.CardCode.{normalize_card}
use vertify_license_platform.Store.Tx.{with_tx}
use vertify_license_platform.Store.Cards.{set_card_status}
use vertify_license_platform.Store.Licenses.{extend_license}
use vertify_license_platform.Store.Catalog.{is_banned}
use vertify_license_platform.Redeem.Request.{payload, RedeemRequest, redeem_of}
use vertify_license_platform.Heartbeat.Lease.Answered.{answering}
use vertify_license_platform.Tests.Redis.{list_redis}
use vertify_license_platform.Tests.Cards.{shop}
use vertify_license_platform.Tests.Beats.{trusting, windows, world, beat}

abbrev renewal : RedeemRequest
renewal = record {
  opened = payload (codes "ABCDEFGHJKLMNPQRSTUVWXYZ23");
  pub_key = beat.pub_key;
  signed = beat.signed;
}

-- every code is that of the shop's renewal card
abbrev as_renewal : Text → Text
as_renewal code = codes "k12"

renewal_answered :
    is_ok (redeem_of list_redis trusting as_renewal windows answering renewal 1000 (world shop)).0
    ≡ true
unfolding redeem_of text_eq key_eq normalize_card trim_space contains_rune is_banned with_tx
    extend_license set_card_status
renewal_answered = refl
