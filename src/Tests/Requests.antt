-- ===== src/Tests/Requests.antt =====
-- Activations, renewals and administration in the shop.
use vertify_license_platform.Prelude.{
  ◌+◌, ◌*◌, ◌≤◌, ◌≡◌, refl, true, false, some, List, [], ◌∷◌, text_eq, arith,
}
use vertify_license_platform.Domain.{CardStatus, LicenseStatus, ok, is_ok}
use vertify_license_platform.Store.Table.{find}
use vertify_license_platform.Store.Rows.{Card, License, Device, day, unix}
use vertify_license_platform.Store.Tx.{with_tx}
use vertify_license_platform.Store.Devices.{greatest}
use vertify_license_platform.Activation.{build_result, bound_device, activate_body, activate_active}
use vertify_license_platform.Activation.Fresh.{bound_license, first_activation}
use vertify_license_platform.Activation.Again.{devices_on, active_within_limit}
use vertify_license_platform.Redeem.{redeem, redeem_claims}
use vertify_license_platform.Redeem.Renew.{IsRedeemable, redeem_extends}
use vertify_license_platform.Redeem.Once.{redeem_once}
use vertify_license_platform.Admin.{
  freeze, unfreeze, revoke, card_action, license_action, agent_denied,
}
use vertify_license_platform.Admin.Cards.{AsTable, card_action_couples}
use vertify_license_platform.Admin.Licenses.{AsLicenseTable, license_action_couples}
use vertify_license_platform.Lifecycle.{
  Request, activates, acts_on_card, acts_on_license, extends, serve_all,
}
use vertify_license_platform.Lifecycle.Over.{has_status, license_over_stays}
use vertify_license_platform.Tests.Cards.{
  product, month, once, once_card, renewal_card, active_card, license, shop, request,
  renewal_request, root,
}

first_activation_example :
    let (r, db') = with_tx (activate_body request) shop in
    (r
      ≡ ok (
          build_result 1000
            (bound_license request once once_card)
            (bound_device request 22)
            once
            product
            false))
    × (find (λ (m : License). m.id) 22 db'.licenses ≡ some (bound_license request once once_card))
    × (find (λ (e : Device). e.id) 32 db'.devices ≡ some (bound_device request 22))
    × (find (λ (c : Card). c.id) 11 db'.cards
        ≡ some (record once_card {
          status = CardStatus.depleted;
          license_id = some 22;
          activated_at = some 1000;
        }))
unfolding text_eq
first_activation_example =
    first_activation request once_card once product shop refl refl refl refl refl refl refl refl
      refl (λ _. omega arith)
      (record { license_free = refl; device_free = refl; machine_free = refl; key_free = refl })

active_within_limit_example :
    devices_on 20 (activate_active request active_card month product shop).1 ≤ 2
active_within_limit_example =
    active_within_limit request active_card month product 20 shop refl (omega arith)

renewal_fits : IsRedeemable renewal_request license renewal_card month month 5000 shop
unfolding text_eq
renewal_fits = record {
  license = refl;
  active = refl;
  term = refl;
  card_row = refl;
  card_key = refl;
  renewal = refl;
  product = refl;
  unused = refl;
  plan_row = refl;
  days = refl;
  license_plan_row = refl;
  plan_active = refl;
}

redeem_extends_example :
    let new = greatest 1001 5000 + 30 * day in
    let (r, db') = redeem renewal_request shop in
    (r
      ≡ ok (record {
        license_id = 20;
        new_expiry = new;
        days_added = 30;
        claims = redeem_claims renewal_request license month;
      }))
    × ((redeem_claims renewal_request license month).lic_exp ≡ unix 5000)
    × (find (λ (l : License). l.id) 20 db'.licenses
        ≡ some (record license { expires_at = some new }))
    × (find (λ (c : Card). c.id) 12 db'.cards
        ≡ some (record renewal_card { status = CardStatus.depleted }))
redeem_extends_example =
    redeem_extends renewal_request license renewal_card month month 5000 shop renewal_fits

-- an administrator acts on the card as it was, and a card is activated
abbrev between : List Request
between =
    acts_on_card freeze renewal_card
    ∷ acts_on_card unfreeze (record renewal_card { status = CardStatus.frozen })
    ∷ activates request
    ∷ []

redeem_once_example :
    let again = record renewal_request { now = 1500; tx_now = 1501 } in
    let (r, db') = redeem renewal_request shop in
    let db'' = serve_all between db' in
    (is_ok r ≡ true) × (is_ok (redeem again db'').0 ≡ false) × ((redeem again db'').1 ≡ db'')
redeem_once_example =
    redeem_once renewal_request license renewal_card month month 5000 shop between
      (record renewal_request { now = 1500; tx_now = 1501 }) renewal_fits refl

card_action_couples_example :
    AsTable freeze active_card license shop (card_action root freeze 13 shop)
unfolding agent_denied
card_action_couples_example =
    card_action_couples root freeze active_card license shop refl refl refl refl

license_action_couples_example :
    AsLicenseTable revoke active_card license shop (license_action root revoke 20 shop)
unfolding agent_denied
license_action_couples_example =
    license_action_couples root revoke active_card license shop refl refl refl refl

license_over_stays_example :
    has_status 21 LicenseStatus.voided (
      serve_all
        (activates request
          ∷ acts_on_license freeze license
          ∷ acts_on_card revoke active_card
          ∷ extends root 1000 21 30
          ∷ [])
        shop)
    ≡ true
license_over_stays_example =
    license_over_stays 21 LicenseStatus.voided refl
      (activates request
        ∷ acts_on_license freeze license
        ∷ acts_on_card revoke active_card
        ∷ extends root 1000 21 30
        ∷ [])
      shop refl
