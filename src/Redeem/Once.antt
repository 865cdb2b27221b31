-- ===== src/Redeem/Once.antt =====
-- A renewal card is accepted once (`Redeem` of apps/license-api/internal/service/heartbeat.go).
use vertify_license_platform.Prelude.{ℕ, ◌≡◌, ◌∙◌, refl, true, false, some, List, arith}
use vertify_license_platform.Domain.{CardStatus, is_ok}
use vertify_license_platform.Store.Table.{find, first, first-changed, find-key}
use vertify_license_platform.Store.Rows.{Card, Plan, License, Db}
use vertify_license_platform.Store.Tx.{with_tx, with_tx-done}
use vertify_license_platform.Store.Cards.{set_card_status, by_lookup}
use vertify_license_platform.Store.Licenses.{extend_license}
use vertify_license_platform.Redeem.{Redeeming, renew, redeem_body, redeem}
use vertify_license_platform.Lifecycle.{Request, serve_all}
use vertify_license_platform.Lifecycle.Spent.{is_spent, spent_refused}
use vertify_license_platform.Redeem.Renew.{IsRedeemable, accepted}

-- the table's card after a renewal
renew_card :
    (q : Redeeming) (lic : License) (card : Card) (days : ℕ) (plan : Plan) (db : Db)
    → find (λ (l : License). l.id) lic.id db.licenses ≡ some lic
    → find (λ (c : Card). c.id) card.id db.cards ≡ some card
    → first (by_lookup q.lookup) db.cards ≡ some card
    → let (r, db') = renew q lic card days plan db in
      (is_ok r ≡ true)
      × (first (by_lookup q.lookup) db'.cards ≡ some (record card { status = CardStatus.depleted }))
unfolding renew extend_license set_card_status
renew_card q lic card days plan db there row mine = (
  ground (arith, there, row),
  ground (
    arith,
    there,
    row,
    first-changed (λ (c : Card). c.id) (by_lookup q.lookup) (λ c. true)
        (λ c. record c { status = CardStatus.depleted }) db.cards card mine row refl refl,
  ),
)

-- A renewal card that was accepted is refused from then on: whatever requests of `Lifecycle` are served
-- in between, and to whatever licence, device and time another renewal with it belongs, that one fails
-- and changes nothing.
pub redeem_once :
    (q : Redeeming) (lic : License) (card : Card) (plan license_plan : Plan) (expiry : ℕ) (db : Db)
    (qs : List Request) (again : Redeeming)
    → IsRedeemable q lic card plan license_plan expiry db
    → again.lookup ≡ q.lookup
    → let (r, db') = redeem q db in
      let db'' = serve_all qs db' in
      (is_ok r ≡ true) × (is_ok (redeem again db'').0 ≡ false) × ((redeem again db'').1 ≡ db'')
unfolding redeem
redeem_once q lic card plan license_plan expiry db qs again can same =
    let key : lic.id ≡ q.license_id =
      find-key (λ (l : License). l.id) q.license_id db.licenses lic can.license in
    let there : find (λ (l : License). l.id) lic.id db.licenses ≡ some lic =
      ground (arith, key, can.license) in
    let go = accepted q lic card plan license_plan expiry db can in
    let done =
      renew_card q lic card plan.duration_days license_plan db there can.card_key can.card_row in
    let kept : with_tx (redeem_body q) db ≡ renew q lic card plan.duration_days license_plan db =
      with_tx-done (redeem_body q) db (ground (arith, go, done.0)) ∙ go in
    let spent : is_spent again.lookup (with_tx (redeem_body q) db).1.cards ≡ true =
      ground (arith, kept, same, done.1) in
    let out = spent_refused again qs (with_tx (redeem_body q) db).1 spent in
    (ground (arith, kept, done.0), out.0, out.1)
