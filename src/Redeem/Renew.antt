-- ===== src/Redeem/Renew.antt =====
-- What a renewal card does to the licence and to itself (`Redeem` of
-- apps/license-api/internal/service/heartbeat.go).
use vertify_license_platform.Prelude.{ℕ, ◌+◌, ◌*◌, ◌≡◌, refl, true, false, some, ◌==◌, arith}
use vertify_license_platform.Domain.{CardStatus, LicenseStatus, ok}
use vertify_license_platform.Store.Table.{find, first, find-update, find-key}
use vertify_license_platform.Store.Rows.{Card, Plan, License, Db, day, unix}
use vertify_license_platform.Store.Tx.{with_tx}
use vertify_license_platform.Store.Cards.{set_card_status, get_card_by_lookup, by_lookup}
use vertify_license_platform.Store.Licenses.{extend_license, extended}
use vertify_license_platform.Store.Devices.{greatest}
use vertify_license_platform.Claims.{is_license_card}
use vertify_license_platform.Redeem.{
  Redeeming, redeem_claims, redeemable, renew, redeem_planned, redeem_body, redeem,
}

-- A licence and a renewal card that `Redeem` accepts, as the database has them.
pub record IsRedeemable (q : Redeeming) (lic : License) (card : Card) (plan license_plan : Plan)
    (expiry : ℕ) (db : Db) : Type 0 where
  pub license : find (λ (l : License). l.id) q.license_id db.licenses ≡ some lic
  pub active : lic.status ≡ LicenseStatus.active
  pub term : lic.expires_at ≡ some expiry
  pub card_row : first (by_lookup q.lookup) db.cards ≡ some card
  pub card_key : find (λ (c : Card). c.id) card.id db.cards ≡ some card
  pub renewal : is_license_card card.kind ≡ false
  pub product : card.product_id ≡ lic.product_id
  pub unused : card.status ≡ CardStatus.unused
  pub plan_row : find (λ (p : Plan). p.id) card.plan_id db.plans ≡ some plan
  pub days : (plan.duration_days == 0) ≡ false
  pub license_plan_row : find (λ (p : Plan). p.id) lic.plan_id db.plans ≡ some license_plan
  pub plan_active : license_plan.is_active ≡ true

renew_lem :
    (q : Redeeming) (lic : License) (card : Card) (days : ℕ) (plan : Plan) (db : Db)
    → find (λ (l : License). l.id) lic.id db.licenses ≡ some lic
    → find (λ (c : Card). c.id) card.id db.cards ≡ some card
    → let (r, db') = renew q lic card days plan db in
      (r
        ≡ ok (record {
          license_id = lic.id;
          new_expiry = extended q.tx_now days lic.expires_at;
          days_added = days;
          claims = redeem_claims q lic plan;
        }))
      × (find (λ (l : License). l.id) lic.id db'.licenses
          ≡ some (record lic { expires_at = some (extended q.tx_now days lic.expires_at) }))
      × (find (λ (c : Card). c.id) card.id db'.cards
          ≡ some (record card { status = CardStatus.depleted }))
unfolding renew extend_license set_card_status
renew_lem q lic card days plan db there row = (
  ground (arith, there, row),
  ground (
    arith,
    there,
    row,
    find-update (λ (l : License). l.id) lic.id (λ l. true)
        (λ l. record l { expires_at = some (extended q.tx_now days l.expires_at) }) lic.id
        db.licenses (λ l. refl),
  ),
  ground (
    arith,
    there,
    row,
    find-update (λ (c : Card). c.id) card.id (λ c. true)
        (λ c. record c { status = CardStatus.depleted }) card.id db.cards (λ c. refl),
  ),
)

pub accepted :
    (q : Redeeming) (lic : License) (card : Card) (plan license_plan : Plan) (expiry : ℕ) (db : Db)
    → IsRedeemable q lic card plan license_plan expiry db
    → redeem_body q db ≡ renew q lic card plan.duration_days license_plan db
unfolding redeem_body redeemable redeem_planned get_card_by_lookup
accepted q lic card plan license_plan expiry db can = ground (
  arith, can.license, can.active, can.term, can.card_row, can.renewal, can.product, can.unused,
  can.plan_row, can.days, can.license_plan_row, can.plan_active,
)

-- A renewal card that is accepted: the licence's new expiry is the plan's days after the later of
-- the present and the old expiry, in the answer and in the table; the card is depleted; and the
-- lease's claims carry the old expiry.
pub redeem_extends :
    (q : Redeeming) (lic : License) (card : Card) (plan license_plan : Plan) (expiry : ℕ) (db : Db)
    → IsRedeemable q lic card plan license_plan expiry db
    → let new = greatest q.tx_now expiry + plan.duration_days * day in
      let (r, db') = redeem q db in
      (r
        ≡ ok (record {
          license_id = q.license_id;
          new_expiry = new;
          days_added = plan.duration_days;
          claims = redeem_claims q lic license_plan;
        }))
      × ((redeem_claims q lic license_plan).lic_exp ≡ unix expiry)
      × (find (λ (l : License). l.id) q.license_id db'.licenses
          ≡ some (record lic { expires_at = some new }))
      × (find (λ (c : Card). c.id) card.id db'.cards
          ≡ some (record card { status = CardStatus.depleted }))
unfolding redeem with_tx extended redeem_claims
redeem_extends q lic card plan license_plan expiry db can =
    let key : lic.id ≡ q.license_id =
      find-key (λ (l : License). l.id) q.license_id db.licenses lic can.license in
    let there : find (λ (l : License). l.id) lic.id db.licenses ≡ some lic =
      ground (arith, key, can.license) in
    let done = renew_lem q lic card plan.duration_days license_plan db there can.card_key in
    let go = accepted q lic card plan license_plan expiry db can in
    (
      ground (arith, go, done.0, can.term, key),
      ground (arith, can.term),
      ground (arith, go, done.0, done.1, can.term, key),
      ground (arith, go, done.0, done.2),
    )
