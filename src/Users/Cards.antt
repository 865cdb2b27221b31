-- ===== src/Users/Cards.antt =====
-- A card that an account spends (`UserBindCard` of apps/license-api/internal/service/usersvc.go): it
-- lengthens the account, and nothing else can spend it afterwards.
use vertify_license_platform.Prelude.{
  ℕ, ◌≡◌, refl, ap, ◌∙◌, Bool, true, false, none, some, inl, inr, Option-cases, not, ◌&&◌, is_some,
  ◌==◌, Text, arith,
}
use vertify_license_platform.Domain.{CardStatus, card_is, ok, is_ok}
use vertify_license_platform.Store.Table.{find, first, holds, update, find-update, first-changed}
use vertify_license_platform.Store.Accounts.{EndUser}
use vertify_license_platform.Store.Rows.{Card, CardKind, Plan, Product, Db}
use vertify_license_platform.Store.Tx.{Tx, with_tx, with_tx-refused}
use vertify_license_platform.Store.Cards.{by_lookup, get_card_by_lookup, mark_card_used_by_user}
use vertify_license_platform.Store.Users.{extend_end_user, user_extended}
use vertify_license_platform.Activation.{Activating, activate_body, activate_card, activate_on}
use vertify_license_platform.Redeem.{Redeeming, redeem_body, redeem}
use vertify_license_platform.Lifecycle.Spent.{depleted_refused}
use vertify_license_platform.Users.{bindable, spend_on_user, bind_card_tx}

-- A card that the account may spend: it and the account are in the database, of one product, and the
-- card is an unused licence card of a plan with days.
pub record IsBindable (u : EndUser) (card : Card) (plan : Plan) (lookup : Text) (db : Db)
    : Type 0 where
  pub user : find (λ (u : EndUser). u.id) u.id db.users ≡ some u
  pub card_row : first (by_lookup lookup) db.cards ≡ some card
  pub card_key : find (λ (c : Card). c.id) card.id db.cards ≡ some card
  pub product : (card.product_id == u.product_id) ≡ true
  pub licence : card.kind ≡ CardKind.license
  pub unused : card.status ≡ CardStatus.unused
  pub unlinked : card.license_id ≡ none
  pub unmarked : card.used_by_user ≡ none
  pub plan_row : find (λ (p : Plan). p.id) card.plan_id db.plans ≡ some plan
  pub days : (plan.duration_days == 0) ≡ false

-- the card once it is spent
abbrev pub spent_on : ℕ → ℕ → Card → Card
spent_on now user card = record card {
  status = CardStatus.depleted;
  used_by_user = some user;
  activated_at = some now;
}

abbrev spendable : Card → Bool
spendable c =
    card_is c.status CardStatus.unused && not (is_some c.license_id) && not (is_some c.used_by_user)

-- the database once the card is spent
abbrev pub spent_db : ℕ → EndUser → Card → ℕ → Db → Db
spent_db now u card days db = record db {
  cards = update (λ (c : Card). c.id) card.id spendable (spent_on now u.id) db.cards;
  users =
      update (λ (v : EndUser). v.id) u.id (λ v. true)
        (λ v. record v { expires_at = some (user_extended now days v.expires_at) }) db.users;
}

passes :
    (u : EndUser) (card : Card) (plan : Plan) (lookup : Text) (db : Db)
    → IsBindable u card plan lookup db
    → bindable u card db ≡ (ok tt, db)
unfolding bindable
passes u card plan lookup db can =
    ground (arith, can.product, can.licence, can.unused, can.unlinked, can.unmarked)

marks :
    (now : ℕ) (u : EndUser) (card : Card) (plan : Plan) (lookup : Text) (db : Db)
    → IsBindable u card plan lookup db
    → mark_card_used_by_user card.id u.id now db ≡ (
      ok tt,
      record db {
        cards = update (λ (c : Card). c.id) card.id spendable (spent_on now u.id) db.cards;
      },
    )
unfolding mark_card_used_by_user
marks now u card plan lookup db can =
    ground (arith, can.card_key, can.unused, can.unlinked, can.unmarked)

extends :
    (now days : ℕ) (u : EndUser) (card : Card) (db : Db)
    → find (λ (u : EndUser). u.id) u.id db.users ≡ some u
    → extend_end_user now u.id days (record db {
      cards = update (λ (c : Card). c.id) card.id spendable (spent_on now u.id) db.cards;
    })
      ≡ (ok (user_extended now days u.expires_at), spent_db now u card days db)
unfolding extend_end_user
extends now days u card db there = rw (there, extend_end_user) refl

writes :
    (now : ℕ) (u : EndUser) (card : Card) (plan : Plan) (lookup : Text) (db : Db)
    → IsBindable u card plan lookup db
    → spend_on_user now u.id card db ≡ (
      ok (user_extended now plan.duration_days u.expires_at),
      spent_db now u card plan.duration_days db,
    )
unfolding spend_on_user
writes now u card plan lookup db can = ground (
  arith,
  can.plan_row,
  can.days,
  marks now u card plan lookup db can,
  extends now plan.duration_days u card db can.user,
)

spends :
    (now : ℕ) (u : EndUser) (card : Card) (plan : Plan) (lookup : Text) (db : Db)
    → IsBindable u card plan lookup db
    → bind_card_tx now u.id lookup db ≡ (
      ok (user_extended now plan.duration_days u.expires_at),
      spent_db now u card plan.duration_days db,
    )
unfolding bind_card_tx get_card_by_lookup
spends now u card plan lookup db can =
    let on_card : bind_card_tx now u.id lookup db ≡ spend_on_user now u.id card db =
      ground (arith, can.user, can.card_row, passes u card plan lookup db can) in
    on_card ∙ writes now u card plan lookup db can

-- `UserBindCard` with a card that the account may spend: the account ends the plan's days after the
-- later of the present and its old expiry, in the answer and in the table, and the card is depleted
-- and marked with the account.
bind_card_extends :
    (now : ℕ) (u : EndUser) (card : Card) (plan : Plan) (lookup : Text) (db : Db)
    → IsBindable u card plan lookup db
    → let new = user_extended now plan.duration_days u.expires_at in
      let (r, db') = with_tx (bind_card_tx now u.id lookup) db in
      (r ≡ ok new)
      × (find (λ (v : EndUser). v.id) u.id db'.users ≡ some (record u { expires_at = some new }))
      × (find (λ (c : Card). c.id) card.id db'.cards ≡ some (spent_on now u.id card))
unfolding with_tx
bind_card_extends now u card plan lookup db can =
    let done = spends now u card plan lookup db can in
    (
      ground (arith, done),
      ground (
        arith,
        done,
        can.user,
        find-update (λ (v : EndUser). v.id) u.id (λ v. true)
            (λ v. record v {
              expires_at = some (user_extended now plan.duration_days v.expires_at);
            })
            u.id db.users (λ v. refl),
      ),
      ground (
        arith,
        done,
        can.card_key,
        can.unused,
        can.unlinked,
        can.unmarked,
        find-update (λ (c : Card). c.id) card.id spendable (spent_on now u.id) card.id db.cards
            (λ c. refl),
      ),
    )

rolled_back :
    {A : Type 0} (m : Tx A) (db : Db)
    → is_ok (m db).0 ≡ false
    → (is_ok (with_tx m db).0 ≡ false) × ((with_tx m db).1 ≡ db)
rolled_back m db bad =
    let kept = with_tx-refused m db bad in (ap (λ x. is_ok x.0) kept ∙ bad, ap (λ x. x.1) kept)

-- the row that the lookup finds is the spent card
still_found :
    (now : ℕ) (u : EndUser) (card : Card) (plan : Plan) (lookup : Text) (db : Db)
    → IsBindable u card plan lookup db
    → first (by_lookup lookup) (with_tx (bind_card_tx now u.id lookup) db).1.cards
      ≡ some (spent_on now u.id card)
unfolding with_tx
still_found now u card plan lookup db can = ground (
  arith,
  spends now u card plan lookup db can,
  first-changed (λ (c : Card). c.id) (by_lookup lookup) spendable (spent_on now u.id) db.cards card
      can.card_row can.card_key (ground (arith, can.unused, can.unlinked, can.unmarked)) refl,
)

refused_on :
    (a : Activating) (card : Card) (plan : Plan) (prod : Product) (db : Db)
    → card.status ≡ CardStatus.depleted
    → is_ok (activate_on a card plan prod db).0 ≡ false
unfolding activate_on
refused_on a card plan prod db spent = ground (arith, spent)

refused_card :
    (a : Activating) (card : Card) (db : Db)
    → card.status ≡ CardStatus.depleted
    → is_ok (activate_card a card db).0 ≡ false
unfolding activate_card
refused_card a card db spent =
    elim (Option-cases (find (λ (p : Plan). p.id) card.plan_id db.plans)) [
      | inl e ↦ ground (arith, e)
      | inr (plan, e) ↦
          elim (Option-cases (find (λ (p : Product). p.id) card.product_id db.products)) [
            | inl e' ↦ ground (arith, e, e')
            | inr (prod, e') ↦ ground (arith, e, e', refused_on a card plan prod db spent)
          ]
    ]

activation_refused :
    (a : Activating) (card : Card) (db : Db)
    → first (by_lookup a.lookup) db.cards ≡ some card
    → card.status ≡ CardStatus.depleted
    → is_ok (activate_body a db).0 ≡ false
unfolding activate_body get_card_by_lookup
activation_refused a card db mine spent = ground (arith, mine, refused_card a card db spent)

binding_refused :
    (now user : ℕ) (lookup : Text) (card : Card) (db : Db)
    → first (by_lookup lookup) db.cards ≡ some card
    → card.status ≡ CardStatus.depleted
    → is_ok (bind_card_tx now user lookup db).0 ≡ false
unfolding bind_card_tx get_card_by_lookup bindable
binding_refused now user lookup card db mine spent = ground (arith, mine, spent)

-- A card that an account has spent cannot be spent again: whoever then activates it, redeems it, or
-- binds it to an account is refused, and the database stays as it is.
pub account_card_spent :
    (now : ℕ) (u : EndUser) (card : Card) (plan : Plan) (db : Db) (a : Activating) (q : Redeeming)
    (later user : ℕ)
    → IsBindable u card plan a.lookup db
    → q.lookup ≡ a.lookup
    → let db' = (with_tx (bind_card_tx now u.id a.lookup) db).1 in
      let (r₁, db₁) = with_tx (activate_body a) db' in
      let (r₂, db₂) = redeem q db' in
      let (r₃, db₃) = with_tx (bind_card_tx later user a.lookup) db' in
      ((is_ok r₁ ≡ false) × (db₁ ≡ db'))
      × ((is_ok r₂ ≡ false) × (db₂ ≡ db'))
      × ((is_ok r₃ ≡ false) × (db₃ ≡ db'))
unfolding redeem
account_card_spent now u card plan db a q later user can same =
    let db' = (with_tx (bind_card_tx now u.id a.lookup) db).1 in
    let found = still_found now u card plan a.lookup db can in
    let row = spent_on now u.id card in
    (
      rolled_back (activate_body a) db' (activation_refused a row db' found refl),
      rolled_back (redeem_body q) db' (
          depleted_refused q db' (
            ap (holds (λ (c : Card). card_is c.status CardStatus.depleted))
              (ap (λ l. first (by_lookup l) db'.cards) same ∙ found))),
      rolled_back (bind_card_tx later user a.lookup) db'
          (binding_refused later user a.lookup row db' found refl),
    )
