-- ===== src/Admin/Cards.antt =====
-- `CardAction` of apps/license-api/internal/service/adminsvc.go on a card that has made a licence:
-- both rows move together, or nothing does; and a revocation decided on an outdated row.
use vertify_license_platform.Prelude.{
  ℕ, ◌≡◌, refl, Bool, false, ◌&&◌, ◌||◌, not, Option, none, some, if◌then◌else◌, is_some, arith,
}
use vertify_license_platform.Domain.{
  CardStatus, card_is, terminal, LicenseStatus, license_is, Result, ok, is_ok,
}
use vertify_license_platform.Store.Table.{find, update, find-update}
use vertify_license_platform.Store.Rows.{Card, License, Db}
use vertify_license_platform.Store.Tx.{with_tx}
use vertify_license_platform.Store.Cards.{transition_card_status, transition_card_to_terminal}
use vertify_license_platform.Store.Licenses.{transition_license, transition_license_terminal}
use vertify_license_platform.Admin.{
  Actor, agent_denied, Action, freeze, unfreeze, revoke, void, other, card_change, card_action_tx,
  card_action,
}

abbrev pub license_over : LicenseStatus → Bool
license_over s = license_is s LicenseStatus.revoked || license_is s LicenseStatus.voided

-- The table of the lifecycle: the statuses of a card and of its licence after an action, where both
-- allow it.
abbrev pub both_become : Action → Card → License → Option (CardStatus × LicenseStatus)
both_become freeze card lic =
    if (card_is card.status CardStatus.active || card_is card.status CardStatus.unused)
      && license_is lic.status LicenseStatus.active
    then some (CardStatus.frozen, LicenseStatus.frozen)
    else none
both_become unfreeze card lic =
    if card_is card.status CardStatus.frozen && license_is lic.status LicenseStatus.frozen
    then some (
      if is_some card.activated_at then CardStatus.active else CardStatus.unused,
      LicenseStatus.active,
    )
    else none
both_become revoke card lic =
    if terminal card.status || license_over lic.status
    then none
    else some (CardStatus.revoked, LicenseStatus.revoked)
both_become void card lic =
    if terminal card.status || license_over lic.status
    then none
    else some (CardStatus.voided, LicenseStatus.voided)
both_become other card lic = none

pub moved :
    (k : ℕ) (p : Card → Bool) (s : CardStatus) (card : Card) (db : Db)
    → find (λ (c : Card). c.id) k db.cards ≡ some card
    → find
        (λ (c : Card). c.id)
        k
        (update (λ (c : Card). c.id) k p (λ c. record c { status = s }) db.cards)
      ≡ (if p card then some (record card { status = s }) else some card)
moved k p s card db there = ground (
  arith,
  there,
  find-update (λ (c : Card). c.id) k p (λ c. record c { status = s }) k db.cards (λ c. refl),
)

pub license_moved :
    (k : ℕ) (p : License → Bool) (s : LicenseStatus) (lic : License) (db : Db)
    → find (λ (l : License). l.id) k db.licenses ≡ some lic
    → find
        (λ (l : License). l.id)
        k
        (update (λ (l : License). l.id) k p (λ l. record l { status = s }) db.licenses)
      ≡ (if p lic then some (record lic { status = s }) else some lic)
license_moved k p s lic db there = ground (
  arith,
  there,
  find-update (λ (l : License). l.id) k p (λ l. record l { status = s }) k db.licenses (λ l. refl),
)

-- what the transaction leaves where the card and its licence are as they were read
pub AsTable : Action → Card → License → Db → Result (Unit {0}) × Db → Type 0
AsTable action card lic db (r, db') = elim (both_become action card lic) [
  | none ↦ (is_ok r ≡ false) × (db' ≡ db)
  | some (s, t) ↦
      (r ≡ ok tt)
      × (find (λ (c : Card). c.id) card.id db'.cards ≡ some (record card { status = s }))
      × (find (λ (l : License). l.id) lic.id db'.licenses ≡ some (record lic { status = t }))
]

-- An action on a card that is linked to a licence, by an actor whose scope the card is in: where
-- the table has an entry for the two statuses, the action succeeds and both rows have the statuses
-- of the entry; otherwise it fails and the database is as before.
pub card_action_couples :
    (ac : Actor) (action : Action) (card : Card) (lic : License) (db : Db)
    → agent_denied ac card.agent_id ≡ false
    → find (λ (c : Card). c.id) card.id db.cards ≡ some card
    → card.license_id ≡ some lic.id
    → find (λ (l : License). l.id) lic.id db.licenses ≡ some lic
    → AsTable action card lic db (card_action ac action card.id db)
unfolding card_action card_change card_action_tx AsTable with_tx transition_card_status
    transition_card_to_terminal transition_license transition_license_terminal
card_action_couples ac freeze card lic db allowed there linked row = ground (
  arith,
  allowed,
  there,
  linked,
  row,
  moved card.id (λ c. card_is c.status card.status) CardStatus.frozen card db there,
  license_moved lic.id (λ l. license_is l.status LicenseStatus.active) LicenseStatus.frozen lic db
      row,
)
card_action_couples ac unfreeze card lic db allowed there linked row = ground (
  arith,
  allowed,
  there,
  linked,
  row,
  moved card.id (λ c. card_is c.status CardStatus.frozen)
      (if is_some card.activated_at then CardStatus.active else CardStatus.unused) card db there,
  license_moved lic.id (λ l. license_is l.status LicenseStatus.frozen) LicenseStatus.active lic db
      row,
)
card_action_couples ac revoke card lic db allowed there linked row = ground (
  arith,
  allowed,
  there,
  linked,
  row,
  moved card.id (λ c. not (terminal c.status)) CardStatus.revoked card db there,
  license_moved lic.id (λ l. not (license_over l.status)) LicenseStatus.revoked lic db row,
)
card_action_couples ac void card lic db allowed there linked row = ground (
  arith,
  allowed,
  there,
  linked,
  row,
  moved card.id (λ c. not (terminal c.status)) CardStatus.voided card db there,
  license_moved lic.id (λ l. not (license_over l.status)) LicenseStatus.voided lic db row,
)
card_action_couples ac other card lic db allowed there linked row = ground (arith, allowed, there)

-- The transaction of a revocation whose card was read when it had no licence, and which has been
-- activated since: it succeeds and revokes the card, and the licence stays active.
outdated_revocation :
    (seen card : Card) (lic : License) (db : Db)
    → seen.id ≡ card.id
    → seen.license_id ≡ none
    → find (λ (c : Card). c.id) card.id db.cards ≡ some card
    → card.status ≡ CardStatus.active
    → card.license_id ≡ some lic.id
    → find (λ (l : License). l.id) lic.id db.licenses ≡ some lic
    → lic.status ≡ LicenseStatus.active
    → let (r, db') = with_tx (card_action_tx revoke seen none CardStatus.revoked) db in
      (r ≡ ok tt)
      × (find (λ (c : Card). c.id) card.id db'.cards
          ≡ some (record card { status = CardStatus.revoked }))
      × (find (λ (l : License). l.id) lic.id db'.licenses ≡ some lic)
unfolding with_tx card_action_tx transition_card_to_terminal
outdated_revocation seen card lic db same unlinked there live linked row active = ground (
  arith,
  same,
  unlinked,
  there,
  live,
  row,
  moved card.id (λ c. not (terminal c.status)) CardStatus.revoked card db there,
)
