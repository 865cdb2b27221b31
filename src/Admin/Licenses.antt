-- ===== src/Admin/Licenses.antt =====
-- `LicenseAction` and `AdminExtendLicense` of apps/license-api/internal/service/adminsvc.go.
use vertify_license_platform.Prelude.{
  ◌≡◌, false, ◌||◌, not, Option, none, some, if◌then◌else◌, arith,
}
use vertify_license_platform.Domain.{
  CardStatus, terminal, LicenseStatus, license_is, Result, ok, is_ok,
}
use vertify_license_platform.Store.Table.{find}
use vertify_license_platform.Store.Rows.{Card, License, Db}
use vertify_license_platform.Store.Tx.{with_tx}
use vertify_license_platform.Store.Cards.{transition_card_to_terminal}
use vertify_license_platform.Store.Licenses.{transition_license, transition_license_terminal}
use vertify_license_platform.Admin.{
  Actor, agent_denied, Action, freeze, unfreeze, revoke, void, other, license_action,
}
use vertify_license_platform.Admin.Cards.{license_over, moved, license_moved}

-- The table of the licence's actions: the statuses of the licence and of its origin card afterwards.
abbrev pub license_becomes : Action → Card → License → Option (CardStatus × LicenseStatus)
license_becomes freeze card lic =
    if license_is lic.status LicenseStatus.active
    then some (card.status, LicenseStatus.frozen)
    else none
license_becomes unfreeze card lic =
    if license_is lic.status LicenseStatus.frozen
    then some (card.status, LicenseStatus.active)
    else none
license_becomes revoke card lic =
    if terminal card.status || license_over lic.status
    then none
    else some (CardStatus.revoked, LicenseStatus.revoked)
license_becomes void card lic =
    if terminal card.status || license_over lic.status
    then none
    else some (CardStatus.voided, LicenseStatus.voided)
license_becomes other card lic = none

pub AsLicenseTable : Action → Card → License → Db → Result (Unit {0}) × Db → Type 0
AsLicenseTable action card lic db (r, db') = elim (license_becomes action card lic) [
  | none ↦ (is_ok r ≡ false) × (db' ≡ db)
  | some (s, t) ↦
      (r ≡ ok tt)
      × (find (λ (c : Card). c.id) card.id db'.cards ≡ some (record card { status = s }))
      × (find (λ (l : License). l.id) lic.id db'.licenses ≡ some (record lic { status = t }))
]

-- An action on a licence, by an actor whose scope it is in: where the table has an entry, it
-- succeeds and the licence and its origin card have the statuses of the entry; otherwise it fails
-- and the database is as before. So a licence whose origin card is depleted can be neither revoked
-- nor voided.
pub license_action_couples :
    (ac : Actor) (action : Action) (card : Card) (lic : License) (db : Db)
    → agent_denied ac lic.agent_id ≡ false
    → find (λ (l : License). l.id) lic.id db.licenses ≡ some lic
    → lic.origin_card_id ≡ card.id
    → find (λ (c : Card). c.id) card.id db.cards ≡ some card
    → AsLicenseTable action card lic db (license_action ac action lic.id db)
unfolding license_action AsLicenseTable with_tx transition_card_to_terminal transition_license
    transition_license_terminal
license_action_couples ac freeze card lic db allowed there linked row = ground (
  arith,
  allowed,
  there,
  linked,
  row,
  license_moved lic.id (λ l. license_is l.status lic.status) LicenseStatus.frozen lic db there,
)
license_action_couples ac unfreeze card lic db allowed there linked row = ground (
  arith,
  allowed,
  there,
  linked,
  row,
  license_moved lic.id (λ l. license_is l.status lic.status) LicenseStatus.active lic db there,
)
license_action_couples ac revoke card lic db allowed there linked row = ground (
  arith,
  allowed,
  there,
  linked,
  row,
  moved card.id (λ c. not (terminal c.status)) CardStatus.revoked card db row,
  license_moved lic.id (λ l. not (license_over l.status)) LicenseStatus.revoked lic db there,
)
license_action_couples ac void card lic db allowed there linked row = ground (
  arith,
  allowed,
  there,
  linked,
  row,
  moved card.id (λ c. not (terminal c.status)) CardStatus.voided card db row,
  license_moved lic.id (λ l. not (license_over l.status)) LicenseStatus.voided lic db there,
)
license_action_couples ac other card lic db allowed there linked row =
    ground (arith, allowed, there)
