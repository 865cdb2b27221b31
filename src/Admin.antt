-- ===== src/Admin.antt =====
-- The lifecycle actions of administrators and agents on cards, licences and devices, of
-- apps/license-api/internal/service/adminsvc.go: `CardAction`, `LicenseAction`, `UnbindDevice`,
-- `AdminExtendLicense` and `SetCardNote`. Each reads the row first, outside the transaction that then changes it.
pub mod Cards
pub mod Licenses
use vertify_license_platform.Prelude.{
  ℕ, Bool, true, false, ◌&&◌, ◌||◌, not, Option, none, some, is_some, points_to, ltb, ◌==◌,
  if◌then◌else◌, Text, byte_len, trim_space,
}
use vertify_license_platform.Domain.{
  CardStatus, card_is, LicenseStatus, license_is, AdminRole, Error, Result, ok, err, card_not_found,
  card_not_usable, license_revoked, device_not_found, unknown_action, out_of_range, bad_argument,
}
use vertify_license_platform.Store.Rows.{Card, License, Device, EventKind, Db}
use vertify_license_platform.Store.Tx.{Tx, pure, raise, raise_if, or_raise, with_tx, ◌>>=◌, ◌>>◌}
use vertify_license_platform.Store.Cards.{
  get_card, transition_card_status, transition_card_to_terminal, write_card_note,
}
use vertify_license_platform.Store.Licenses.{
  get_license, transition_license, transition_license_terminal, extend_license, insert_event,
}
use vertify_license_platform.Store.Devices.{get_device, unbind_device}

-- who acts: `ac.Admin`
pub record Actor : Type 0 where
  pub role : AdminRole
  pub agent_id : Option ℕ

abbrev pub is_agent : AdminRole → Bool
is_agent AdminRole.agent = true
is_agent _ = false

-- `agentDenied`
unfoldable pub agent_denied : Actor → Option ℕ → Bool
agent_denied ac owner =
    is_agent ac.role && elim ac.agent_id [ none ↦ true | some a ↦ not (points_to owner a) ]

-- the action's name in the request
pub data Action : Type 0 where
  freeze unfreeze revoke void other : Action

abbrev pub to_active_or_unused : Card → CardStatus
to_active_or_unused card =
    if is_some card.activated_at then CardStatus.active else CardStatus.unused

-- The `switch` of `CardAction`: the status that the transition starts from, if it is checked, and
-- the status that it leads to.
unfoldable pub card_change : Action → Card → Result (Option CardStatus × CardStatus)
card_change freeze card =
    if card_is card.status CardStatus.active || card_is card.status CardStatus.unused
    then ok (some card.status, CardStatus.frozen)
    else err card_not_usable
card_change unfreeze card =
    if card_is card.status CardStatus.frozen
    then ok (some CardStatus.frozen, to_active_or_unused card)
    else err card_not_usable
card_change revoke card =
    if card_is card.status CardStatus.revoked || card_is card.status CardStatus.voided
    then err card_not_usable
    else ok (none, CardStatus.revoked)
card_change void card =
    if card_is card.status CardStatus.revoked || card_is card.status CardStatus.voided
    then err card_not_usable
    else ok (none, CardStatus.voided)
card_change other card = err unknown_action

-- what a card's action does to the licence that the card made
abbrev pub follow : Action → ℕ → Tx (Unit {0})
follow freeze id = transition_license id LicenseStatus.active LicenseStatus.frozen
follow unfreeze id = transition_license id LicenseStatus.frozen LicenseStatus.active
follow revoke id = do
  transition_license_terminal id LicenseStatus.revoked
  insert_event id EventKind.revoked
follow void id = do
  transition_license_terminal id LicenseStatus.voided
  insert_event id EventKind.voided
follow other id = pure tt

-- the transaction of `CardAction`, on the card as it was read before
unfoldable pub card_action_tx : Action → Card → Option CardStatus → CardStatus → Tx (Unit {0})
card_action_tx action card from target = do
  elim from [
    | none ↦ transition_card_to_terminal card.id target
    | some s ↦ transition_card_status card.id s target
  ]
  elim card.license_id [ none ↦ pure tt | some id ↦ follow action id ]

unfoldable pub card_action : Actor → Action → ℕ → Tx (Unit {0})
unfolding agent_denied card_change card_action_tx
card_action ac action id = do
  card ← get_card id
  raise_if (agent_denied ac card.agent_id) card_not_found
  elim (card_change action card) [
    | err e ↦ raise e
    | ok (from, target) ↦ with_tx (card_action_tx action card from target)
  ]

-- `SetCardNote`
unfoldable pub set_card_note : Actor → ℕ → Text → Tx (Unit {0})
unfolding agent_denied write_card_note byte_len
set_card_note ac id note = do
  card ← get_card id
  raise_if (agent_denied ac card.agent_id) card_not_found
  raise_if (ltb 500 (byte_len note)) bad_argument
  write_card_note id (trim_space note)

-- The `switch` of `LicenseAction`: the status that the licence shall have.
unfoldable pub license_change : Action → License → Result LicenseStatus
license_change freeze lic =
    if license_is lic.status LicenseStatus.active
    then ok LicenseStatus.frozen
    else err license_revoked
license_change unfreeze lic =
    if license_is lic.status LicenseStatus.frozen
    then ok LicenseStatus.active
    else err license_revoked
license_change revoke lic =
    if license_is lic.status LicenseStatus.revoked || license_is lic.status LicenseStatus.voided
    then err license_revoked
    else ok LicenseStatus.revoked
license_change void lic =
    if license_is lic.status LicenseStatus.revoked || license_is lic.status LicenseStatus.voided
    then err license_revoked
    else ok LicenseStatus.voided
license_change other lic = err unknown_action

-- the licence goes, and the card that made it
abbrev pub end_both : License → LicenseStatus → CardStatus → EventKind → Tx (Unit {0})
end_both lic target card_target event = do
  transition_license_terminal lic.id target
  transition_card_to_terminal lic.origin_card_id card_target
  insert_event lic.id event

-- the transaction of `LicenseAction`, on the licence as it was read before
unfoldable pub license_action_tx : Action → License → LicenseStatus → Tx (Unit {0})
license_action_tx freeze lic target = transition_license lic.id lic.status target
license_action_tx unfreeze lic target = transition_license lic.id lic.status target
license_action_tx revoke lic target =
    end_both lic LicenseStatus.revoked CardStatus.revoked EventKind.revoked
license_action_tx void lic target =
    end_both lic LicenseStatus.voided CardStatus.voided EventKind.voided
license_action_tx other lic target = raise unknown_action

unfoldable pub license_action : Actor → Action → ℕ → Tx (Unit {0})
unfolding agent_denied license_change license_action_tx
license_action ac action id = do
  lic ← get_license id
  raise_if (agent_denied ac lic.agent_id) card_not_found
  elim (license_change action lic) [
    | err e ↦ raise e
    | ok target ↦ with_tx (license_action_tx action lic target)
  ]

-- the update of `UnbindDevice`, and its event
unfoldable pub unbind_tx : ℕ → ℕ → Tx Device
unfolding unbind_device
unbind_tx now id = do
  dev ← or_raise (unbind_device now id) device_not_found
  insert_event dev.license_id EventKind.device_unbound
  pure dev

-- `UnbindDevice`, without the online seat that it drops; it is in no transaction.
unfoldable pub admin_unbind_device : Actor → ℕ → ℕ → Tx Device
unfolding agent_denied
admin_unbind_device ac now id = do
  seen ← or_raise (get_device id) device_not_found
  lic ← get_license seen.license_id
  raise_if (agent_denied ac lic.agent_id) device_not_found
  unbind_tx now id

-- the transaction of `AdminExtendLicense`
abbrev extend_tx : ℕ → ℕ → ℕ → Tx ℕ
extend_tx now id days = do
  expiry ← extend_license now id days
  insert_event id EventKind.renewed
  pure expiry

-- `AdminExtendLicense`
unfoldable pub admin_extend_license : Actor → ℕ → ℕ → ℕ → Tx ℕ
unfolding agent_denied
admin_extend_license ac now id days = do
  raise_if (days == 0 || ltb 36500 days) out_of_range
  lic ← get_license id
  raise_if (agent_denied ac lic.agent_id) card_not_found
  raise_if
      (license_is lic.status LicenseStatus.revoked || license_is lic.status LicenseStatus.voided)
      license_revoked
  with_tx (extend_tx now id days)
