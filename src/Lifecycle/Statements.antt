-- ===== src/Lifecycle/Statements.antt =====
-- The statements on licences and cards that `Lifecycle` runs
-- (apps/license-api/internal/store/licenses.go), and what they keep.
use vertify_license_platform.Prelude.{ℕ, ◌≡◌, Bool, true, false, List, arith}
use vertify_license_platform.Domain.{CardStatus, terminal, LicenseStatus}
use vertify_license_platform.Store.Rows.{Card, License, Device, Db}
use vertify_license_platform.Store.Cards.{
  set_card_status, set_card_activated, transition_card_status, transition_card_to_terminal,
}
use vertify_license_platform.Store.Licenses.{
  create_license, consume_license_use, extend_license, transition_license,
  transition_license_terminal,
}
use vertify_license_platform.Store.Devices.{create_device}
use vertify_license_platform.Store.Keeps.{Keeps}
use vertify_license_platform.Admin.Cards.{license_over}

-- A test of the cards and licences, as a property of the database.
module _ (Q : List Card → List License → Bool) where
  abbrev pub Kept : Db → Type 0
  Kept db = Q db.cards db.licenses ≡ true

  -- the statements that `Lifecycle` runs keep it
  pub record AreKept : Type 0 where
    pub creates : (l : License) → Keeps Kept (create_license l)
    pub consumes : (id : ℕ) → Keeps Kept (consume_license_use id)
    pub extends : (now id days : ℕ) → Keeps Kept (extend_license now id days)
    pub transitions :
        (id : ℕ) (from to : LicenseStatus)
        → license_over from ≡ false
        → Keeps Kept (transition_license id from to)
    pub ends : (id : ℕ) (to : LicenseStatus) → Keeps Kept (transition_license_terminal id to)
    pub depletes : (id : ℕ) → Keeps Kept (set_card_status id CardStatus.depleted)
    pub activates : (id license_id at : ℕ) → Keeps Kept (set_card_activated id license_id at)
    pub changes_card :
        (id : ℕ) (from to : CardStatus)
        → terminal from ≡ false
        → Keeps Kept (transition_card_status id from to)
    pub ends_card : (id : ℕ) (to : CardStatus) → Keeps Kept (transition_card_to_terminal id to)

  pub device-Keeps : (d : Device) → Keeps Kept (create_device d)
  unfolding create_device
  device-Keeps d db h = ground (arith, h)
