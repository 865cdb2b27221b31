-- ===== src/Lifecycle.antt =====
-- The requests that change licences, one after another: `Activate` of service/service.go, `Redeem` of
-- service/heartbeat.go, and the actions of service/adminsvc.go, all under
-- apps/license-api/internal. An administrator's transaction runs on a row that was read at any
-- earlier time, so a run also covers requests that overlap.
pub mod Statements
pub mod Activates
pub mod Serves
pub mod Over
pub mod Spent
use vertify_license_platform.Prelude.{ℕ, List, [], ◌∷◌, Option, none, some}
use vertify_license_platform.Domain.{ok, err}
use vertify_license_platform.Store.Rows.{Card, License, Db}
use vertify_license_platform.Store.Tx.{with_tx}
use vertify_license_platform.Activation.{Activating, activate_body}
use vertify_license_platform.Redeem.{Redeeming, redeem}
use vertify_license_platform.Admin.{
  Actor, Action, card_change, card_action_tx, license_change, license_action_tx,
  admin_unbind_device, admin_extend_license,
}

pub data Request : Type 0 where
  activates : Activating → Request
  redeems : Redeeming → Request
  acts_on_card : Action → Card → Request
  acts_on_license : Action → License → Request
  unbinds : Actor → ℕ → ℕ → Request
  extends : Actor → ℕ → ℕ → ℕ → Request

unfoldable pub serve : Request → Db → Db
serve (activates a) db = (with_tx (activate_body a) db).1
serve (redeems q) db = (redeem q db).1
serve (acts_on_card action seen) db = elim (card_change action seen) [
  | err e ↦ db
  | ok (from, target) ↦ (with_tx (card_action_tx action seen from target) db).1
]
serve (acts_on_license action seen) db = elim (license_change action seen) [
  | err e ↦ db
  | ok target ↦ (with_tx (license_action_tx action seen target) db).1
]
serve (unbinds ac now id) db = (admin_unbind_device ac now id db).1
serve (extends ac now id days) db = (admin_extend_license ac now id days db).1

unfoldable pub serve_all : List Request → Db → Db
serve_all [] db = db
serve_all (q ∷ qs) db = serve_all qs (serve q db)
