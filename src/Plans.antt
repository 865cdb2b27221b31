-- ===== src/Plans.antt =====
-- Plans (`CreatePlan`, `UpdatePlan`, `DeletePlan` and `PlanStatus` of
-- apps/license-api/internal/service/adminsvc.go). A number is not negative and a kind is one of the
-- four; the code refuses the others.
pub mod Deleted
pub mod Updated
use vertify_license_platform.Prelude.{
  ℕ, Bool, true, false, ◌&&◌, ◌||◌, not, ltb, leb, ◌==◌, if◌then◌else◌,
}
use vertify_license_platform.Domain.{bad_argument, plan_not_retired, plan_in_use}
use vertify_license_platform.Store.Rows.{Plan, PlanKind}
use vertify_license_platform.Store.Tx.{Tx, pure, raise_if, with_tx, ◌>>=◌, ◌>>◌}
use vertify_license_platform.Store.Catalog.{get_plan}
use vertify_license_platform.Store.Plans.{
  create_plan_row, set_plan_status, update_plan_row, touch_licenses_policy, count_plan_licenses,
  count_plan_live_cards, void_and_delete_unused_cards, delete_batches_by_plan, delete_plan_row,
}

abbrev or_else : ℕ → ℕ → ℕ
or_else d n = if n == 0 then d else n

-- the number that the kind of a plan needs
abbrev has_term : PlanKind → Plan → Bool
has_term PlanKind.duration p = leb 1 p.duration_days
has_term PlanKind.fixed p = leb 1 p.fixed_expiry_days
has_term PlanKind.permanent p = true
has_term PlanKind.uses p = leb 1 p.uses_total

-- `validatePlan`
unfoldable pub validate_plan : Plan → Bool
validate_plan p = has_term p.kind p && leb 1 p.device_limit && leb 1 p.concurrent_limit

-- what stands for a number that is not given
abbrev pub with_defaults : Plan → Plan
with_defaults p = record p {
  heartbeat_sec = or_else 60 p.heartbeat_sec;
  lease_ttl = or_else 300 p.lease_ttl;
  rebind_cooldown_h = or_else 24 p.rebind_cooldown_h;
  monthly_rebind = or_else 2 p.monthly_rebind;
}

-- `CreatePlan`
unfoldable pub create_plan : Plan → Tx Plan
unfolding validate_plan create_plan_row
create_plan p = do
  raise_if (not (validate_plan (with_defaults p))) bad_argument
  create_plan_row (with_defaults p)

-- the request's plan with what the row keeps
abbrev pub with_old : Plan → Plan → Plan
with_old p old = record p {
  id = old.id;
  product_id = old.product_id;
  code = old.code;
  kind = old.kind;
  is_active = old.is_active;
  heartbeat_sec = or_else old.heartbeat_sec p.heartbeat_sec;
  lease_ttl = or_else old.lease_ttl p.lease_ttl;
  rebind_cooldown_h = or_else old.rebind_cooldown_h p.rebind_cooldown_h;
  monthly_rebind = or_else old.monthly_rebind p.monthly_rebind;
}

-- the transaction of `UpdatePlan`
unfoldable pub update_tx : Plan → ℕ → Tx (Unit {0})
unfolding update_plan_row touch_licenses_policy
update_tx p id = do update_plan_row p; touch_licenses_policy id

-- `UpdatePlan`
unfoldable pub update_plan : ℕ → Plan → Tx Plan
unfolding validate_plan update_tx
update_plan id p = do
  old ← get_plan id
  raise_if (not (validate_plan (with_old p old))) bad_argument
  with_tx (update_tx (with_old p old) id)
  pure (with_old p old)

-- the transaction of `DeletePlan`
unfoldable pub delete_plan_tx : ℕ → Tx (Unit {0})
unfolding void_and_delete_unused_cards delete_batches_by_plan delete_plan_row
delete_plan_tx id = do
  void_and_delete_unused_cards id
  delete_batches_by_plan id
  delete_plan_row id

-- `DeletePlan`, whose checks stand before the transaction
unfoldable pub delete_plan : ℕ → Tx (Unit {0})
unfolding delete_plan_tx
delete_plan id = do
  p ← get_plan id
  raise_if p.is_active plan_not_retired
  licenses ← count_plan_licenses id
  raise_if (ltb 0 licenses) plan_in_use
  live ← count_plan_live_cards id
  raise_if (ltb 0 live) plan_in_use
  with_tx (delete_plan_tx id)

-- the transaction of `PlanStatus`
unfoldable pub status_tx : ℕ → Bool → Tx (Unit {0})
unfolding set_plan_status touch_licenses_policy
status_tx id active = do set_plan_status id active; touch_licenses_policy id

-- `PlanStatus`
unfoldable pub plan_status : ℕ → Bool → Tx (Unit {0})
unfolding status_tx
plan_status id active = with_tx (status_tx id active)
