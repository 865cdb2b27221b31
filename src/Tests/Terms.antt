-- ===== src/Tests/Terms.antt =====
-- A plan that changes and one that is deleted.
use vertify_license_platform.Prelude.{◌≡◌, Bool, false, none, ◌⊎◌, ◌==◌, if◌then◌else◌, arith}
use vertify_license_platform.Domain.{is_ok}
use vertify_license_platform.Store.Table.{find, count}
use vertify_license_platform.Store.Rows.{Card, Plan}
use vertify_license_platform.Store.Tx.{with_tx}
use vertify_license_platform.Store.Plans.{plan_in_use}
use vertify_license_platform.Plans.{delete_plan_tx}
use vertify_license_platform.Plans.Deleted.{plan_deletion_clean}
use vertify_license_platform.Tests.Cards.{month, shop}

abbrev longer : Plan
longer = record month {
  lease_ttl = 600;
  heartbeat_sec = 0;
  rebind_cooldown_h = 1;
  monthly_rebind = 1;
}

-- the cards of the other plans
abbrev is_month : Card → Bool
is_month c = c.plan_id == 2

plan_deletion_clean_example :
    let (r, db') = with_tx (delete_plan_tx 3) shop in
    ((is_ok r ≡ false) × (db' ≡ shop))
    ⊎ (plan_in_use 3 db' ≡ false)
      × (find (λ (q : Plan). q.id) 2 db'.plans
          ≡ (if 2 == 3 then none else find (λ (q : Plan). q.id) 2 shop.plans))
      × (db'.licenses ≡ shop.licenses)
      × (count is_month db'.cards ≡ count is_month shop.cards)
plan_deletion_clean_example =
    plan_deletion_clean 3 2 is_month shop (λ c fresh. ground (arith, fresh))
