-- ===== src/Plans/Updated.antt =====
-- How a change of a plan reaches its licences (`UpdatePlan` and `TouchLicensesPolicy` of
-- apps/license-api/internal).
use vertify_license_platform.Prelude.{ℕ, ◌≡◌, refl, ap, ◌∙◌, true, some, is_some, ==_self, arith}
use vertify_license_platform.Domain.{ok}
use vertify_license_platform.Store.Table.{
  find, update, update_where, changed, find-key, find-update, find-update_where,
}
use vertify_license_platform.Store.Rows.{License, Plan, Db}
use vertify_license_platform.Store.Tx.{with_tx}
use vertify_license_platform.Store.Plans.{
  plan_fits, with_terms, licensed_by, raise_policy, update_plan_row, touch_licenses_policy,
}
use vertify_license_platform.Plans.{validate_plan, with_old, update_tx, update_plan}

abbrev updated_db : ℕ → Plan → Db → Db
updated_db id p db = record db {
  plans = update (λ (q : Plan). q.id) id (λ q. true) (with_terms p) db.plans;
  licenses = update_where (licensed_by id) raise_policy db.licenses;
}

updates :
    (id : ℕ) (p : Plan) (db : Db)
    → p.id ≡ id
    → is_some (find (λ (q : Plan). q.id) id db.plans) ≡ true
    → plan_fits p ≡ true
    → with_tx (update_tx p id) db ≡ (ok tt, updated_db id p db)
unfolding with_tx update_tx update_plan_row touch_licenses_policy
updates id p db key there fits = ground (arith, key, there, fits)

accepts :
    (id : ℕ) (p old : Plan) (db : Db)
    → find (λ (q : Plan). q.id) id db.plans ≡ some old
    → validate_plan (with_old p old) ≡ true
    → with_tx (update_tx (with_old p old) id) db ≡ (ok tt, updated_db id (with_old p old) db)
    → update_plan id p db ≡ (ok (with_old p old), updated_db id (with_old p old) db)
unfolding update_plan
accepts id p old db there valid done = ground (arith, there, valid, done)

-- `UpdatePlan` of an existing plan, with terms that are valid and that the table takes, answers the
-- plan that the table then holds, and raises the policy version of every licence of the plan by one
-- and of no other.
plan_update_propagates :
    (id k : ℕ) (p old : Plan) (db : Db)
    → find (λ (q : Plan). q.id) id db.plans ≡ some old
    → validate_plan (with_old p old) ≡ true
    → plan_fits (with_old p old) ≡ true
    → let (r, db') = update_plan id p db in
      (r ≡ ok (with_old p old))
      × (find (λ (q : Plan). q.id) id db'.plans ≡ some (with_old p old))
      × (find (λ (l : License). l.id) k db'.licenses
          ≡ changed (licensed_by id) raise_policy (find (λ (l : License). l.id) k db.licenses))
plan_update_propagates id k p old db there valid fits =
    let key = find-key (λ (q : Plan). q.id) id db.plans old there in
    let done =
      accepts id p old db there valid
        (updates id (with_old p old) db key (ap is_some there) fits) in
    (
      ap (λ x. x.0) done,
      ap (λ x. find (λ (q : Plan). q.id) id x.1.plans) done
          ∙ ground (
            arith,
            there,
            ==_self id,
            find-update (λ (q : Plan). q.id) id (λ q. true) (with_terms (with_old p old)) id
                db.plans (λ q. refl),
          ),
      ap (λ x. find (λ (l : License). l.id) k x.1.licenses) done
          ∙ find-update_where (λ (l : License). l.id) (licensed_by id) raise_policy k db.licenses
              (λ l. refl),
    )
