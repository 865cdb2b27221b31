-- ===== src/Plans/Deleted.antt =====
-- What is left when a plan is deleted (`DeletePlan` of
-- apps/license-api/internal/service/adminsvc.go).
use vertify_license_platform.Prelude.{
  ℕ, ◌≡◌, ap, ◌∙◌, Bool, true, false, ◌⊎◌, none, inl, inr, Bool-cases, ◌==◌, if◌then◌else◌, arith,
}
use mathlib.Core.Path.{subst}
use vertify_license_platform.Domain.{ok, is_ok}
use vertify_license_platform.Store.Table.{find, count, delete, count-delete, find-delete}
use vertify_license_platform.Store.Rows.{Card, Plan, Db}
use vertify_license_platform.Store.Tx.{with_tx, with_tx-done, with_tx-refused, bind-ok, ◌>>◌}
use vertify_license_platform.Store.Plans.{
  fresh_of_plan, batch_of_plan, plan_in_use, void_and_delete_unused_cards, delete_batches_by_plan,
  delete_plan_row,
}
use vertify_license_platform.Plans.{delete_plan_tx}

-- without the cards, then without the batches
abbrev without_cards : ℕ → Db → Db
without_cards id db = record db { cards = delete (fresh_of_plan id) db.cards }

abbrev without_batches : ℕ → Db → Db
without_batches id db = record (without_cards id db) {
  batches = delete (batch_of_plan id) db.batches;
}

-- without the plan
abbrev without_plan : ℕ → Db → Db
without_plan id db = record (without_batches id db) {
  plans = delete (λ (p : Plan). p.id == id) db.plans;
}

voids :
    (id : ℕ) (db : Db)
    → is_ok (void_and_delete_unused_cards id db).0 ≡ true
    → void_and_delete_unused_cards id db ≡ (ok tt, without_cards id db)
unfolding void_and_delete_unused_cards
voids id db done = ground (arith, done)

clears :
    (id : ℕ) (db : Db)
    → is_ok (delete_batches_by_plan id (without_cards id db)).0 ≡ true
    → delete_batches_by_plan id (without_cards id db) ≡ (ok tt, without_batches id db)
unfolding delete_batches_by_plan
clears id db done = ground (arith, done)

removes :
    (id : ℕ) (db : Db)
    → is_ok (delete_plan_row id (without_batches id db)).0 ≡ true
    → (delete_plan_row id (without_batches id db) ≡ (ok tt, without_plan id db))
      × (plan_in_use id (without_batches id db) ≡ false)
unfolding delete_plan_row
removes id db done = (ground (arith, done), ground (arith, done))

deletes :
    (id : ℕ) (db : Db)
    → is_ok (delete_plan_tx id db).0 ≡ true
    → (delete_plan_tx id db ≡ (ok tt, without_plan id db))
      × (plan_in_use id (without_batches id db) ≡ false)
unfolding delete_plan_tx
deletes id db done =
    let (_, ok₁, step₁) =
      bind-ok (void_and_delete_unused_cards id)
        (λ _. delete_batches_by_plan id >> delete_plan_row id) db done in
    let at₁ : delete_plan_tx id db
        ≡ (delete_batches_by_plan id >> delete_plan_row id) (without_cards id db) =
      step₁
      ∙ ap (λ x. (delete_batches_by_plan id >> delete_plan_row id) x.1)
          (voids id db (ap is_ok ok₁)) in
    let (_, ok₂, step₂) =
      bind-ok (delete_batches_by_plan id) (λ _. delete_plan_row id) (without_cards id db)
        (subst (λ x. is_ok x.0 ≡ true) at₁ done) in
    let at₂ : delete_plan_tx id db ≡ delete_plan_row id (without_batches id db) =
      at₁ ∙ step₂ ∙ ap (λ x. delete_plan_row id x.1) (clears id db (ap is_ok ok₂)) in
    let (last, unused) = removes id db (subst (λ x. is_ok x.0 ≡ true) at₂ done) in
    (at₂ ∙ last, unused)

-- The transaction that deletes a plan, on whatever database it runs, changes nothing or leaves no
-- reference behind: the plan is gone, no batch, card or licence refers to it, the other plans and all
-- licences stay, and so do the cards of any test that none of the plan's unused cards passes.
pub plan_deletion_clean :
    (id k : ℕ) (p : Card → Bool) (db : Db)
    → ((c : Card) → fresh_of_plan id c ≡ true → p c ≡ false)
    → let (r, db') = with_tx (delete_plan_tx id) db in
      ((is_ok r ≡ false) × (db' ≡ db))
      ⊎ (plan_in_use id db' ≡ false)
        × (find (λ (q : Plan). q.id) k db'.plans
            ≡ (if k == id then none else find (λ (q : Plan). q.id) k db.plans))
        × (db'.licenses ≡ db.licenses)
        × (count p db'.cards ≡ count p db.cards)
plan_deletion_clean id k p db apart = elim (Bool-cases (is_ok (delete_plan_tx id db).0)) [
  | inr bad ↦
      let kept = with_tx-refused (delete_plan_tx id) db bad in
      inl (ap (λ x. is_ok x.0) kept ∙ bad, ap (λ x. x.1) kept)
  | inl good ↦
      let (whole, unused) = deletes id db good in
      let after = with_tx-done (delete_plan_tx id) db good ∙ whole in
      inr (
        ap (λ x. plan_in_use id x.1) after ∙ unused,
        ap (λ x. find (λ (q : Plan). q.id) k x.1.plans) after
            ∙ find-delete (λ (q : Plan). q.id) id k db.plans,
        ap (λ x. x.1.licenses) after,
        ap (λ x. count p x.1.cards) after ∙ count-delete p (fresh_of_plan id) db.cards apart,
      )
]
