-- ===== src/Lifecycle/Activates.antt =====
-- That the activation of a card (`Activate` of apps/license-api/internal/service/service.go) keeps
-- what its statements on cards and licences keep.
use vertify_license_platform.Prelude.{ℕ, Bool, List, not, inl, inr, Option-cases, Text, arith}
use vertify_license_platform.Domain.{
  CardStatus, Result-cases, product_retired, plan_retired, card_not_found,
}
use vertify_license_platform.Store.Table.{find, first}
use vertify_license_platform.Store.Rows.{Card, License, Device, Plan, Product}
use vertify_license_platform.Store.Tx.{pure, or_raise, ◌>>=◌}
use vertify_license_platform.Store.Cards.{get_card_by_lookup}
use vertify_license_platform.Store.Licenses.{create_license, consume_license_use}
use vertify_license_platform.Store.Devices.{
  create_device, rotate_device_pub, get_device_by_fingerprint, same_machine,
}
use vertify_license_platform.Store.Catalog.{get_plan, get_product}
use vertify_license_platform.Store.Keeps.{
  select-Keeps, Keeps, or_raise-Keeps, if_Keeps, bind-Keeps, guards-Keeps,
}
use vertify_license_platform.Activation.{
  Activating, take_first_use, is_uses, fresh_license, bound_device, activate_unused, reactivate,
  bind_device, by_machine, activate_active, activate_on, activate_card, activate_body, license_of,
  by_status, spend_card,
}
use vertify_license_platform.Lifecycle.Statements.{Kept, AreKept, device-Keeps}

module _ (Q : List Card → List License → Bool) (st : AreKept Q) where
  pub spend-Keeps :
      (card : Card) (lic : License) (left : ℕ) → Keeps (Kept Q) (spend_card card lic left)
  spend-Keeps card lic left db h = ground (arith, h, st.depletes card.id db h)

  pub first_use-Keeps :
      (plan : Plan) (lic : License) (card : Card) → Keeps (Kept Q) (take_first_use plan lic card)
  unfolding take_first_use
  first_use-Keeps plan lic card =
      if_Keeps (Kept Q) (is_uses plan.kind) (consume_license_use lic.id >>= spend_card card lic)
        (pure lic)
        (bind-Keeps (Kept Q) (consume_license_use lic.id) (spend_card card lic) (st.consumes lic.id)
          (spend-Keeps card lic))
        (λ db h. h)

  pub unused-Keeps :
      (a : Activating) (card : Card) (plan : Plan) (prod : Product)
      → Keeps (Kept Q) (activate_unused a card plan prod)
  unfolding activate_unused
  unused-Keeps a card plan prod db h =
      let l = fresh_license a plan card in
      let db₁ = (create_license l db).1 in
      let h₁ = st.creates l db h in
      elim (Result-cases (create_license l db).0) [
        | inr (e, c) ↦ ground (arith, c, h, h₁)
        | inl (created, c) ↦
            let db₂ = (take_first_use plan created card db₁).1 in
            let h₂ = first_use-Keeps plan created card db₁ h₁ in
            elim (Result-cases (take_first_use plan created card db₁).0) [
              | inr (e, t) ↦ ground (arith, c, t, h, h₁, h₂)
              | inl (lic, t) ↦
                  let db₃ = (create_device (bound_device a lic.id) db₂).1 in
                  let h₃ = device-Keeps Q (bound_device a lic.id) db₂ h₂ in
                  ground (arith, c, t, h₁, h₂, h₃, st.activates card.id lic.id a.now db₃ h₃)
            ]
      ]

  pub reactivate-Keeps :
      (a : Activating) (card : Card) (lic : License) (dev : Device) (plan : Plan) (prod : Product)
      → Keeps (Kept Q) (reactivate a card lic dev plan prod)
  unfolding reactivate rotate_device_pub
  reactivate-Keeps a card lic dev plan prod db h = ground (arith, h)

  pub bind_device-Keeps :
      (a : Activating) (card : Card) (lic : License) (plan : Plan) (prod : Product)
      → Keeps (Kept Q) (bind_device a card lic plan prod)
  unfolding bind_device
  bind_device-Keeps a card lic plan prod db h =
      let h₁ = st.consumes lic.id db h in
      ground (
        arith,
        h,
        h₁,
        device-Keeps Q (bound_device a lic.id) db h,
        device-Keeps Q (bound_device a lic.id) (consume_license_use lic.id db).1 h₁,
      )

  pub machine-Keeps :
      (a : Activating) (card : Card) (lic : License) (plan : Plan) (prod : Product)
      → Keeps (Kept Q) (by_machine a card lic plan prod)
  unfolding get_device_by_fingerprint
  machine-Keeps a card lic plan prod db h =
      elim (Option-cases (first (same_machine lic.id a.fp_hash) db.devices)) [
        | inl e ↦ ground (arith, e, bind_device-Keeps a card lic plan prod db h)
        | inr (dev, e) ↦ ground (arith, e, reactivate-Keeps a card lic dev plan prod db h)
      ]

  pub license_of-Keeps : (card : Card) → Keeps (Kept Q) (license_of card)
  license_of-Keeps card db h = ground (arith, h)

  pub active-Keeps :
      (a : Activating) (card : Card) (plan : Plan) (prod : Product)
      → Keeps (Kept Q) (activate_active a card plan prod)
  unfolding activate_active
  active-Keeps a card plan prod db h = elim (Result-cases (license_of card db).0) [
    | inr (e, c) ↦ ground (arith, c, h, license_of-Keeps card db h)
    | inl (lic, c) ↦
        let db₁ = (license_of card db).1 in
        ground (arith, c, h, machine-Keeps a card lic plan prod db₁ (license_of-Keeps card db h))
  ]

  pub status-Keeps :
      (t : CardStatus) (a : Activating) (card : Card) (plan : Plan) (prod : Product)
      → Keeps (Kept Q) (by_status t a card plan prod)
  status-Keeps CardStatus.unused a card plan prod = unused-Keeps a card plan prod
  status-Keeps CardStatus.active a card plan prod = active-Keeps a card plan prod
  status-Keeps _ a card plan prod = λ db h. h

  pub lookup-Keeps : (lookup : Text) → Keeps (Kept Q) (get_card_by_lookup lookup)
  unfolding get_card_by_lookup
  lookup-Keeps lookup db h = ground (arith, h)

  pub activate_on-Keeps :
      (a : Activating) (card : Card) (plan : Plan) (prod : Product)
      → Keeps (Kept Q) (activate_on a card plan prod)
  unfolding activate_on
  activate_on-Keeps a card plan prod =
      guards-Keeps (Kept Q) (not prod.is_active) (not plan.is_active) product_retired plan_retired
        (by_status card.status a card plan prod) (status-Keeps card.status a card plan prod)

  pub card_found-Keeps : (a : Activating) (card : Card) → Keeps (Kept Q) (activate_card a card)
  unfolding activate_card
  card_found-Keeps a card =
      bind-Keeps (Kept Q) (get_plan card.plan_id)
        (λ plan. get_product card.product_id >>= activate_on a card plan)
        (select-Keeps (Kept Q) (λ db. find (λ (p : Plan). p.id) card.plan_id db.plans))
        (λ plan.
          bind-Keeps (Kept Q) (get_product card.product_id) (activate_on a card plan)
            (select-Keeps (Kept Q) (λ db. find (λ (p : Product). p.id) card.product_id db.products))
            (activate_on-Keeps a card plan))

  pub activate-Keeps : (a : Activating) → Keeps (Kept Q) (activate_body a)
  unfolding activate_body
  activate-Keeps a =
      bind-Keeps (Kept Q) (or_raise (get_card_by_lookup a.lookup) card_not_found) (activate_card a)
        (or_raise-Keeps (Kept Q) (get_card_by_lookup a.lookup) card_not_found
          (lookup-Keeps a.lookup))
        (card_found-Keeps a)
