-- ===== src/Billing/Keeps.antt =====
-- What `CreateCardBatch` and `ImportCards` of apps/license-api/internal/service/adminsvc.go keep: all
-- that the statements of a batch, of a card and of a payment keep.
use vertify_license_platform.Prelude.{
  ℕ, ◌*◌, Bool, Option, none, some, List, [], ◌∷◌, ◌==◌, if◌then◌else◌, inl, inr, Option-cases,
  length, Text, is_empty, arith,
}
use vertify_license_platform.Domain.{out_of_range}
use vertify_license_platform.CardCode.{
  Outcome, cards, refused, failed, spent, validate_card_prefix, generate_card_batch,
  generate_card_batch_with_prefix,
}
use vertify_license_platform.Store.Table.{find}
use vertify_license_platform.Store.Accounts.{CardBatch}
use vertify_license_platform.Store.Rows.{Plan, Product, Card, CardKind, Db}
use vertify_license_platform.Store.Tx.{pure, raise_if, ◌>>◌}
use vertify_license_platform.Store.Keeps.{Keeps, with_tx-Keeps, bind-Keeps, if_Keeps}
use vertify_license_platform.Store.Batches.{
  CardSeed, seeded, insert_card, insert_cards, insert_batch, create_batch,
}
use vertify_license_platform.Billing.{
  CreateBatchRequest, pay_for, pay, charge, over_int64, batch_tx, kind_of, sellable, seeds_of,
  batch_row, sell, store_batch, create_card_batch,
}
use vertify_license_platform.Admin.{Actor}
use vertify_license_platform.Billing.Import.{
  ImportCardRequest, import_seeds, import_row, import_kind, import_cards,
}

module _ (P : Db → Type 0) (insert_card-Keeps : (c : Card) → Keeps P (insert_card c))
    (insert_batch-Keeps : (b : CardBatch) → Keeps P (insert_batch b))
    (charge-Keeps : (agent cost batch : ℕ) → Keeps P (charge agent cost batch)) where
  pay_for-Keeps :
      (agent : ℕ) (plan : Plan) (quantity batch : ℕ) → Keeps P (pay_for agent plan quantity batch)
  unfolding pay_for
  pay_for-Keeps agent plan quantity batch =
      if_Keeps P (plan.price_cents == 0) (pure tt)
        (raise_if (over_int64 quantity plan.price_cents) out_of_range
          >> charge agent (quantity * plan.price_cents) batch)
        (λ db h. h)
        (bind-Keeps P (raise_if (over_int64 quantity plan.price_cents) out_of_range)
          (λ _. charge agent (quantity * plan.price_cents) batch) (λ db h. h)
          (λ _. charge-Keeps agent (quantity * plan.price_cents) batch))

  insert_cards-Keeps :
      (now : ℕ) (b : CardBatch) (seeds : List CardSeed) → Keeps P (insert_cards now b seeds)
  unfolding insert_cards
  insert_cards-Keeps now b [] db h = h
  insert_cards-Keeps now b (seed ∷ seeds) db h =
      bind-Keeps P (insert_card (seeded now b seed)) (λ _. insert_cards now b seeds)
        (insert_card-Keeps (seeded now b seed)) (λ _. insert_cards-Keeps now b seeds) db h

  pay-Keeps :
      (agent : Option ℕ) (plan : Plan) (quantity batch : ℕ)
      → Keeps P (pay agent plan quantity batch)
  pay-Keeps none plan quantity batch db h = h
  pay-Keeps (some agent) plan quantity batch db h = pay_for-Keeps agent plan quantity batch db h

  create_batch-Keeps :
      (now : ℕ) (b : CardBatch) (seeds : List CardSeed) → Keeps P (create_batch now b seeds)
  unfolding create_batch
  create_batch-Keeps now b seeds =
      bind-Keeps P (insert_batch b) (λ _. insert_cards now b seeds >> pure b) (insert_batch-Keeps b)
        (λ _.
          bind-Keeps P (insert_cards now b seeds) (λ _. pure b) (insert_cards-Keeps now b seeds)
            (λ _ db h. h))

  batch_tx-Keeps :
      (now : ℕ) (b : CardBatch) (seeds : List CardSeed) (plan : Plan)
      → Keeps P (batch_tx now b seeds plan)
  unfolding batch_tx
  batch_tx-Keeps now b seeds plan =
      bind-Keeps P (create_batch now b seeds) (λ _. pay b.agent_id plan b.quantity b.id)
        (create_batch-Keeps now b seeds) (λ _. pay-Keeps b.agent_id plan b.quantity b.id)

  module _ (card_lookup : Text → Text) (secret : Text → Bool) where
    store_batch-Keeps :
        (now : ℕ) (req : CreateBatchRequest) (kind : CardKind) (plan : Plan) (plan_id : ℕ)
        (prefix : Text) (codes : Outcome)
        → Keeps P (store_batch card_lookup secret now req kind plan plan_id prefix codes)
    unfolding store_batch
    store_batch-Keeps now req kind plan plan_id prefix (cards pts) db h =
        elim (Option-cases (seeds_of card_lookup secret req.card_id kind plan 0 pts)) [
          | inl e ↦ ground (arith, e, h)
          | inr (seeds, e) ↦
              let b = batch_row card_lookup secret req plan_id prefix in
              ground (
                arith,
                e,
                h,
                with_tx-Keeps P (batch_tx now b seeds plan) (batch_tx-Keeps now b seeds plan) db h,
              )
        ]
    store_batch-Keeps now req kind plan plan_id prefix refused db h = h
    store_batch-Keeps now req kind plan plan_id prefix failed db h = h
    store_batch-Keeps now req kind plan plan_id prefix spent db h = h

    sell-Keeps :
        (now : ℕ) (ac : Actor) (req : CreateBatchRequest) (kind : CardKind) (plan_id : ℕ)
        (prefix : Text) (codes : Outcome)
        → Keeps P (sell card_lookup secret now ac req kind plan_id prefix codes)
    unfolding sell sellable
    sell-Keeps now ac req kind plan_id prefix codes db h =
        elim (Option-cases (find (λ (p : Plan). p.id) plan_id db.plans)) [
          | inl e ↦ ground (arith, e, h)
          | inr (plan, e) ↦
              elim (Option-cases (find (λ (p : Product). p.id) req.product_id db.products)) [
                | inl e' ↦ ground (arith, e, e', h)
                | inr (prod, e') ↦
                    ground (
                      arith,
                      e,
                      e',
                      h,
                      store_batch-Keeps now req kind plan plan_id prefix codes db h,
                    )
              ]
        ]

    pub create_card_batch-Keeps :
        (draw : ℕ → Option ℕ) (fuel now : ℕ) (ac : Actor) (req : CreateBatchRequest)
        → Keeps P (create_card_batch card_lookup secret draw fuel now ac req)
    unfolding create_card_batch
    create_card_batch-Keeps draw fuel now ac req db h =
        elim (Option-cases (validate_card_prefix req.prefix)) [
          | inl e ↦ ground (arith, e, h)
          | inr (prefix, e) ↦ elim (Option-cases (kind_of req.kind)) [
            | inl e' ↦ ground (arith, e, e', h)
            | inr (kind, e') ↦ elim (Option-cases req.plan_id) [
              | inl e'' ↦ ground (arith, e, e', e'', h)
              | inr (plan_id, e'') ↦
                  let codes =
                    if is_empty prefix
                    then generate_card_batch draw fuel req.quantity
                    else generate_card_batch_with_prefix draw fuel req.quantity prefix in
                  ground
                    (arith, e, e', e'', h, sell-Keeps now ac req kind plan_id prefix codes db h)
            ]
          ]
        ]

    import_kind-Keeps :
        (now : ℕ) (req : ImportCardRequest) (plan : Plan)
        → Keeps P (import_kind card_lookup secret now req plan)
    unfolding import_kind
    import_kind-Keeps now req plan db h = elim (Option-cases (kind_of req.kind)) [
      | inl e ↦ ground (arith, e, h)
      | inr (kind, e) ↦
          elim (Option-cases
            (import_seeds card_lookup secret req.card_id kind plan 0 [] [] req.codes)) [
              | inl e' ↦ ground (arith, e, e', h)
              | inr ((prefix, seeds), e') ↦
                  let b = import_row card_lookup secret req (length seeds) prefix in
                  ground (
                    arith,
                    e,
                    e',
                    h,
                    with_tx-Keeps P (create_batch now b seeds) (create_batch-Keeps now b seeds) db
                        h,
                  )
            ]
    ]

    pub import_cards-Keeps :
        (now : ℕ) (ac : Actor) (req : ImportCardRequest)
        → Keeps P (import_cards card_lookup secret now ac req)
    unfolding import_cards sellable
    import_cards-Keeps now ac req db h =
        elim (Option-cases (find (λ (p : Plan). p.id) req.plan_id db.plans)) [
          | inl e ↦ ground (arith, e, h)
          | inr (plan, e) ↦
              elim (Option-cases (find (λ (p : Product). p.id) req.product_id db.products)) [
                | inl e' ↦ ground (arith, e, e', h)
                | inr (prod, e') ↦ ground (arith, e, e', h, import_kind-Keeps now req plan db h)
              ]
        ]
