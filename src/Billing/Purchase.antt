-- ===== src/Billing/Purchase.antt =====
-- The transaction of `CreateCardBatch` of apps/license-api/internal/service/adminsvc.go: the cards of
-- a batch and its price come together.
use vertify_license_platform.Prelude.{
  ℕ, ◌+◌, ◌-◌, ◌*◌, ◌≡◌, refl, ◌∙◌, ap, true, false, ◌||◌, Option, some, List, [], ◌∷◌, leb, ◌==◌,
  is_some, inl, inr, ◌⊎◌, Bool-cases, All, ==_iff, arith,
}
use mathlib.Core.Path.{subst, subst⁻¹}
use vertify_license_platform.Domain.{ok, err, Error, is_ok, unique_violation}
use vertify_license_platform.Store.Table.{find, first, find-append}
use vertify_license_platform.Store.Accounts.{Agent, CardBatch}
use vertify_license_platform.Store.Rows.{Plan, Card, Db}
use vertify_license_platform.Store.Tx.{pure, with_tx, with_tx-refused, with_tx-done, bind-ok, ◌>>◌}
use vertify_license_platform.Store.Cards.{by_lookup}
use vertify_license_platform.Store.Batches.{
  CardSeed, seeded, insert_card, insert_cards, insert_batch, create_batch,
}
use vertify_license_platform.Billing.{pay_for, pay, charge, over_int64, batch_tx}
use vertify_license_platform.Billing.Ledger.{balance_in, balance_of, moved, deducts}

abbrev find_card : ℕ → Db → Option Card
find_card k db = find (λ (c : Card). c.id) k db.cards

-- the cards of the seeds are in the table, unused
abbrev pub AreMade : ℕ → CardBatch → List CardSeed → Db → Type 0
AreMade now b seeds db = All (λ (s : CardSeed). find_card s.id db ≡ some (seeded now b s)) seeds

-- no card is lost
abbrev Grows : Db → Db → Type 0
Grows db db' = (k : ℕ) (c : Card) → find_card k db ≡ some c → find_card k db' ≡ some c

-- An inserted card is found, the others are found as before, and no agent changes.
inserts :
    (c : Card) (db : Db)
    → ((e : Error) × (insert_card c db ≡ (err e, db)))
      ⊎ ((insert_card c db).0 ≡ ok tt)
        × (find_card c.id (insert_card c db).1 ≡ some c)
        × Grows db (insert_card c db).1
        × ((insert_card c db).1.agents ≡ db.agents)
unfolding insert_card
inserts c db =
    elim (Bool-cases (
      is_some (find (λ (d : Card). d.id) c.id db.cards)
      || is_some (first (by_lookup c.lookup) db.cards))) [
        | inl e ↦ inl (unique_violation, rw (e, insert_card) refl)
        | inr e ↦ inr (
          ground (arith, e),
          ground (arith, e, find-append (λ (d : Card). d.id) c.id db.cards c),
          λ k d h. ground (arith, e, h, find-append (λ (d : Card). d.id) k db.cards c),
          ground (arith, e),
        )
      ]

made_later :
    (now : ℕ) (b : CardBatch) (seeds : List CardSeed) (db db' : Db)
    → Grows db db'
    → AreMade now b seeds db
    → AreMade now b seeds db'
made_later now b [] db db' g h = tt
made_later now b (s ∷ seeds) db db' g h =
    (g s.id (seeded now b s) h.0, made_later now b seeds db db' g h.1)

insert_cards_lem :
    (now : ℕ) (b : CardBatch) (seeds : List CardSeed) (db : Db)
    → is_ok (insert_cards now b seeds db).0 ≡ true
    → let db' = (insert_cards now b seeds db).1 in
      AreMade now b seeds db' × Grows db db' × (db'.agents ≡ db.agents)
unfolding insert_cards seeded
insert_cards_lem now b [] db h = (tt, λ k c e. e, refl)
insert_cards_lem now b (s ∷ seeds) db h =
    let c = seeded now b s in
    let (_, first_ok, step) = bind-ok (insert_card c) (λ _. insert_cards now b seeds) db h in
    let db₁ = (insert_card c db).1 in
    elim (inserts c db) [
      | inl (e, d) ↦ absurd (grind (arith, first_ok, d))
      | inr (done, found, grows, agents) ↦
          let (made, later, kept) = insert_cards_lem now b seeds db₁ (rw step at h) in
          (
            (
              ground (arith, step, later s.id c found),
              subst⁻¹ (λ x. AreMade now b seeds x.1) step made,
            ),
            λ k d e. ground (arith, step, later k d (grows k d e)),
            ap (λ x. x.1.agents) step ∙ kept ∙ agents,
          )
    ]

charge_lem :
    (agent cost batch : ℕ) (db : Db)
    → is_ok (charge agent cost batch db).0 ≡ true
    → let db' = (charge agent cost batch db).1 in
      (balance_of agent db' + cost ≡ balance_of agent db) × (db'.cards ≡ db.cards)
unfolding charge
charge_lem agent cost batch db h = elim (deducts agent cost db) [
  | inl (e, d) ↦ absurd (grind (arith, d, h))
  | inr (a, there, enough, d) ↦ (
    ground (
      arith,
      d,
      there,
      enough,
      moved agent cost agent a db there (λ b. leb cost b.balance_cents) (λ m. m - cost) enough,
    ),
    ground (arith, d),
  )
]

pay_for_lem :
    (agent : ℕ) (plan : Plan) (quantity batch : ℕ) (db : Db)
    → is_ok (pay_for agent plan quantity batch db).0 ≡ true
    → let db' = (pay_for agent plan quantity batch db).1 in
      (balance_of agent db' + quantity * plan.price_cents ≡ balance_of agent db)
      × (db'.cards ≡ db.cards)
unfolding pay_for
pay_for_lem agent plan quantity batch db h =
    let cost = quantity * plan.price_cents in
    elim (Bool-cases (plan.price_cents == 0)) [
      | inl z ↦
          let free : cost ≡ 0 =
            ap (λ p. quantity * p) ((==_iff plan.price_cents 0).0 z) ∙ omega arith in
          ground (arith, z, free)
      | inr z ↦ elim (Bool-cases (over_int64 quantity plan.price_cents)) [
        | inl o ↦ absurd (ground (arith, z, o, h))
        | inr o ↦ ground (arith, z, o, h, charge_lem agent cost batch db)
      ]
    ]

create_batch_lem :
    (now : ℕ) (b : CardBatch) (seeds : List CardSeed) (db : Db)
    → is_ok (create_batch now b seeds db).0 ≡ true
    → let db' = (create_batch now b seeds db).1 in
      AreMade now b seeds db' × (db'.agents ≡ db.agents)
unfolding create_batch insert_batch
create_batch_lem now b seeds db h =
    let (_, batch_ok, step) =
      bind-ok (insert_batch b) (λ _. insert_cards now b seeds >> pure b) db h in
    let db₁ = (insert_batch b db).1 in
    let (_, cards_ok, step') =
      bind-ok (insert_cards now b seeds) (λ _. pure b) db₁ (ground (arith, step, h)) in
    let whole = step ∙ step' in
    let (made, grows, agents) = insert_cards_lem now b seeds db₁ (ground (arith, cards_ok)) in
    (
      subst⁻¹ (λ x. AreMade now b seeds x.1) whole made,
      ap (λ x. x.1.agents) whole ∙ agents ∙ ground (arith, batch_ok),
    )

batch_tx_lem :
    (now : ℕ) (b : CardBatch) (seeds : List CardSeed) (plan : Plan) (agent : ℕ) (db : Db)
    → b.agent_id ≡ some agent
    → is_ok (batch_tx now b seeds plan db).0 ≡ true
    → let db' = (batch_tx now b seeds plan db).1 in
      AreMade now b seeds db'
      × (balance_of agent db' + b.quantity * plan.price_cents ≡ balance_of agent db)
unfolding batch_tx
batch_tx_lem now b seeds plan agent db owner h =
    let (_, made_ok, step) =
      bind-ok (create_batch now b seeds) (λ _. pay b.agent_id plan b.quantity b.id) db h in
    let db₁ = (create_batch now b seeds db).1 in
    let (made, agents) = create_batch_lem now b seeds db (ap is_ok made_ok) in
    let whole : batch_tx now b seeds plan db ≡ pay_for agent plan b.quantity b.id db₁ =
      step ∙ ap (λ o. pay o plan b.quantity b.id db₁) owner in
    let (paid, cards) =
      pay_for_lem agent plan b.quantity b.id db₁ (subst (λ x. is_ok x.0 ≡ true) whole h) in
    (
      made_later now b seeds db₁ (batch_tx now b seeds plan db).1
          (λ k c e.
            subst⁻¹ (λ x. find_card k x.1 ≡ some c) whole
              (subst⁻¹ (λ x. find (λ (d : Card). d.id) k x ≡ some c) cards e))
          made,
      ap (λ x. balance_of agent x.1 + b.quantity * plan.price_cents) whole
          ∙ paid
          ∙ ap (λ x. balance_in (find (λ (a : Agent). a.id) agent x)) agents,
    )

-- The transaction of an agent's batch gives all or nothing: either it fails and the database is as
-- before, or every card of the batch is in the table, unused, and the agent's balance has gone down
-- by the price of as many cards as the batch is said to have.
pub batch_bought :
    (now : ℕ) (b : CardBatch) (seeds : List CardSeed) (plan : Plan) (agent : ℕ) (db : Db)
    → b.agent_id ≡ some agent
    → let (r, db') = with_tx (batch_tx now b seeds plan) db in
      ((is_ok r ≡ false) × (db' ≡ db))
      ⊎ (is_ok r ≡ true)
        × AreMade now b seeds db'
        × (balance_of agent db' + b.quantity * plan.price_cents ≡ balance_of agent db)
batch_bought now b seeds plan agent db owner =
    elim (Bool-cases (is_ok (batch_tx now b seeds plan db).0)) [
      | inr bad ↦
          let kept = with_tx-refused (batch_tx now b seeds plan) db bad in
          inl (ground (arith, kept, bad), ap (λ x. x.1) kept)
      | inl good ↦
          let kept = with_tx-done (batch_tx now b seeds plan) db good in
          let (made, paid) = batch_tx_lem now b seeds plan agent db owner good in
          inr (
            ground (arith, kept, good),
            subst⁻¹ (λ x. AreMade now b seeds x.1) kept made,
            ground (arith, kept, paid),
          )
    ]
