-- ===== src/Store/Batches.antt =====
-- `CreateBatch` of apps/license-api/internal/store/licenses.go.
use vertify_license_platform.Prelude.{
  ℕ, ◌||◌, not, none, some, List, [], ◌∷◌, ◌++◌, leb, ◌&&◌, is_some, Text, if◌then◌else◌, Bool,
  true, length,
}
use vertify_license_platform.Domain.{
  CardStatus, ok, err, unique_violation, out_of_range, foreign_key_violation,
}
use vertify_license_platform.Store.Table.{find, first}
use vertify_license_platform.Store.Accounts.{Agent, CardBatch}
use vertify_license_platform.Store.Rows.{Product, Plan, Card, CardKind, Db}
use vertify_license_platform.Store.Tx.{Tx, pure, ◌>>◌}
use vertify_license_platform.Store.Cards.{by_lookup}

-- `CardSeed`, without the encrypted code, and with the UUID that the database draws
pub record CardSeed : Type 0 where
  pub id : ℕ
  pub lookup : Text
  pub prefix : Text
  pub kind : CardKind
  pub uses_total : ℕ
  pub uses_left : ℕ

-- the row of a seed
unfoldable pub seeded : ℕ → CardBatch → CardSeed → Card
seeded now b seed = record {
  id = seed.id;
  batch_id = b.id;
  agent_id = b.agent_id;
  product_id = b.product_id;
  plan_id = b.plan_id;
  lookup = seed.lookup;
  prefix = seed.prefix;
  kind = seed.kind;
  status = CardStatus.unused;
  uses_total = seed.uses_total;
  uses_left = seed.uses_left;
  license_id = none;
  used_by_user = none;
  activated_at = none;
  note = [];
  created_at = now;
}

-- the UUID and the lookup must be free
unfoldable pub insert_card : Card → Tx (Unit {0})
insert_card c db =
    if is_some (find (λ (d : Card). d.id) c.id db.cards)
      || is_some (first (by_lookup c.lookup) db.cards)
    then (err unique_violation, db)
    else (ok tt, record db { cards = db.cards ++ c ∷ [] })

-- the loop over the seeds
unfoldable pub insert_cards : ℕ → CardBatch → List CardSeed → Tx (Unit {0})
insert_cards now b [] = pure tt
insert_cards now b (seed ∷ seeds) = insert_card (seeded now b seed) >> insert_cards now b seeds

-- the CHECKs of `card_batches`
unfoldable pub batch_fits : CardBatch → Bool
batch_fits b = leb 1 b.quantity && leb b.quantity 100000 && leb (length b.prefix) 8

-- the foreign keys of `card_batches`
unfoldable pub batch_refers : CardBatch → Db → Bool
batch_refers b db =
    is_some (find (λ (p : Product). p.id) b.product_id db.products)
    && is_some (find (λ (p : Plan). p.id) b.plan_id db.plans)
    && elim b.agent_id [ none ↦ true | some k ↦ is_some (find (λ (a : Agent). a.id) k db.agents) ]

unfoldable pub insert_batch : CardBatch → Tx (Unit {0})
insert_batch b db =
    if is_some (find (λ (c : CardBatch). c.id) b.id db.batches)
    then (err unique_violation, db)
    else if not (batch_fits b)
    then (err out_of_range, db)
    else if batch_refers b db
    then (ok tt, record db { batches = db.batches ++ b ∷ [] })
    else (err foreign_key_violation, db)

unfoldable pub create_batch : ℕ → CardBatch → List CardSeed → Tx CardBatch
unfolding insert_batch insert_cards
create_batch now b seeds = do insert_batch b; insert_cards now b seeds; pure b
