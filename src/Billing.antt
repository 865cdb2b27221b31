-- ===== src/Billing.antt =====
-- The money of agents and the batches that they pay for: `AgentAdjustBalance`, `CreateCardBatch`,
-- `requireAgentProductGrant` and (in Billing/Import) `ImportCards` of apps/license-api/internal/service/adminsvc.go.
pub mod Import
pub mod Ledger
pub mod Statements
pub mod Keeps
pub mod Booked
pub mod Purchase
use vertify_license_platform.Prelude.{
  ℕ, suc, ◌*◌, ◌/◌, ◌-◌, Bool, true, false, ◌&&◌, ◌||◌, not, Option, none, some, List, [], ◌∷◌,
  is_empty, ltb, leb, ◌==◌, length, Text, text_eq, if◌then◌else◌,
}
use vertify_license_platform.Domain.{
  AdminRole, Error, Result, ok, err, card_invalid_format, product_retired, plan_retired,
  product_not_granted, insufficient_balance, agent_not_found, bad_argument, out_of_range,
}
use vertify_license_platform.CardCode.{
  Outcome, cards, normalize_card, card_prefix, validate_card_prefix, generate_card_batch,
  generate_card_batch_with_prefix, seen,
}
use vertify_license_platform.Store.Accounts.{
  Amount, credit, debit, TransactionKind, AgentTransaction, CardBatch,
}
use vertify_license_platform.Store.Rows.{Product, Plan, CardKind}
use vertify_license_platform.Store.Tx.{Tx, pure, raise, raise_if, or_raise, with_tx, ◌>>=◌, ◌>>◌}
use vertify_license_platform.Store.Agents.{
  get_agent, bigint, deduct_agent_balance, credit_agent_balance, debit_agent_balance,
  insert_agent_transaction, agent_has_product,
}
use vertify_license_platform.Store.Batches.{CardSeed, create_batch}
use vertify_license_platform.Store.Catalog.{get_plan, get_product}
use vertify_license_platform.Admin.{Actor, is_agent}

-- `amountCents == 0`
abbrev pub is_zero : Amount → Bool
is_zero (credit n) = n == 0
is_zero (debit n) = n == 0

-- `TopUpAgentBalance`
unfoldable pub top_up_agent_balance : ℕ → Amount → Tx ℕ
unfolding credit_agent_balance debit_agent_balance
top_up_agent_balance id (credit n) = credit_agent_balance id n
top_up_agent_balance id (debit n) = debit_agent_balance id n

abbrev adjustment : Amount → TransactionKind
adjustment (credit n) = TransactionKind.topup
adjustment (debit n) = TransactionKind.adjust

-- the transaction of `AgentAdjustBalance`
unfoldable pub adjust_tx : ℕ → Amount → Tx ℕ
unfolding top_up_agent_balance
adjust_tx id amount = do
  or_raise (get_agent id) agent_not_found
  after ← or_raise (top_up_agent_balance id amount) insufficient_balance
  insert_agent_transaction (record {
    agent_id = id;
    amount_cents = amount;
    balance_after = after;
    kind = adjustment amount;
    ref_batch_id = none;
  })
  pure after

-- `AgentAdjustBalance`
unfoldable pub agent_adjust_balance : ℕ → Amount → Tx ℕ
unfolding adjust_tx
agent_adjust_balance id amount = do
  raise_if (is_zero amount) bad_argument
  with_tx (adjust_tx id amount)

-- `req.Kind`, where the empty word stands for "license"
pub data KindWord : Type 0 where
  unsaid license renewal other : KindWord

abbrev pub kind_of : KindWord → Option CardKind
kind_of unsaid = some CardKind.license
kind_of license = some CardKind.license
kind_of renewal = some CardKind.renewal
kind_of other = none

-- The request, and the UUIDs that the database draws for the batch and for its cards.
pub record CreateBatchRequest : Type 0 where
  pub product_id : ℕ
  pub plan_id : Option ℕ
  pub agent_id : Option ℕ
  pub kind : KindWord
  pub quantity : ℕ
  pub prefix : Text
  pub batch_id : ℕ
  pub card_id : ℕ → ℕ

-- `requireAgentProductGrant`, with the test of the role and of the agent that its callers make
unfoldable pub require_grant : Actor → ℕ → Tx (Unit {0})
unfolding agent_has_product
require_grant ac product =
    if is_agent ac.role
    then elim ac.agent_id [
      | none ↦ raise product_not_granted
      | some agent ↦
          agent_has_product agent product >>= λ has. raise_if (not has) product_not_granted
    ]
    else pure tt

-- `int64(req.Quantity) > math.MaxInt64/plan.PriceCents`
abbrev pub over_int64 : ℕ → ℕ → Bool
over_int64 quantity price = ltb ((bigint - 1) / price) quantity

-- the deduction of a cost, and its transaction
unfoldable pub charge : ℕ → ℕ → ℕ → Tx (Unit {0})
charge agent cost batch = do
  after ← or_raise (deduct_agent_balance agent cost) insufficient_balance
  insert_agent_transaction (record {
    agent_id = agent;
    amount_cents = debit cost;
    balance_after = after;
    kind = TransactionKind.batch_purchase;
    ref_batch_id = some batch;
  })

-- for a batch of an agent and a plan that has a price
unfoldable pub pay_for : ℕ → Plan → ℕ → ℕ → Tx (Unit {0})
unfolding charge
pay_for agent plan quantity batch =
    if plan.price_cents == 0
    then pure tt
    else raise_if (over_int64 quantity plan.price_cents) out_of_range
      >> charge agent (quantity * plan.price_cents) batch

abbrev pub pay : Option ℕ → Plan → ℕ → ℕ → Tx (Unit {0})
pay none plan quantity batch = pure tt
pay (some agent) plan quantity batch = pay_for agent plan quantity batch

-- the transaction of `CreateCardBatch`
unfoldable pub batch_tx : ℕ → CardBatch → List CardSeed → Plan → Tx (Unit {0})
unfolding create_batch pay_for
batch_tx now b seeds plan = do create_batch now b seeds; pay b.agent_id plan b.quantity b.id

-- `CardLookup` is a keyed hash; `secret` tells whether the code could be encrypted.
module _ (card_lookup : Text → Text) (secret : Text → Bool) where
  -- a seed of a code that has the normal form `norm`; the error of `EncryptCardSecret` ends the batch
  abbrev seed : ℕ → Text → CardKind → Plan → CardSeed
  seed id norm kind plan = record {
    id = id;
    lookup = card_lookup norm;
    prefix = card_prefix norm;
    kind = kind;
    uses_total = plan.uses_total;
    uses_left = plan.uses_total;
  }

  -- the loop over the codes, `i` the index of the first
  unfoldable pub seeds_of : (ℕ → ℕ) → CardKind → Plan → ℕ → List Text → Option (List CardSeed)
  seeds_of ids kind plan i [] = some []
  seeds_of ids kind plan i (pt ∷ pts) =
      let rest = seeds_of ids kind plan (suc i) pts in
      elim (normalize_card pt) [
        | none ↦ none
        | some norm ↦
            if secret norm
            then elim rest [ none ↦ none | some seeds ↦ some (seed (ids i) norm kind plan ∷ seeds) ]
            else none
      ]

  -- the checks of the plan and the product
  unfoldable pub sellable : Actor → Plan → Product → Tx (Unit {0})
  unfolding require_grant
  sellable ac plan prod = do
    raise_if (not (plan.product_id == prod.id)) bad_argument
    raise_if (not prod.is_active) product_retired
    raise_if (not plan.is_active) plan_retired
    require_grant ac prod.id

  abbrev pub batch_row : CreateBatchRequest → ℕ → Text → CardBatch
  batch_row req plan_id prefix = record {
    id = req.batch_id;
    agent_id = req.agent_id;
    product_id = req.product_id;
    plan_id = plan_id;
    quantity = req.quantity;
    prefix = prefix;
  }

  -- what follows once the codes are generated
  unfoldable pub store_batch :
      ℕ → CreateBatchRequest → CardKind → Plan → ℕ → Text → Outcome → Tx (List Text)
  unfolding seeds_of batch_tx
  store_batch now req kind plan plan_id prefix (cards pts) =
      elim (seeds_of req.card_id kind plan 0 pts) [
        | none ↦ raise bad_argument
        | some seeds ↦ do with_tx (batch_tx now (batch_row req plan_id prefix) seeds plan); pure pts
      ]
  store_batch now req kind plan plan_id prefix _ = raise bad_argument

  -- the plan and the product are read and checked
  unfoldable pub sell :
      ℕ → Actor → CreateBatchRequest → CardKind → ℕ → Text → Outcome → Tx (List Text)
  unfolding sellable store_batch
  sell now ac req kind plan_id prefix codes = do
    plan ← get_plan plan_id
    prod ← get_product req.product_id
    sellable ac plan prod
    store_batch now req kind plan plan_id prefix codes

  -- `CreateCardBatch`; `draw` is the random source, and `fuel` bounds the rounds of the generator.
  unfoldable pub create_card_batch :
      (ℕ → Option ℕ) → ℕ → ℕ → Actor → CreateBatchRequest → Tx (List Text)
  create_card_batch draw fuel now ac req =
      if not (leb 1 req.quantity && leb req.quantity 100000)
      then raise out_of_range
      else elim (validate_card_prefix req.prefix) [
        | none ↦ raise bad_argument
        | some prefix ↦ elim (kind_of req.kind) [
          | none ↦ raise bad_argument
          | some kind ↦ elim req.plan_id [
            | none ↦ raise bad_argument
            | some plan_id ↦ sell now ac req kind plan_id prefix (
                if is_empty prefix
                then generate_card_batch draw fuel req.quantity
                else generate_card_batch_with_prefix draw fuel req.quantity prefix)
          ]
        ]
      ]
