-- ===== src/Billing/Statements.antt =====
-- The statements and transactions that move money, of apps/license-api/internal/store/catalog.go and
-- service/adminsvc.go, and the sums of transactions.
use vertify_license_platform.Prelude.{ℕ, ◌+◌, ◌-◌, true, Option, leb, inl, inr, Option-cases, arith}
use vertify_license_platform.Store.Table.{find, find-append}
use vertify_license_platform.Store.Accounts.{Agent, Amount, credit, debit, CardBatch}
use vertify_license_platform.Store.Rows.{Card}
use vertify_license_platform.Store.Keeps.{Keeps, with_tx-Keeps}
use vertify_license_platform.Store.Agents.{
  credit_agent_balance, debit_agent_balance, create_agent, new_agent,
}
use vertify_license_platform.Store.Batches.{insert_card, insert_batch}
use vertify_license_platform.Billing.{adjust_tx, agent_adjust_balance, top_up_agent_balance, charge}
use vertify_license_platform.Billing.Ledger.{IsBooked, moved, deducts}

module _ (k : ℕ) where
  pub adjust-Keeps : (id : ℕ) (amount : Amount) → Keeps (IsBooked k) (adjust_tx id amount)
  unfolding adjust_tx top_up_agent_balance credit_agent_balance debit_agent_balance
  adjust-Keeps id (credit n) db h = elim (Option-cases (find (λ (b : Agent). b.id) id db.agents)) [
    | inl e ↦ ground (arith, e, h)
    | inr (a, e) ↦ ground (arith, e, h, moved id n k a db e (λ b. true) (λ m. m + n))
  ]
  adjust-Keeps id (debit n) db h = elim (Option-cases (find (λ (b : Agent). b.id) id db.agents)) [
    | inl e ↦ ground (arith, e, h)
    | inr (a, e) ↦
        ground (arith, e, h, moved id n k a db e (λ b. leb n b.balance_cents) (λ m. m - n))
  ]

  pub charge-Keeps : (agent cost batch : ℕ) → Keeps (IsBooked k) (charge agent cost batch)
  unfolding charge
  charge-Keeps agent cost batch db h = elim (deducts agent cost db) [
    | inl (e, d) ↦ ground (arith, d, h)
    | inr (a, there, enough, d) ↦ ground (
      arith,
      d,
      h,
      enough,
      moved agent cost k a db there (λ b. leb cost b.balance_cents) (λ m. m - cost) enough,
    )
  ]

  pub insert_card-Keeps : (c : Card) → Keeps (IsBooked k) (insert_card c)
  unfolding insert_card
  insert_card-Keeps c db h = ground (arith, h)

  pub insert_batch-Keeps : (b : CardBatch) → Keeps (IsBooked k) (insert_batch b)
  unfolding insert_batch
  insert_batch-Keeps b db h = ground (arith, h)

  pub agent_adjust-Keeps :
      (id : ℕ) (amount : Amount) → Keeps (IsBooked k) (agent_adjust_balance id amount)
  unfolding agent_adjust_balance
  agent_adjust-Keeps id amount db h =
      ground
        (arith, h, with_tx-Keeps (IsBooked k) (adjust_tx id amount) (adjust-Keeps id amount) db h)

  pub new_agent-Keeps : (id : ℕ) (parent : Option ℕ) → Keeps (IsBooked k) (create_agent id parent)
  unfolding create_agent
  new_agent-Keeps id parent db h =
      ground (arith, h, find-append (λ (a : Agent). a.id) k db.agents (new_agent id parent))
