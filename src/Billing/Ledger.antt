-- ===== src/Billing/Ledger.antt =====
-- The balances of agents (`AgentAdjustBalance` and `CreateCardBatch` of
-- apps/license-api/internal/service/adminsvc.go): every balance is what its transactions add up to,
-- and a change of a balance is a step of an account that refuses to be overdrawn.
use vertify_license_platform.Prelude.{
  ℕ, ◌+◌, ◌-◌, ◌≡◌, refl, Bool, true, false, Option, none, some, List, [], ◌∷◌, leb, ltb, ◌==◌,
  if◌then◌else◌, ◌⊎◌, inl, inr, Bool-cases, Option-cases, arith,
}
use vertify_license_platform.Domain.{Result, ok, err, Error, is_ok, bad_argument, no_rows}
use vertify_license_platform.Store.Table.{find, update, find-update}
use vertify_license_platform.Store.Accounts.{Agent, Amount, credit, debit, AgentTransaction}
use vertify_license_platform.Store.Rows.{Db}
use vertify_license_platform.Store.Tx.{with_tx}
use vertify_license_platform.Store.Agents.{
  bigint, credit_agent_balance, debit_agent_balance, deduct_agent_balance, with_balance,
}
use vertify_license_platform.Billing.{
  is_zero, adjust_tx, agent_adjust_balance, top_up_agent_balance,
}

abbrev pub balance_in : Option Agent → ℕ
balance_in none = 0
balance_in (some a) = a.balance_cents

-- the balance of an agent, which is nothing for an agent that does not exist
abbrev pub balance_of : ℕ → Db → ℕ
balance_of k db = balance_in (find (λ (a : Agent). a.id) k db.agents)

abbrev credit_of : Amount → ℕ
credit_of (credit n) = n
credit_of (debit n) = 0

abbrev debit_of : Amount → ℕ
debit_of (credit n) = 0
debit_of (debit n) = n

-- what the transactions of an agent give to it
abbrev pub credits : ℕ → List AgentTransaction → ℕ
credits k [] = 0
credits k (t ∷ ts) =
    let rest = credits k ts in if t.agent_id == k then credit_of t.amount_cents + rest else rest

-- what they take from it
abbrev pub debits : ℕ → List AgentTransaction → ℕ
debits k [] = 0
debits k (t ∷ ts) =
    let rest = debits k ts in if t.agent_id == k then debit_of t.amount_cents + rest else rest

-- The balance of agent `k` is the sum of its transactions.
abbrev pub IsBooked : ℕ → Db → Type 0
IsBooked k db = balance_of k db + debits k db.transactions ≡ credits k db.transactions

-- An account in the abstract: an amount is added or taken, or refused.
abbrev pub settle : Amount → ℕ → Option ℕ
settle (credit n) balance = if ltb (balance + n) bigint then some (balance + n) else none
settle (debit n) balance = if leb n balance then some (balance - n) else none

abbrev pub WithOutcome : Option ℕ → ℕ → ℕ → Db → Result ℕ × Db → Type 0
WithOutcome none id k db (r, db') = (is_ok r ≡ false) × (db' ≡ db)
WithOutcome (some after) id k db (r, db') =
    (r ≡ ok after) × (balance_of k db' ≡ (if id == k then after else balance_of k db))

module _ (id n k : ℕ) (a : Agent) (db : Db)
    (there : find (λ (b : Agent). b.id) id db.agents ≡ some a) where
  pub moved :
      (p : Agent → Bool) (f : ℕ → ℕ)
      → p a ≡ true
      → balance_in (
          find
            (λ (b : Agent). b.id)
            k
            (update (λ (b : Agent). b.id) id p (λ b. with_balance (f b.balance_cents) b) db.agents))
        ≡ (if id == k then f a.balance_cents else balance_of k db)
  moved p f allowed = ground (
    arith,
    there,
    allowed,
    find-update (λ (b : Agent). b.id) id p (λ b. with_balance (f b.balance_cents) b) k db.agents
        (λ b. refl),
  )

-- An adjustment of an existing agent's balance by an amount that is not nothing is the account's step:
-- accepted with the account's balance, which only that agent gets, or refused with nothing changed.
pub adjust-settle :
    (id k : ℕ) (amount : Amount) (a : Agent) (db : Db)
    → find (λ (b : Agent). b.id) id db.agents ≡ some a
    → is_zero amount ≡ false
    → WithOutcome (settle amount a.balance_cents) id k db (agent_adjust_balance id amount db)
unfolding agent_adjust_balance adjust_tx top_up_agent_balance credit_agent_balance
    debit_agent_balance with_tx
adjust-settle id k (credit n) a db there some_amount =
    ground (arith, there, moved id n k a db there (λ b. true) (λ m. m + n))
adjust-settle id k (debit n) a db there some_amount =
    ground (arith, there, moved id n k a db there (λ b. leb n b.balance_cents) (λ m. m - n))

-- `DeductAgentBalance` changes nothing, or takes the cost from an agent that has it.
pub deducts :
    (agent cost : ℕ) (db : Db)
    → ((e : Error) × (deduct_agent_balance agent cost db ≡ (err e, db)))
      ⊎ ((a : Agent) × (find (λ (b : Agent). b.id) agent db.agents ≡ some a)
          × (leb cost a.balance_cents ≡ true)
          × (deduct_agent_balance agent cost db ≡ (
            ok (a.balance_cents - cost),
            record db {
              agents =
                  update
                    (λ (b : Agent). b.id)
                    agent
                    (λ b. leb cost b.balance_cents)
                    (λ b. with_balance (b.balance_cents - cost) b)
                    db.agents;
            },
          )))
unfolding deduct_agent_balance
deducts agent cost db = elim (Bool-cases (cost == 0)) [
  | inl z ↦ inl (bad_argument, rw (z, deduct_agent_balance) refl)
  | inr z ↦ elim (Option-cases (find (λ (b : Agent). b.id) agent db.agents)) [
    | inl e ↦ inl (no_rows, rw (z, e, deduct_agent_balance) refl)
    | inr (a, e) ↦ elim (Bool-cases (leb cost a.balance_cents)) [
      | inl l ↦ inr (a, e, l, rw (z, e, l, deduct_agent_balance) refl)
      | inr l ↦ inl (no_rows, rw (z, e, l, deduct_agent_balance) refl)
    ]
  ]
]
