-- ===== src/Store/Agents.antt =====
-- The statements on agents, their balances and their grants, of
-- apps/license-api/internal/store/catalog.go.
use vertify_license_platform.Prelude.{
  ℕ, ◌+◌, ◌-◌, ◌^◌, Bool, true, ◌&&◌, Option, none, some, [], ◌∷◌, ◌++◌, ltb, leb, ◌==◌, is_some,
  if◌then◌else◌,
}
use vertify_license_platform.Domain.{ok, err, no_rows, unique_violation, out_of_range, bad_argument}
use vertify_license_platform.Store.Table.{find, exists, update, delete}
use vertify_license_platform.Store.Accounts.{Agent, AgentTransaction, Grant}
use vertify_license_platform.Store.Tx.{Tx, selects}

-- `GetAgent`
abbrev pub get_agent : ℕ → Tx Agent
get_agent id = selects (λ db. find (λ (a : Agent). a.id) id db.agents)

-- a BIGINT stays below this
abbrev pub bigint : ℕ
bigint = 2 ^ 63

abbrev pub with_balance : ℕ → Agent → Agent
with_balance n a = record a { balance_cents = n }

-- `DeductAgentBalance`: the balance after the deduction
unfoldable pub deduct_agent_balance : ℕ → ℕ → Tx ℕ
deduct_agent_balance id amount db =
    if amount == 0 then (err bad_argument, db) else elim (find (λ (a : Agent). a.id) id db.agents) [
      | none ↦ (err no_rows, db)
      | some a ↦
          if leb amount a.balance_cents
          then (
            ok (a.balance_cents - amount),
            record db {
              agents =
                  update (λ (b : Agent). b.id) id (λ b. leb amount b.balance_cents)
                    (λ b. with_balance (b.balance_cents - amount) b) db.agents;
            },
          )
          else (err no_rows, db)
    ]

-- `TopUpAgentBalance` with a positive amount; PostgreSQL refuses a sum outside BIGINT.
unfoldable pub credit_agent_balance : ℕ → ℕ → Tx ℕ
credit_agent_balance id amount db = elim (find (λ (a : Agent). a.id) id db.agents) [
  | none ↦ (err no_rows, db)
  | some a ↦
      if ltb (a.balance_cents + amount) bigint
      then (
        ok (a.balance_cents + amount),
        record db {
          agents =
              update (λ (b : Agent). b.id) id (λ b. true)
                (λ b. with_balance (b.balance_cents + amount) b) db.agents;
        },
      )
      else (err out_of_range, db)
]

-- `TopUpAgentBalance` with a negative amount, whose absolute value this is
unfoldable pub debit_agent_balance : ℕ → ℕ → Tx ℕ
debit_agent_balance id amount db = elim (find (λ (a : Agent). a.id) id db.agents) [
  | none ↦ (err no_rows, db)
  | some a ↦
      if leb amount a.balance_cents
      then (
        ok (a.balance_cents - amount),
        record db {
          agents =
              update (λ (b : Agent). b.id) id (λ b. leb amount b.balance_cents)
                (λ b. with_balance (b.balance_cents - amount) b) db.agents;
        },
      )
      else (err no_rows, db)
]

-- `InsertAgentTransaction`
abbrev pub insert_agent_transaction : AgentTransaction → Tx (Unit {0})
insert_agent_transaction t db = (ok tt, record db { transactions = t ∷ db.transactions })

abbrev pub new_agent : ℕ → Option ℕ → Agent
new_agent id parent = record { id = id; parent_id = parent; balance_cents = 0; is_active = true }

-- `CreateAgent`: the schema's defaults are an empty balance and an active status.
unfoldable pub create_agent : ℕ → Option ℕ → Tx Agent
create_agent id parent db =
    if is_some (find (λ (b : Agent). b.id) id db.agents)
    then (err unique_violation, db)
    else (ok (new_agent id parent), record db { agents = db.agents ++ new_agent id parent ∷ [] })

-- `SetAgentStatus`, which does not look at the rows affected
unfoldable pub set_agent_status : ℕ → Bool → Tx (Unit {0})
set_agent_status id active db = (
  ok tt,
  record db {
    agents =
        update (λ (a : Agent). a.id) id (λ a. true) (λ a. record a { is_active = active })
          db.agents;
  },
)

abbrev pub grants_to : ℕ → ℕ → Grant → Bool
grants_to agent product g = g.agent_id == agent && g.product_id == product

-- `AgentHasProduct`
unfoldable pub agent_has_product : ℕ → ℕ → Tx Bool
agent_has_product agent product db = (ok (exists (grants_to agent product) db.grants), db)

-- `GrantAgentProduct`: ON CONFLICT DO NOTHING
unfoldable pub grant_agent_product : ℕ → ℕ → Tx (Unit {0})
grant_agent_product agent product db = (
  ok tt,
  if exists (grants_to agent product) db.grants
      then db
      else record db { grants = record { agent_id = agent; product_id = product } ∷ db.grants },
)

-- `RevokeAgentProduct`
unfoldable pub revoke_agent_product : ℕ → ℕ → Tx (Unit {0})
revoke_agent_product agent product db =
    (ok tt, record db { grants = delete (grants_to agent product) db.grants })
