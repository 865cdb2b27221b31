-- ===== src/Billing/Booked.antt =====
-- Every balance is the sum of its transactions, through `AgentAdjustBalance`, `CreateAgent`,
-- `ImportCards` and `CreateCardBatch` of apps/license-api/internal/service/adminsvc.go.
use vertify_license_platform.Prelude.{ℕ, Bool, Option, List, [], ◌∷◌, Text}
use vertify_license_platform.Store.Accounts.{Amount}
use vertify_license_platform.Store.Rows.{Db}
use vertify_license_platform.Store.Agents.{create_agent}
use vertify_license_platform.Billing.{CreateBatchRequest, agent_adjust_balance, create_card_batch}
use vertify_license_platform.Admin.{Actor}
use vertify_license_platform.Billing.Import.{ImportCardRequest, import_cards}
use vertify_license_platform.Billing.Statements.{
  insert_card-Keeps, insert_batch-Keeps, charge-Keeps, agent_adjust-Keeps, new_agent-Keeps,
}
use vertify_license_platform.Billing.Keeps.{create_card_batch-Keeps, import_cards-Keeps}
use vertify_license_platform.Billing.Ledger.{IsBooked}

-- a request that changes money
pub data Deal : Type 0 where
  adjusts : ℕ → Amount → Deal
  hires : ℕ → Option ℕ → Deal
  imports : ℕ → Actor → ImportCardRequest → Deal
  buys : (ℕ → Option ℕ) → ℕ → ℕ → Actor → CreateBatchRequest → Deal

module _ (card_lookup : Text → Text) (secret : Text → Bool) where
  unfoldable pub deal : Deal → Db → Db
  deal (adjusts id amount) db = (agent_adjust_balance id amount db).1
  deal (hires id parent) db = (create_agent id parent db).1
  deal (imports now ac req) db = (import_cards card_lookup secret now ac req db).1
  deal (buys draw fuel now ac req) db =
      (create_card_batch card_lookup secret draw fuel now ac req db).1

  unfoldable pub deal_all : List Deal → Db → Db
  deal_all [] db = db
  deal_all (d ∷ ds) db = deal_all ds (deal d db)

  deal-Keeps : (k : ℕ) (d : Deal) (db : Db) → IsBooked k db → IsBooked k (deal d db)
  unfolding deal
  deal-Keeps k (adjusts id amount) db h = agent_adjust-Keeps k id amount db h
  deal-Keeps k (hires id parent) db h = new_agent-Keeps k id parent db h
  deal-Keeps k (imports now ac req) db h =
      import_cards-Keeps (IsBooked k) (insert_card-Keeps k) (insert_batch-Keeps k) (charge-Keeps k)
        card_lookup secret now ac req db h
  deal-Keeps k (buys draw fuel now ac req) db h =
      create_card_batch-Keeps (IsBooked k) (insert_card-Keeps k) (insert_batch-Keeps k)
        (charge-Keeps k) card_lookup secret draw fuel now ac req db h

  -- Whatever adjustments, new agents, imports and batches the requests bring, in whatever order, and accepted
  -- or refused: the balance of every agent is what its transactions give less what they take, if it
  -- was so before.
  pub balances-IsBooked :
      (k : ℕ) (ds : List Deal) (db : Db) → IsBooked k db → IsBooked k (deal_all ds db)
  unfolding deal_all
  balances-IsBooked k [] db h = h
  balances-IsBooked k (d ∷ ds) db h = balances-IsBooked k ds (deal d db) (deal-Keeps k d db h)
