-- ===== src/Tests/Money.antt =====
-- The balance of an agent, and the batches that it buys.
use vertify_license_platform.Prelude.{
  ℕ, ltb, if◌then◌else◌, ◌+◌, ◌*◌, ◌≡◌, refl, true, false, some, List, [], ◌∷◌, ◌⊎◌, Text, codes,
}
use vertify_license_platform.Domain.{is_ok}
use vertify_license_platform.Store.Accounts.{credit, debit, CardBatch}
use vertify_license_platform.Store.Rows.{CardKind}
use vertify_license_platform.Store.Tx.{with_tx}
use vertify_license_platform.Store.Batches.{CardSeed}
use vertify_license_platform.Billing.{CreateBatchRequest, KindWord, agent_adjust_balance, batch_tx}
use vertify_license_platform.Billing.Ledger.{
  settle, WithOutcome, balance_of, IsBooked, adjust-settle,
}
use vertify_license_platform.Billing.Booked.{
  Deal, adjusts, hires, imports, buys, deal_all, balances-IsBooked,
}
use vertify_license_platform.Billing.Purchase.{AreMade, batch_bought}
use vertify_license_platform.Tests.Cards.{month, agency, shop, root}

adjust-settle_example :
    WithOutcome (settle (debit 100) 250) 40 40 shop (agent_adjust_balance 40 (debit 100) shop)
adjust-settle_example = adjust-settle 40 40 (debit 100) agency shop refl refl

abbrev two_cards : CreateBatchRequest
two_cards = record {
  product_id = 1;
  plan_id = some 2;
  agent_id = some 40;
  kind = KindWord.unsaid;
  quantity = 2;
  prefix = [];
  batch_id = 50;
  card_id = λ i. 60 + i;
}

abbrev deals : List Deal
deals =
    adjusts 40 (credit 50)
    ∷ hires 41 (some 40)
    ∷ imports 900 root (record {
      product_id = 1;
      plan_id = 2;
      codes = codes "AAAAAAAAAAAAAAAAAAAAAAAAAA" ∷ [];
      kind = KindWord.license;
      batch_id = 51;
      card_id = λ i. 90 + i;
    })
    ∷ buys (λ i. some (if ltb i 26 then 1 else 2)) 9 1000 root two_cards
    ∷ adjusts 40 (debit 500)
    ∷ []

abbrev lookup_of : Text → Text
lookup_of t = t

balances-IsBooked_example : IsBooked 40 (deal_all lookup_of (λ _. true) deals shop)
balances-IsBooked_example = balances-IsBooked lookup_of (λ _. true) 40 deals shop refl

abbrev batch : CardBatch
batch = record {
  id = 50;
  agent_id = some 40;
  product_id = 1;
  plan_id = 2;
  quantity = 2;
  prefix = [];
}

abbrev card_seed : ℕ → Text → CardSeed
card_seed id lookup = record {
  id = id;
  lookup = lookup;
  prefix = codes "ABCDE";
  kind = CardKind.license;
  uses_total = 0;
  uses_left = 0;
}

abbrev card_seeds : List CardSeed
card_seeds = card_seed 60 (codes "k60") ∷ card_seed 61 (codes "k61") ∷ []

batch_bought_example :
    let (r, db') = with_tx (batch_tx 1000 batch card_seeds month) shop in
    ((is_ok r ≡ false) × (db' ≡ shop))
    ⊎ (is_ok r ≡ true)
      × AreMade 1000 batch card_seeds db'
      × (balance_of 40 db' + 2 * 100 ≡ balance_of 40 shop)
batch_bought_example = batch_bought 1000 batch card_seeds month 40 shop refl
