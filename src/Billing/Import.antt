-- ===== src/Billing/Import.antt =====
-- `ImportCards` of apps/license-api/internal/service/adminsvc.go.
use vertify_license_platform.Prelude.{
  ℕ, suc, Bool, ◌&&◌, not, Option, none, some, List, [], ◌∷◌, leb, length, is_empty, Text, text_eq,
  if◌then◌else◌,
}
use vertify_license_platform.Domain.{bad_argument}
use vertify_license_platform.CardCode.{normalize_card, card_prefix, seen}
use vertify_license_platform.Store.Accounts.{CardBatch}
use vertify_license_platform.Store.Rows.{Plan, CardKind}
use vertify_license_platform.Store.Tx.{Tx, pure, raise, raise_if, with_tx, ◌>>=◌, ◌>>◌}
use vertify_license_platform.Store.Batches.{CardSeed, create_batch}
use vertify_license_platform.Store.Catalog.{get_plan, get_product}
use vertify_license_platform.Admin.{Actor}
use vertify_license_platform.Billing.{KindWord, kind_of, sellable, seed}

-- The request, and the UUIDs that the database draws for the batch and for its cards.
pub record ImportCardRequest : Type 0 where
  pub product_id : ℕ
  pub plan_id : ℕ
  pub codes : List Text
  pub kind : KindWord
  pub batch_id : ℕ
  pub card_id : ℕ → ℕ

module _ (card_lookup : Text → Text) (secret : Text → Bool) where
  -- The loop over the codes: `lookups` are those that were seen, `prefix` is that of the codes before,
  -- and is empty before the first. The result is the prefix of all, and the seeds.
  unfoldable pub import_seeds :
      (ℕ → ℕ) → CardKind → Plan → ℕ → List Text → Text → List Text → Option (Text × List CardSeed)
  import_seeds ids kind plan i lookups prefix [] = some (prefix, [])
  import_seeds ids kind plan i lookups prefix (raw ∷ raws) = elim (normalize_card raw) [
    | none ↦ none
    | some norm ↦
        let rest =
          import_seeds ids kind plan (suc i) (card_lookup norm ∷ lookups) (card_prefix norm) raws in
        if seen lookups (card_lookup norm)
        then none
        else if not (is_empty prefix) && not (text_eq (card_prefix norm) prefix)
        then none
        else if not (secret norm)
        then none
        else elim rest [
          | none ↦ none
          | some (p, seeds) ↦ some (p, seed card_lookup secret (ids i) norm kind plan ∷ seeds)
        ]
  ]

  abbrev pub import_row : ImportCardRequest → ℕ → Text → CardBatch
  import_row req quantity prefix = record {
    id = req.batch_id;
    agent_id = none;
    product_id = req.product_id;
    plan_id = req.plan_id;
    quantity = quantity;
    prefix = prefix;
  }

  -- from the kind of the cards on
  unfoldable pub import_kind : ℕ → ImportCardRequest → Plan → Tx ℕ
  unfolding import_seeds create_batch
  import_kind now req plan = elim (kind_of req.kind) [
    | none ↦ raise bad_argument
    | some kind ↦ elim (import_seeds req.card_id kind plan 0 [] [] req.codes) [
      | none ↦ raise bad_argument
      | some (prefix, seeds) ↦ do
        with_tx (create_batch now (import_row req (length seeds) prefix) seeds)
        pure (length seeds)
    ]
  ]

  -- `ImportCards`: the number of cards
  unfoldable pub import_cards : ℕ → Actor → ImportCardRequest → Tx ℕ
  unfolding sellable import_kind
  import_cards now ac req = do
    raise_if (not (leb 1 (length req.codes) && leb (length req.codes) 10000)) bad_argument
    plan ← get_plan req.plan_id
    prod ← get_product req.product_id
    sellable card_lookup secret ac plan prod
    import_kind now req plan
