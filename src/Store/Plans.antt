-- ===== src/Store/Plans.antt =====
-- The statements that change plans, of apps/license-api/internal/store/catalog.go, with the CHECKs
-- and the references of the migrations.
use vertify_license_platform.Prelude.{
  ℕ, suc, ◌^◌, Bool, true, ◌&&◌, ◌||◌, not, [], ◌∷◌, ◌++◌, ltb, leb, ◌==◌, is_some, all_of, length,
  Text, text_eq, if◌then◌else◌,
}
use vertify_license_platform.Domain.{
  CardStatus, card_is, ok, err, no_rows, unique_violation, foreign_key_violation, out_of_range,
}
use vertify_license_platform.Store.Table.{find, first, exists, count, delete, update, update_where}
use vertify_license_platform.Store.Accounts.{CardBatch}
use vertify_license_platform.Store.Rows.{Product, Plan, Card, License, Activation, Renewal, Db}
use vertify_license_platform.Store.Tx.{Tx, gets}

-- an INT
abbrev int32 : ℕ
int32 = 2 ^ 31

abbrev between : ℕ → ℕ → ℕ → Bool
between low high n = leb low n && leb n high

-- the CHECKs and types of the numbers of `plans`
unfoldable pub plan_fits : Plan → Bool
plan_fits p =
    leb p.duration_days 36500
    && ltb p.fixed_expiry_days int32
    && ltb p.uses_total int32
    && between 1 100 p.device_limit
    && between 1 100 p.concurrent_limit
    && leb p.offline_grace 604800
    && between 60 86400 p.lease_ttl
    && between 10 3600 p.heartbeat_sec
    && ltb p.rebind_cooldown_h int32
    && ltb p.monthly_rebind int32

abbrev code_rune : ℕ → Bool
code_rune c = between b'a' b'z' c || between b'0' b'9' c || c == b'_' || c == b'-'

-- `code ~ '^[a-z0-9_-]{2,64}$'`
unfoldable pub is_plan_code : Text → Bool
is_plan_code s = between 2 64 (length s) && all_of code_rune s

-- `CreatePlan`: the row is active, with the UUID that the database draws.
unfoldable pub create_plan_row : Plan → Tx Plan
unfolding plan_fits is_plan_code
create_plan_row p db =
    if not (plan_fits p && is_plan_code p.code)
    then (err out_of_range, db)
    else if is_some (find (λ (o : Plan). o.id) p.id db.plans)
        || is_some (first (λ (o : Plan). text_eq o.code p.code) db.plans)
    then (err unique_violation, db)
    else if is_some (find (λ (o : Product). o.id) p.product_id db.products)
    then (
      ok (record p { is_active = true }),
      record db { plans = db.plans ++ record p { is_active = true } ∷ [] },
    )
    else (err foreign_key_violation, db)

-- `UPDATE plans SET f WHERE id=$1`, with `ErrNoRows`
abbrev change_plan : ℕ → (Plan → Plan) → Tx (Unit {0})
change_plan id f db =
    if is_some (find (λ (p : Plan). p.id) id db.plans)
    then (ok tt, record db { plans = update (λ (p : Plan). p.id) id (λ p. true) f db.plans })
    else (err no_rows, db)

-- `SetPlanStatus`
unfoldable pub set_plan_status : ℕ → Bool → Tx (Unit {0})
set_plan_status id active = change_plan id (λ p. record p { is_active = active })

-- the columns that `UpdatePlan` writes
abbrev pub with_terms : Plan → Plan → Plan
with_terms p old = record old {
  duration_days = p.duration_days;
  fixed_expiry_days = p.fixed_expiry_days;
  uses_total = p.uses_total;
  device_limit = p.device_limit;
  concurrent_limit = p.concurrent_limit;
  features = p.features;
  offline_grace = p.offline_grace;
  lease_ttl = p.lease_ttl;
  heartbeat_sec = p.heartbeat_sec;
  rebind_cooldown_h = p.rebind_cooldown_h;
  monthly_rebind = p.monthly_rebind;
  min_client_ver = p.min_client_ver;
  price_cents = p.price_cents;
}

-- `UpdatePlan`
unfoldable pub update_plan_row : Plan → Tx (Unit {0})
unfolding plan_fits
update_plan_row p db =
    if plan_fits p then change_plan p.id (with_terms p) db else (err out_of_range, db)

abbrev pub licensed_by : ℕ → License → Bool
licensed_by plan l = l.plan_id == plan

abbrev pub raise_policy : License → License
raise_policy l = record l { policy_version = suc l.policy_version }

-- `TouchLicensesPolicy`
unfoldable pub touch_licenses_policy : ℕ → Tx (Unit {0})
touch_licenses_policy plan db =
    (ok tt, record db { licenses = update_where (licensed_by plan) raise_policy db.licenses })

-- `CountPlanLicenses`
abbrev pub count_plan_licenses : ℕ → Tx ℕ
count_plan_licenses plan = gets (λ db. count (licensed_by plan) db.licenses)

abbrev pub card_of_plan : ℕ → Card → Bool
card_of_plan plan c = c.plan_id == plan

abbrev pub fresh_of_plan : ℕ → Card → Bool
fresh_of_plan plan c = c.plan_id == plan && card_is c.status CardStatus.unused

-- `CountPlanLiveCards`
abbrev pub count_plan_live_cards : ℕ → Tx ℕ
count_plan_live_cards plan = gets (λ db.
    count (λ (c : Card). c.plan_id == plan && not (card_is c.status CardStatus.unused)) db.cards)

-- whether a licence, an activation or a renewal refers to the card
abbrev pub card_in_use : Db → Card → Bool
card_in_use db c =
    exists (λ (l : License). l.origin_card_id == c.id) db.licenses
    || exists (λ (a : Activation). a.card_id == c.id) db.activations
    || exists (λ (r : Renewal). r.card_id == c.id) db.renewals

-- `VoidAndDeleteUnusedCards`
unfoldable pub void_and_delete_unused_cards : ℕ → Tx (Unit {0})
void_and_delete_unused_cards plan db =
    if exists (λ c. fresh_of_plan plan c && card_in_use db c) db.cards
    then (err foreign_key_violation, db)
    else (ok tt, record db { cards = delete (fresh_of_plan plan) db.cards })

abbrev pub batch_of_plan : ℕ → CardBatch → Bool
batch_of_plan plan b = b.plan_id == plan

-- `DeleteBatchesByPlan`; cards refer to their batches.
unfoldable pub delete_batches_by_plan : ℕ → Tx (Unit {0})
delete_batches_by_plan plan db =
    if exists
      (λ (b : CardBatch).
        batch_of_plan plan b && exists (λ (c : Card). c.batch_id == b.id) db.cards)
      db.batches
    then (err foreign_key_violation, db)
    else (ok tt, record db { batches = delete (batch_of_plan plan) db.batches })

-- whether a batch, a card or a licence refers to the plan
abbrev pub plan_in_use : ℕ → Db → Bool
plan_in_use plan db =
    exists (batch_of_plan plan) db.batches
    || exists (card_of_plan plan) db.cards
    || exists (licensed_by plan) db.licenses

-- `DeletePlan`
unfoldable pub delete_plan_row : ℕ → Tx (Unit {0})
delete_plan_row plan db =
    if not (is_some (find (λ (p : Plan). p.id) plan db.plans))
    then (err no_rows, db)
    else if plan_in_use plan db
    then (err foreign_key_violation, db)
    else (ok tt, record db { plans = delete (λ (p : Plan). p.id == plan) db.plans })
