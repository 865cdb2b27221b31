-- ===== src/Activation/Fresh.antt =====
-- The first activation of a card (`case "unused"` of `Activate` in
-- apps/license-api/internal/service/service.go).
use vertify_license_platform.Prelude.{
  ℕ, ◌-◌, ◌<◌, ◌≡◌, refl, ap, ◌∙◌, Bool, true, false, ◌&&◌, ◌||◌, Option, none, some, [], ◌∷◌, ◌++◌,
  ◌==◌, if◌then◌else◌, inl, inr, Bool-cases, arith,
}
use vertify_license_platform.Domain.{CardStatus, card_is, Result, ok, is_ok}
use vertify_license_platform.Store.Table.{find, first, exists, find-update, find-append}
use vertify_license_platform.Store.Rows.{Plan, Product, Card, License, Device, Db}
use vertify_license_platform.Store.Tx.{with_tx, with_tx-done}
use vertify_license_platform.Store.Licenses.{
  create_license, consume_license_use, has_uses, one_less,
}
use vertify_license_platform.Store.Cards.{
  by_lookup, get_card_by_lookup, set_card_status, activated_status, set_card_activated,
}
use vertify_license_platform.Store.Devices.{create_device, same_machine, active_with_pub}
use vertify_license_platform.Activation.{
  Activating, build_result, fresh_license, bound_device, fresh_uses, take_first_use,
  activate_unused, is_uses, fixed_over, activate_on, activate_card, activate_body,
}
use vertify_license_platform.Claims.{is_license_card}

-- `CreateLicense` with a free key adds the row, and leaves the rest.
create_license_lem :
    (l : License) (db : Db)
    → find (λ (m : License). m.id) l.id db.licenses ≡ none
    → create_license l db ≡ (ok l, record db { licenses = db.licenses ++ l ∷ [] })
unfolding create_license
create_license_lem l db free = rw (free, create_license)

create_device_lem :
    (d : Device) (db : Db)
    → find (λ (e : Device). e.id) d.id db.devices ≡ none
    → exists (same_machine d.license_id d.fingerprint_hash) db.devices ≡ false
    → exists (active_with_pub d.device_pub) db.devices ≡ false
    → create_device d db ≡ (ok d, record db { devices = db.devices ++ d ∷ [] })
unfolding create_device
create_device_lem d db free machine key = rw (free, machine, key, create_device)

abbrev one_fewer : Plan → Option ℕ
one_fewer plan = if is_uses plan.kind then some (plan.uses_total - 1) else none

-- whether the first binding takes the last use
abbrev pub spends : Plan → Bool
spends plan = is_uses plan.kind && plan.uses_total - 1 == 0

-- the licence as the first binding leaves it
abbrev pub bound_license : Activating → Plan → Card → License
bound_license a plan card = record (fresh_license a plan card) {
  uses_left =
      if is_uses plan.kind
      then some (plan.uses_total - 1)
      else (fresh_license a plan card).uses_left;
}

abbrev with_license : Db → License → Db
with_license db l = record db { licenses = db.licenses ++ l ∷ [] }

consume_new :
    (l : License) (db : Db) (n : ℕ)
    → find (λ (m : License). m.id) l.id db.licenses ≡ none
    → l.uses_left ≡ some n
    → 0 < n
    → let (r, db') = consume_license_use l.id (with_license db l) in
      (r ≡ ok (n - 1))
      × (find (λ (m : License). m.id) l.id db'.licenses
          ≡ some (record l { uses_left = some (n - 1) }))
      × (db'.cards ≡ db.cards)
      × (db'.devices ≡ db.devices)
unfolding consume_license_use
consume_new l db n free uses enough = (
  ground (arith, find-append (λ (m : License). m.id) l.id db.licenses l),
  ground (
    arith,
    find-append (λ (m : License). m.id) l.id db.licenses l,
    find-update (λ (m : License). m.id) l.id has_uses
        (λ m. record m { uses_left = one_less m.uses_left }) l.id (db.licenses ++ l ∷ [])
        (λ m. refl),
  ),
  refl,
  refl,
)

set_status_lem :
    (id : ℕ) (s : CardStatus) (card : Card) (db : Db)
    → find (λ (c : Card). c.id) id db.cards ≡ some card
    → let (r, db') = set_card_status id s db in
      (r ≡ ok tt)
      × (find (λ (c : Card). c.id) id db'.cards ≡ some (record card { status = s }))
      × (db'.licenses ≡ db.licenses)
      × (db'.devices ≡ db.devices)
unfolding set_card_status
set_status_lem id s card db there = (
  ground arith,
  ground (
    arith,
    find-update (λ (c : Card). c.id) id (λ c. true) (λ c. record c { status = s }) id db.cards
        (λ c. refl),
  ),
  refl,
  refl,
)

-- The licence is in the table, the card is spent or as it was, and no device has changed.
record Taken (a : Activating) (plan : Plan) (card : Card) (db db' : Db) (r : Result License)
    : Type 0 where
  result : r ≡ ok (bound_license a plan card)
  license :
      find (λ (m : License). m.id) a.new_license db'.licenses ≡ some (bound_license a plan card)
  card_row :
      find (λ (c : Card). c.id) card.id db'.cards
      ≡ some (record card { status = if spends plan then CardStatus.depleted else card.status })
  devices : db'.devices ≡ db.devices

take_first_use_lem :
    (a : Activating) (plan : Plan) (card : Card) (db : Db)
    → find (λ (m : License). m.id) a.new_license db.licenses ≡ none
    → find (λ (c : Card). c.id) card.id db.cards ≡ some card
    → (is_uses plan.kind ≡ true → 0 < plan.uses_total)
    → let (r, db') =
        take_first_use plan
          (fresh_license a plan card)
          card
          (with_license db (fresh_license a plan card)) in
      Taken a plan card db db' r
unfolding take_first_use fresh_license fresh_uses
take_first_use_lem a plan card db free there enough = elim (Bool-cases (is_uses plan.kind)) [
  | inl counted ↦
      let l = fresh_license a plan card in
      let uses : l.uses_left ≡ some plan.uses_total = ground arith in
      let step = consume_new l db plan.uses_total free uses (enough counted) in
      let db₁ = (consume_license_use l.id (with_license db l)).1 in
      let spent =
        set_status_lem card.id CardStatus.depleted card db₁
          (ap (find (λ (c : Card). c.id) card.id) step.2 ∙ there) in
      record {
        result = ground (arith, step.0, spent.0);
        license = ground (arith, step.0, step.1, spent.0, spent.2);
        card_row = ground (arith, step.0, step.2, spent.0, spent.1);
        devices = ground (arith, step.0, step.3, spent.0, spent.3);
      }
  | inr plain ↦ record {
    result = ground arith;
    license = ground (
      arith,
      find-append (λ (m : License). m.id) a.new_license db.licenses (fresh_license a plan card),
    );
    card_row = ground arith;
    devices = ground arith;
  }
]

-- The new machine and its key are free: the device's ID, the machine on the new licence, and the
-- key among the active devices.
pub record IsFresh (a : Activating) (db : Db) : Type 0 where
  pub license_free : find (λ (m : License). m.id) a.new_license db.licenses ≡ none
  pub device_free : find (λ (e : Device). e.id) a.new_device db.devices ≡ none
  pub machine_free : exists (same_machine a.new_license a.fp_hash) db.devices ≡ false
  pub key_free : exists (active_with_pub a.device_pub) db.devices ≡ false

-- the case of an unused card
unused_activated :
    (a : Activating) (card : Card) (plan : Plan) (prod : Product) (db : Db)
    → card.status ≡ CardStatus.unused
    → is_license_card card.kind ≡ true
    → fixed_over a.now plan card ≡ false
    → (is_uses plan.kind ≡ true → 0 < plan.uses_total)
    → find (λ (c : Card). c.id) card.id db.cards ≡ some card
    → IsFresh a db
    → let (r, db') = activate_unused a card plan prod db in
      (r
        ≡ ok (
            build_result a.now
              (bound_license a plan card)
              (bound_device a a.new_license)
              plan
              prod
              false))
      × (find (λ (m : License). m.id) a.new_license db'.licenses ≡ some (bound_license a plan card))
      × (find (λ (e : Device). e.id) a.new_device db'.devices ≡ some (bound_device a a.new_license))
      × (find (λ (c : Card). c.id) card.id db'.cards
          ≡ some (record card {
            status = if spends plan then CardStatus.depleted else CardStatus.active;
            license_id = some a.new_license;
            activated_at = some a.now;
          }))
unfolding activate_unused set_card_activated fresh_license bound_device
unused_activated a card plan prod db unused kind term enough there fresh =
    let l = fresh_license a plan card in
    let d = bound_device a a.new_license in
    let made = create_license_lem l db fresh.license_free in
    let taken = take_first_use_lem a plan card db fresh.license_free there enough in
    let db₂ = (take_first_use plan l card (with_license db l)).1 in
    let bound =
      create_device_lem d db₂
        (ap (find (λ (e : Device). e.id) a.new_device) taken.devices ∙ fresh.device_free)
        (ap (exists (same_machine a.new_license a.fp_hash)) taken.devices ∙ fresh.machine_free)
        (ap (exists (active_with_pub a.device_pub)) taken.devices ∙ fresh.key_free) in
    (
      ground (arith, made, taken.result, bound),
      ground (arith, made, taken.result, bound, taken.license),
      ground (
        arith,
        made,
        taken.result,
        bound,
        taken.devices,
        fresh.device_free,
        find-append (λ (e : Device). e.id) a.new_device db₂.devices d,
      ),
      ground (
        arith,
        made,
        taken.result,
        bound,
        taken.card_row,
        find-update (λ (c : Card). c.id) card.id
            (λ c. card_is c.status CardStatus.unused || card_is c.status CardStatus.depleted)
            (λ c. record c {
              status = activated_status c.status;
              license_id = some a.new_license;
              activated_at = some a.now;
            })
            card.id db₂.cards (λ c. refl),
      ),
    )

-- An unused licence card, found by its code, is activated if its product and plan are on sale, its
-- plan is not over, and counts at least one use if it counts them, and if the UUIDs that the database
-- draws, the machine on the new licence and the key of the device among the active ones are all free.
-- Then there is a new licence with the plan's term and uses, of which the first binding has taken one,
-- and its first device; and the card is linked to the licence, active or, where that use was the
-- last, depleted.
pub first_activation :
    (a : Activating) (card : Card) (plan : Plan) (prod : Product) (db : Db)
    → first (by_lookup a.lookup) db.cards ≡ some card
    → find (λ (c : Card). c.id) card.id db.cards ≡ some card
    → find (λ (p : Plan). p.id) card.plan_id db.plans ≡ some plan
    → find (λ (p : Product). p.id) card.product_id db.products ≡ some prod
    → plan.is_active ≡ true
    → prod.is_active ≡ true
    → card.status ≡ CardStatus.unused
    → is_license_card card.kind ≡ true
    → fixed_over a.now plan card ≡ false
    → (is_uses plan.kind ≡ true → 0 < plan.uses_total)
    → IsFresh a db
    → let (r, db') = with_tx (activate_body a) db in
      (r
        ≡ ok (
            build_result a.now
              (bound_license a plan card)
              (bound_device a a.new_license)
              plan
              prod
              false))
      × (find (λ (m : License). m.id) a.new_license db'.licenses ≡ some (bound_license a plan card))
      × (find (λ (e : Device). e.id) a.new_device db'.devices ≡ some (bound_device a a.new_license))
      × (find (λ (c : Card). c.id) card.id db'.cards
          ≡ some (record card {
            status = if spends plan then CardStatus.depleted else CardStatus.active;
            license_id = some a.new_license;
            activated_at = some a.now;
          }))
unfolding activate_body activate_card activate_on get_card_by_lookup
first_activation a card plan prod db mine there plan_row prod_row sold on_sale unused kind term
      enough fresh =
    let done = unused_activated a card plan prod db unused kind term enough there fresh in
    let go : activate_body a db ≡ activate_unused a card plan prod db =
      ground (arith, mine, plan_row, prod_row, sold, on_sale, unused) in
    let kept : with_tx (activate_body a) db ≡ activate_unused a card plan prod db =
      with_tx-done (activate_body a) db (ap (λ x. is_ok x.0) go ∙ ap is_ok done.0) ∙ go in
    (
      ap (λ x. x.0) kept ∙ done.0,
      ap (λ x. find (λ (m : License). m.id) a.new_license x.1.licenses) kept ∙ done.1,
      ap (λ x. find (λ (e : Device). e.id) a.new_device x.1.devices) kept ∙ done.2,
      ap (λ x. find (λ (c : Card). c.id) card.id x.1.cards) kept ∙ done.3,
    )
