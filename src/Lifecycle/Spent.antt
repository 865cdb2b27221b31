-- ===== src/Lifecycle/Spent.antt =====
-- A depleted card stays depleted, and no renewal is had for it, whatever is asked of the service.
use vertify_license_platform.Prelude.{
  ℕ, ◌≡◌, ◌∙◌, refl, ap, Bool, true, false, ◌||◌, not, some, inl, inr, List, [], ◌∷◌, Text,
  Option-cases, arith,
}
use vertify_license_platform.Domain.{CardStatus, card_is, terminal, is_ok}
use vertify_license_platform.Store.Table.{first, holds, update}
use vertify_license_platform.Store.Rows.{Card, License, Db}
use vertify_license_platform.Store.Tx.{with_tx-refused}
use vertify_license_platform.Store.Cards.{
  by_lookup, get_card_by_lookup, set_card_status, set_card_activated, activated_status,
  transition_card_status, transition_card_to_terminal,
}
use vertify_license_platform.Store.Licenses.{
  create_license, consume_license_use, extend_license, transition_license,
  transition_license_terminal,
}
use vertify_license_platform.Redeem.{Redeeming, redeemable, redeem, redeem_body}
use vertify_license_platform.Lifecycle.{Request, serve_all}
use vertify_license_platform.Lifecycle.Statements.{AreKept}
use vertify_license_platform.Lifecycle.Serves.{serve_all-Keeps}

-- the card of a code is depleted
abbrev pub is_spent : Text → List Card → Bool
is_spent lookup cards =
    holds (λ (c : Card). card_is c.status CardStatus.depleted) (first (by_lookup lookup) cards)

module _ (lookup : Text) where
  abbrev test : List Card → List License → Bool
  test cards licenses = is_spent lookup cards

  -- an update that leaves codes and depleted cards as they are
  updated :
      (id : ℕ) (p : Card → Bool) (f : Card → Card) (cards : List Card)
      → ((c : Card) → by_lookup lookup (f c) ≡ by_lookup lookup c)
      → ((c : Card)
          → card_is c.status CardStatus.depleted ≡ true
          → p c ≡ true
          → card_is (f c).status CardStatus.depleted ≡ true)
      → is_spent lookup cards ≡ true
      → is_spent lookup (update (λ (c : Card). c.id) id p f cards) ≡ true
  updated id p f [] same left h = h
  updated id p f (c ∷ cards) same left h =
      ground (arith, h, same c, left c, updated id p f cards same left)

  kept : AreKept test
  unfolding set_card_status set_card_activated transition_card_status transition_card_to_terminal
      transition_license transition_license_terminal create_license consume_license_use
      extend_license
  kept = record {
    creates = λ l db h. ground (arith, h);
    consumes = λ id db h. ground (arith, h);
    extends = λ now id days db h. ground (arith, h);
    transitions = λ id from to live db h. h;
    ends = λ id to db h. h;
    depletes = λ id db h.
        updated id (λ c. true) (λ c. record c { status = CardStatus.depleted }) db.cards (λ c. refl)
          (λ c e e'. refl) h;
    activates = λ id license_id at db h.
        updated id (λ c. card_is c.status CardStatus.unused || card_is c.status CardStatus.depleted)
          (λ c. record c {
            status = activated_status c.status;
            license_id = some license_id;
            activated_at = some at;
          })
          db.cards (λ c. refl) (λ c e e'. ground (arith, e)) h;
    changes_card = λ id from to live db h.
        updated id (λ c. card_is c.status from) (λ c. record c { status = to }) db.cards (λ c. refl)
          (λ c e e'. absurd (grind (arith, e, e', live))) h;
    ends_card = λ id to db h.
        updated id (λ c. not (terminal c.status)) (λ c. record c { status = to }) db.cards
          (λ c. refl) (λ c e e'. absurd (grind (arith, e, e'))) h;
  }

-- a renewal with a depleted card fails
pub depleted_refused :
    (q : Redeeming) (db : Db)
    → is_spent q.lookup db.cards ≡ true
    → is_ok (redeem_body q db).0 ≡ false
unfolding redeem_body redeemable get_card_by_lookup
depleted_refused q db spent = elim (Option-cases (first (by_lookup q.lookup) db.cards)) [
  | inl e ↦ ground (arith, e, spent)
  | inr (card, e) ↦ ground (arith, e, spent)
]

-- whatever is served, a renewal with a depleted card then fails and changes nothing
pub spent_refused :
    (q : Redeeming) (qs : List Request) (db : Db)
    → is_spent q.lookup db.cards ≡ true
    → (is_ok (redeem q (serve_all qs db)).0 ≡ false)
      × ((redeem q (serve_all qs db)).1 ≡ serve_all qs db)
unfolding redeem
spent_refused q qs db spent =
    let db' = serve_all qs db in
    let later = serve_all-Keeps (test q.lookup) (kept q.lookup) qs db spent in
    let refused = depleted_refused q db' later in
    let left = with_tx-refused (redeem_body q) db' refused in
    (ap (λ x. is_ok x.0) left ∙ refused, ap (λ x. x.1) left)
