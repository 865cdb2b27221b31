-- ===== src/Http/Isolation.antt =====
-- What an agent's requests leave alone: the cards that are not the agent's.
use vertify_license_platform.Prelude.{
  ℕ, ◌≡◌, refl, sym, ap, ◌∙◌, Bool, true, false, not, Option, none, some, inl, inr, Option-cases,
  Bool-cases, List, [], ◌∷◌, ◌==◌, ==_iff, Text, trim_space, arith,
}
use vertify_license_platform.Domain.{agent, CardStatus, card_is, terminal, Result-cases}
use vertify_license_platform.Store.Table.{find, find-append, find-update, find-key}
use vertify_license_platform.Store.Accounts.{Admin, CardBatch}
use vertify_license_platform.Store.Rows.{Card, Db}
use vertify_license_platform.Store.Tx.{pure}
use vertify_license_platform.Store.Keeps.{Keeps, with_tx-Keeps, bind-Keeps}
use vertify_license_platform.Store.Cards.{
  transition_card_status, transition_card_to_terminal, write_card_note,
}
use vertify_license_platform.Store.Licenses.{transition_license, transition_license_terminal}
use vertify_license_platform.Store.Batches.{insert_card, insert_batch}
use vertify_license_platform.Admin.{
  Actor, is_agent, agent_denied, Action, freeze, unfreeze, revoke, void, other, card_change, follow,
  card_action_tx, card_action, set_card_note,
}
use vertify_license_platform.Billing.{charge, CreateBatchRequest}
use vertify_license_platform.Billing.Import.{import_cards}
use vertify_license_platform.Http.{Handler, call, with_body}
use vertify_license_platform.Http.Routes.{permission}
use vertify_license_platform.Http.Access.{may_use, gate_iff}
use vertify_license_platform.Http.Commands.{BulkRequest, Command, Headers, request_of, route_of}
use vertify_license_platform.Http.Handlers.{
  actor_of, act_on_all, handle_bulk_card_action, Sources, handle_create_batch, handle, serve,
}
use vertify_license_platform.Http.Gate.{passed, gate}
use vertify_license_platform.SignIn.{AdminContext}
use vertify_license_platform.Domain.Roles.{role_has}
use vertify_license_platform.Billing.Ledger.{deducts}
use vertify_license_platform.Billing.Keeps.{create_card_batch-Keeps, import_cards-Keeps}

-- the card is in the table, as it is
abbrev pub Row : ℕ → Card → Db → Type 0
Row k card db = find (λ (c : Card). c.id) k db.cards ≡ some card

-- whether the row that is found is hidden
abbrev denied_to : Actor → Option Card → Bool
denied_to ac none = true
denied_to ac (some c) = agent_denied ac c.agent_id

module _ (k : ℕ) (card : Card) where
  insert_card-Keeps : (c : Card) → Keeps (Row k card) (insert_card c)
  unfolding insert_card
  insert_card-Keeps c db h = ground (arith, h, find-append (λ (c : Card). c.id) k db.cards c)

  insert_batch-Keeps : (b : CardBatch) → Keeps (Row k card) (insert_batch b)
  unfolding insert_batch
  insert_batch-Keeps b db h = ground (arith, h)

  charge-Keeps : (a cost batch : ℕ) → Keeps (Row k card) (charge a cost batch)
  unfolding charge
  charge-Keeps a cost batch db h = elim (deducts a cost db) [
    | inl (e, d) ↦ ground (arith, d, h)
    | inr (_, _, _, d) ↦ ground (arith, d, h)
  ]

  -- another card's transition
  status-Keeps :
      (id : ℕ) (from to : CardStatus)
      → (id == k) ≡ false
      → Keeps (Row k card) (transition_card_status id from to)
  unfolding transition_card_status
  status-Keeps id from to apart db h = ground (
    arith,
    apart,
    h,
    find-update (λ (c : Card). c.id) id (λ c. card_is c.status from) (λ c. record c { status = to })
        k db.cards (λ c. refl),
  )

  terminal-Keeps :
      (id : ℕ) (to : CardStatus)
      → (id == k) ≡ false
      → Keeps (Row k card) (transition_card_to_terminal id to)
  unfolding transition_card_to_terminal
  terminal-Keeps id to apart db h = ground (
    arith,
    apart,
    h,
    find-update (λ (c : Card). c.id) id (λ c. not (terminal c.status))
        (λ c. record c { status = to }) k db.cards (λ c. refl),
  )

  follow-Keeps : (action : Action) (id : ℕ) → Keeps (Row k card) (follow action id)
  unfolding transition_license transition_license_terminal
  follow-Keeps freeze id db h = ground (arith, h)
  follow-Keeps unfreeze id db h = ground (arith, h)
  follow-Keeps revoke id db h = ground (arith, h)
  follow-Keeps void id db h = ground (arith, h)
  follow-Keeps other id db h = h

  transition-Keeps :
      (seen : Card) (from : Option CardStatus) (to : CardStatus)
      → (seen.id == k) ≡ false
      → Keeps (Row k card) (elim from [
        | none ↦ transition_card_to_terminal seen.id to
        | some s ↦ transition_card_status seen.id s to
      ])
  transition-Keeps seen none to apart = terminal-Keeps seen.id to apart
  transition-Keeps seen (some s) to apart = status-Keeps seen.id s to apart

  licence-Keeps :
      (action : Action) (o : Option ℕ)
      → Keeps (Row k card) (elim o [ none ↦ pure tt | some id ↦ follow action id ])
  licence-Keeps action none db h = h
  licence-Keeps action (some id) db h = follow-Keeps action id db h

  -- the transaction on another card
  card_action_tx-Keeps :
      (action : Action) (seen : Card) (from : Option CardStatus) (to : CardStatus)
      → (seen.id == k) ≡ false
      → Keeps (Row k card) (card_action_tx action seen from to)
  unfolding card_action_tx
  card_action_tx-Keeps action seen from to apart =
      bind-Keeps (Row k card)
        (elim from [
          | none ↦ transition_card_to_terminal seen.id to
          | some s ↦ transition_card_status seen.id s to
        ])
        (λ _. elim seen.license_id [ none ↦ pure tt | some id ↦ follow action id ])
        (transition-Keeps seen from to apart) (λ _. licence-Keeps action seen.license_id)

  -- a card that is not hidden is another card
  apart_from :
      (ac : Actor) (id : ℕ) (seen : Card) (db : Db)
      → agent_denied ac card.agent_id ≡ true
      → Row k card db
      → find (λ (c : Card). c.id) id db.cards ≡ some seen
      → agent_denied ac seen.agent_id ≡ false
      → (id == k) ≡ false
  apart_from ac id seen db hidden h e shown = elim (Bool-cases (id == k)) [
    | inr no_key ↦ no_key
    | inl same ↦
        let rows : some seen ≡ some card =
          sym e ∙ ap (λ j. find (λ (c : Card). c.id) j db.cards) ((==_iff id k).0 same) ∙ h in
        let too : denied_to ac (some seen) ≡ true = ap (denied_to ac) rows ∙ hidden in
        absurd (grind (arith, too, shown))
  ]

  -- a note by one from whom the card is hidden
  set_card_note-Keeps :
      (ac : Actor) (id : ℕ) (note : Text)
      → agent_denied ac card.agent_id ≡ true
      → Keeps (Row k card) (set_card_note ac id note)
  unfolding set_card_note write_card_note
  set_card_note-Keeps ac id note hidden db h =
      elim (Option-cases (find (λ (c : Card). c.id) id db.cards)) [
        | inl e ↦ ground (arith, e, h)
        | inr (seen, e) ↦ elim (Bool-cases (agent_denied ac seen.agent_id)) [
          | inl denied ↦ ground (arith, e, denied, h)
          | inr shown ↦ ground (
            arith,
            e,
            shown,
            h,
            apart_from ac id seen db hidden h e shown,
            find-update (λ (c : Card). c.id) id (λ c. true)
                (λ c. record c { note = trim_space note }) k db.cards (λ c. refl),
          )
        ]
      ]

  -- an action by one from whom the card is hidden
  card_action-Keeps :
      (ac : Actor) (action : Action) (id : ℕ)
      → agent_denied ac card.agent_id ≡ true
      → Keeps (Row k card) (card_action ac action id)
  unfolding card_action
  card_action-Keeps ac action id hidden db h =
      elim (Option-cases (find (λ (c : Card). c.id) id db.cards)) [
        | inl e ↦ ground (arith, e, h)
        | inr (seen, e) ↦ elim (Bool-cases (agent_denied ac seen.agent_id)) [
          | inl denied ↦ ground (arith, e, denied, h)
          | inr shown ↦ elim (Result-cases (card_change action seen)) [
            | inr (x, e') ↦ ground (arith, e, shown, e', h)
            | inl ((from, to), e') ↦
                let key = find-key (λ (c : Card). c.id) id db.cards seen e in
                let apart : (seen.id == k) ≡ false =
                  ap (λ j. j == k) key ∙ apart_from ac id seen db hidden h e shown in
                let kept =
                  with_tx-Keeps (Row k card) (card_action_tx action seen from to)
                    (card_action_tx-Keeps action seen from to apart) db h in
                ground (arith, e, shown, e', kept)
          ]
        ]
      ]

  act_on_all-Keeps :
      (ac : Actor) (action : Action) (ids : List ℕ) (db : Db)
      → agent_denied ac card.agent_id ≡ true
      → Row k card db
      → Row k card (act_on_all ac action ids db)
  unfolding act_on_all
  act_on_all-Keeps ac action [] db hidden h = h
  act_on_all-Keeps ac action (id ∷ ids) db hidden h =
      act_on_all-Keeps ac action ids (card_action ac action id db).1 hidden
        (card_action-Keeps ac action id hidden db h)

  abbrev Leaves : Handler → Type 0
  Leaves f = (db : Db) → Row k card db → Row k card (f db).1

  with_body-Leaves :
      {B : Type 0} (b : Option B) (f : B → Handler)
      → ((x : B) → Leaves (f x))
      → Leaves (with_body b f)
  with_body-Leaves none f kept db h = h
  with_body-Leaves (some x) f kept db h = kept x db h

  bulk-Leaves :
      (a : Admin) (b : Option BulkRequest)
      → agent_denied (actor_of a) card.agent_id ≡ true
      → Leaves (handle_bulk_card_action a b)
  unfolding handle_bulk_card_action
  bulk-Leaves a none hidden db h = h
  bulk-Leaves a (some req) hidden db h =
      ground (arith, h, act_on_all-Keeps (actor_of a) req.action req.ids db hidden h)

  module _ (s : Sources) where
    batch-Leaves :
        (now : ℕ) (a : Admin) (b : Option CreateBatchRequest)
        → Leaves (handle_create_batch s now a b)
    unfolding handle_create_batch
    batch-Leaves now a none db h = h
    batch-Leaves now a (some req) db h =
        let kept = λ (q : CreateBatchRequest).
          create_card_batch-Keeps (Row k card) insert_card-Keeps insert_batch-Keeps charge-Keeps
            s.card_lookup s.secret s.draw s.fuel now (actor_of a) q db h in
        elim (Bool-cases (is_agent a.role)) [
          | inr e ↦ ground (arith, e, kept req)
          | inl e ↦ elim (Option-cases a.agent_id) [
            | inl e' ↦ ground (arith, e, e', h)
            | inr (own, e') ↦ ground (arith, e, e', kept (record req { agent_id = some own }))
          ]
        ]

    -- the commands whose permission an agent has
    handle-Leaves :
        (now : ℕ) (ac : AdminContext) (cmd : Command)
        → may_use agent (route_of cmd) ≡ true
        → agent_denied (actor_of ac.admin) card.agent_id ≡ true
        → Leaves (handle s now ac cmd)
    unfolding handle permission role_has
    handle-Leaves now ac (Command.card_action id b) may hidden =
        with_body-Leaves b (λ action. call 200 (card_action (actor_of ac.admin) action id))
          (λ action db h. card_action-Keeps (actor_of ac.admin) action id hidden db h)
    handle-Leaves now ac (Command.set_card_note id b) may hidden =
        with_body-Leaves b (λ note. call 200 (set_card_note (actor_of ac.admin) id note))
          (λ note db h. set_card_note-Keeps (actor_of ac.admin) id note hidden db h)
    handle-Leaves now ac (Command.bulk_card_action b) may hidden = bulk-Leaves ac.admin b hidden
    handle-Leaves now ac (Command.create_batch b) may hidden = batch-Leaves now ac.admin b
    handle-Leaves now ac (Command.import_cards b) may hidden =
        with_body-Leaves b
          (λ req. call 201 (import_cards s.card_lookup s.secret now (actor_of ac.admin) req))
          (λ req db h.
            import_cards-Keeps (Row k card) insert_card-Keeps insert_batch-Keeps charge-Keeps
              s.card_lookup s.secret now (actor_of ac.admin) req db h)
    handle-Leaves now ac _ may hidden = absurd (ground (arith, may))

  -- Whatever request of `Command` an agent sends, with whatever body, and however it is answered: a
  -- card that is not the agent's stays in the table as it is, its note included.
  pub agent_isolated :
      (s : Sources) (h : Headers) (cmd : Command) (ac : AdminContext) (db : Db)
      → gate s.pw s.digest s.verify_totp s.ttl (request_of h cmd) db ≡ passed ac
      → ac.admin.role ≡ agent
      → agent_denied (actor_of ac.admin) card.agent_id ≡ true
      → Row k card db
      → Row k card (serve s h cmd db).1
  unfolding serve
  agent_isolated s h cmd ac db through role hidden row =
      let admitted =
        (gate_iff s.pw s.digest s.verify_totp s.ttl (request_of h cmd) ac db).0 through in
      let may = ap (λ r. may_use r (route_of cmd)) (sym role) ∙ admitted.granted in
      rw (through, serve) (handle-Leaves s h.now ac cmd may hidden db row)
