-- ===== src/Http/Handlers.antt =====
-- The handlers of the administration API that write, of apps/license-api/internal/httpapi/admin.go
-- and adminops.go, and the request as a whole, from its cookie to its answer.
use vertify_license_platform.Prelude.{
  ℕ, Bool, true, false, ◌&&◌, ◌||◌, not, Option, none, some, List, [], ◌∷◌, ltb, ◌==◌, length,
  is_empty, Text, codes, trim_space, if◌then◌else◌,
}
use vertify_license_platform.Passwords.{Passwords}
use vertify_license_platform.Store.Accounts.{Admin}
use vertify_license_platform.Store.Rows.{Db}
use vertify_license_platform.SignIn.{AdminContext}
use vertify_license_platform.Admin.{
  Actor, is_agent, Action, freeze, revoke, license_action, card_action, set_card_note,
  admin_unbind_device, admin_extend_license,
}
use vertify_license_platform.Billing.{CreateBatchRequest, create_card_batch}
use vertify_license_platform.Billing.Import.{import_cards}
use vertify_license_platform.Plans.{create_plan, update_plan, delete_plan, plan_status}
use vertify_license_platform.Staff.{
  staff_status, agent_status, set_agent_product_grant, create_staff, hire_agent,
  update_agent_account,
}
use vertify_license_platform.Http.{answer, success, Handler, refuse, call, bad_request, with_body}
use vertify_license_platform.Http.Commands.{
  BulkRequest, AccountRequest, Command, Headers, request_of,
}
use vertify_license_platform.Http.Gate.{refused, passed, gate}

abbrev pub actor_of : Admin → Actor
actor_of a = record { role = a.role; agent_id = a.agent_id }

-- `req.Action == "freeze" || req.Action == "revoke"`
abbrev pub needs_reason : Action → Bool
needs_reason freeze = true
needs_reason revoke = true
needs_reason _ = false

-- the loop of `handleBulkCardAction`: an error ends that card's action only
unfoldable pub act_on_all : Actor → Action → List ℕ → Db → Db
unfolding card_action
act_on_all ac action [] db = db
act_on_all ac action (id ∷ ids) db = act_on_all ac action ids (card_action ac action id db).1

-- `handleBulkCardAction`; the answer's counts are left out.
unfoldable pub handle_bulk_card_action : Admin → Option BulkRequest → Handler
unfolding act_on_all
handle_bulk_card_action a body = with_body body (λ req db.
    if length req.ids == 0 || ltb 100 (length req.ids)
    then (bad_request, db)
    else if not req.has_reason && needs_reason req.action
    then (bad_request, db)
    else (success 200, act_on_all (actor_of a) req.action req.ids db))

-- The random draws of the services, as in the services.
pub record Sources : Type 0 where
  pub pw : Passwords
  pub digest : Text → Text
  pub verify_totp : Text → Text → ℕ → Bool
  pub ttl : ℕ
  pub card_lookup : Text → Text
  pub secret : Text → Bool
  pub draw : ℕ → Option ℕ
  pub fuel : ℕ

module _ (s : Sources) where
  open s use {pw, digest, verify_totp, ttl, card_lookup, secret, draw, fuel}

  -- `handleCreateBatch`: an agent's batch is its own
  unfoldable pub handle_create_batch : ℕ → Admin → Option CreateBatchRequest → Handler
  unfolding create_card_batch
  handle_create_batch now a body = with_body body (λ req.
      if is_agent a.role
      then elim a.agent_id [
        | none ↦ refuse (answer 403 (codes "FORBIDDEN"))
        | some own ↦ call 201 (
            create_card_batch card_lookup secret draw fuel now (actor_of a)
              (record req { agent_id = some own }))
      ]
      else call 201 (create_card_batch card_lookup secret draw fuel now (actor_of a) req))

  -- the writing half of `handleAgentAccount`
  unfoldable pub handle_agent_account : ℕ → Admin → ℕ → Option AccountRequest → Handler
  unfolding update_agent_account
  handle_agent_account now a agent body = with_body body (λ req. elim req.admin_id [
    | none ↦ refuse bad_request
    | some id ↦
        if is_empty req.new_username && is_empty req.new_password
        then refuse bad_request
        else call 200 (
            update_agent_account pw now a agent id (trim_space req.new_username) req.new_password
              req.salt)
  ])

  -- the writing half of `handleAgentProducts`
  unfoldable pub handle_agent_products : Admin → ℕ → Option (Option ℕ × Bool) → Handler
  unfolding set_agent_product_grant
  handle_agent_products a agent body = with_body body (λ (product, granted). elim product [
    | none ↦ refuse bad_request
    | some id ↦ call 200 (set_agent_product_grant a agent id granted)
  ])

  -- the handler of a command
  unfoldable pub handle : ℕ → AdminContext → Command → Handler
  unfolding handle_bulk_card_action handle_create_batch handle_agent_account handle_agent_products
  handle now ac (Command.card_action id b) =
      with_body b (λ action. call 200 (card_action (actor_of ac.admin) action id))
  handle now ac (Command.license_action id b) =
      with_body b (λ action. call 200 (license_action (actor_of ac.admin) action id))
  handle now ac (Command.bulk_card_action b) = handle_bulk_card_action ac.admin b
  handle now ac (Command.set_card_note id b) =
      with_body b (λ note. call 200 (set_card_note (actor_of ac.admin) id note))
  handle now ac (Command.extend_license id b) =
      with_body b (λ days. call 200 (admin_extend_license (actor_of ac.admin) now id days))
  handle now ac (Command.unbind_device id) =
      call 200 (admin_unbind_device (actor_of ac.admin) now id)
  handle now ac (Command.create_batch b) = handle_create_batch now ac.admin b
  handle now ac (Command.import_cards b) =
      with_body b (λ req. call 201 (import_cards card_lookup secret now (actor_of ac.admin) req))
  handle now ac (Command.create_plan b) = with_body b (λ p. call 201 (create_plan p))
  handle now ac (Command.update_plan id b) = with_body b (λ p. call 200 (update_plan id p))
  handle now ac (Command.delete_plan id) = call 200 (delete_plan id)
  handle now ac (Command.plan_status id b) = with_body b (λ on. call 200 (plan_status id on))
  handle now ac (Command.agent_status id b) =
      with_body b (λ on. call 200 (agent_status ac.admin id on))
  handle now ac (Command.admin_status id b) =
      with_body b (λ on. call 200 (staff_status now ac.admin id on))
  handle now ac (Command.create_agent b) = with_body b (λ req.
      call 201
        (hire_agent pw ac.admin req.agent req.parent req.id req.username req.password req.salt))
  handle now ac (Command.set_agent_products id b) = handle_agent_products ac.admin id b
  handle now ac (Command.set_agent_account id b) = handle_agent_account now ac.admin id b
  handle now ac (Command.create_admin b) = with_body b (λ req.
      call 201
        (create_staff pw ac.admin req.id req.username req.password req.role req.agent_id req.salt))

  -- a request, from the router on
  unfoldable pub serve : Headers → Command → Handler
  unfolding gate handle
  serve h cmd db = elim (gate pw digest verify_totp ttl (request_of h cmd) db) [
    | refused a ↦ (a, db)
    | passed ac ↦ handle h.now ac cmd db
  ]
