-- ===== src/Http/Commands.antt =====
-- The requests of the administration API that write, as the router and `decodeJSON` give them to the
-- handlers of apps/license-api/internal/httpapi/admin.go and adminops.go.
use vertify_license_platform.Prelude.{ℕ, Bool, Option, List, Text}
use vertify_license_platform.Domain.{AdminRole}
use vertify_license_platform.Store.Rows.{Plan}
use vertify_license_platform.Admin.{Action}
use vertify_license_platform.Billing.{CreateBatchRequest}
use vertify_license_platform.Billing.Import.{ImportCardRequest}
use vertify_license_platform.Http.Routes.{Route}
use vertify_license_platform.Http.Gate.{Request}

-- the body of a bulk action; of the reason only whether it is given counts
pub record BulkRequest : Type 0 where
  pub ids : List ℕ
  pub action : Action
  pub has_reason : Bool

-- the body of `handleSetAgentAccount`
pub record AccountRequest : Type 0 where
  pub admin_id : Option ℕ
  pub new_username : Text
  pub new_password : Text
  pub salt : ℕ

-- a new administrator, with its UUID and the draw of its salt
pub record AdminRequest : Type 0 where
  pub id : ℕ
  pub username : Text
  pub password : Text
  pub role : AdminRole
  pub agent_id : Option ℕ
  pub salt : ℕ

-- a new agent and its account
pub record AgentRequest : Type 0 where
  pub agent : ℕ
  pub parent : Option ℕ
  pub id : ℕ
  pub username : Text
  pub password : Text
  pub salt : ℕ

-- A request that writes, of those whose handlers are modelled: the row that its path names, and its
-- decoded body.
pub data Command : Type 0 where
  card_action license_action : ℕ → Option Action → Command
  bulk_card_action : Option BulkRequest → Command
  set_card_note : ℕ → Option Text → Command
  extend_license : ℕ → Option ℕ → Command
  unbind_device : ℕ → Command
  create_batch : Option CreateBatchRequest → Command
  import_cards : Option ImportCardRequest → Command
  create_plan : Option Plan → Command
  update_plan : ℕ → Option Plan → Command
  delete_plan : ℕ → Command
  plan_status agent_status admin_status : ℕ → Option Bool → Command
  create_agent : Option AgentRequest → Command
  set_agent_products : ℕ → Option (Option ℕ × Bool) → Command
  set_agent_account : ℕ → Option AccountRequest → Command
  create_admin : Option AdminRequest → Command

abbrev pub route_of : Command → Route
route_of (Command.card_action id b) = Route.card_action
route_of (Command.license_action id b) = Route.license_action
route_of (Command.bulk_card_action b) = Route.bulk_card_action
route_of (Command.set_card_note id b) = Route.set_card_note
route_of (Command.extend_license id b) = Route.extend_license
route_of (Command.unbind_device id) = Route.unbind_device
route_of (Command.create_batch b) = Route.create_batch
route_of (Command.import_cards b) = Route.import_cards
route_of (Command.create_plan b) = Route.create_plan
route_of (Command.update_plan id b) = Route.update_plan
route_of (Command.delete_plan id) = Route.delete_plan
route_of (Command.plan_status id b) = Route.plan_status
route_of (Command.agent_status id b) = Route.agent_status
route_of (Command.admin_status id b) = Route.admin_status
route_of (Command.create_agent b) = Route.create_agent
route_of (Command.set_agent_products id b) = Route.set_agent_products
route_of (Command.set_agent_account id b) = Route.set_agent_account
route_of (Command.create_admin b) = Route.create_admin

-- the headers of a request, the text of the row's UUID, and its time
pub record Headers : Type 0 where
  pub id : Text
  pub cookie : Option Text
  pub csrf_header : Text
  pub now : ℕ

abbrev pub request_of : Headers → Command → Request
request_of h cmd = record {
  route = route_of cmd;
  id = h.id;
  cookie = h.cookie;
  csrf_header = h.csrf_header;
  now = h.now;
}
