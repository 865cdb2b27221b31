-- ===== src/Http/Routes.antt =====
-- The routes of `AdminRouter` that need a session (apps/license-api/internal/httpapi/admin.go), one
-- constructor per registration. Login and logout stand outside the group.
use vertify_license_platform.Prelude.{Bool, true, false, Option, none, some, ◌++◌, Text, codes}
use vertify_license_platform.Domain.{
  Permission, products_read, products_write, cards_read, cards_export, cards_manage, licenses_read,
  licenses_manage, devices_manage, admins_manage, agents_manage, audit_read, risk_manage,
  stats_read, users_manage,
}

pub data Method : Type 0 where
  get post put delete : Method

pub data Route : Type 0 where
  me mfa_setup mfa_enable mfa_disable : Route
  password_change list_products create_product product_status : Route
  list_plans create_plan plan_detail update_plan : Route
  delete_plan plan_status list_batches create_batch : Route
  import_cards list_cards card_action set_card_note : Route
  reveal_card list_licenses license_detail license_action : Route
  license_note extend_license list_devices unbind_device : Route
  list_agents create_agent agent_products set_agent_products : Route
  agent_account set_agent_account agent_status agent_balance : Route
  agent_transactions list_admins create_admin admin_status : Route
  list_audit list_risk list_users user_detail : Route
  user_action bulk_card_action list_messages create_message : Route
  set_message_enabled delete_message list_versions create_version : Route
  delete_version list_rate_limits set_rate_limit list_bans : Route
  create_ban delete_ban keys stats : Route

-- the method that a route is registered for
unfoldable pub method : Route → Method
method mfa_setup = post
method mfa_enable = post
method mfa_disable = post
method password_change = post
method create_product = post
method product_status = post
method create_plan = post
method plan_status = post
method create_batch = post
method import_cards = post
method card_action = post
method set_card_note = post
method reveal_card = post
method license_action = post
method license_note = post
method extend_license = post
method unbind_device = post
method create_agent = post
method set_agent_products = post
method set_agent_account = post
method agent_status = post
method agent_balance = post
method create_admin = post
method admin_status = post
method user_action = post
method bulk_card_action = post
method create_message = post
method set_message_enabled = post
method create_version = post
method set_rate_limit = post
method create_ban = post
method delete_ban = post
method update_plan = put
method delete_plan = delete
method delete_message = delete
method delete_version = delete
method _ = get

-- the permission that `requirePerm` asks, if it stands before the handler
unfoldable pub permission : Route → Option Permission
permission create_product = some products_write
permission product_status = some products_write
permission create_plan = some products_write
permission update_plan = some products_write
permission delete_plan = some products_write
permission plan_status = some products_write
permission list_batches = some cards_read
permission create_batch = some cards_manage
permission import_cards = some cards_manage
permission list_cards = some cards_read
permission card_action = some cards_manage
permission set_card_note = some cards_manage
permission reveal_card = some cards_export
permission list_licenses = some licenses_read
permission license_detail = some licenses_read
permission license_action = some licenses_manage
permission license_note = some licenses_manage
permission extend_license = some licenses_manage
permission list_devices = some licenses_read
permission unbind_device = some devices_manage
permission list_agents = some agents_manage
permission create_agent = some agents_manage
permission agent_products = some agents_manage
permission set_agent_products = some agents_manage
permission agent_account = some agents_manage
permission set_agent_account = some agents_manage
permission agent_status = some agents_manage
permission agent_balance = some agents_manage
permission agent_transactions = some agents_manage
permission list_admins = some admins_manage
permission create_admin = some admins_manage
permission admin_status = some admins_manage
permission list_audit = some audit_read
permission list_risk = some risk_manage
permission list_users = some users_manage
permission user_detail = some users_manage
permission user_action = some users_manage
permission bulk_card_action = some cards_manage
permission list_messages = some products_read
permission create_message = some products_write
permission set_message_enabled = some products_write
permission delete_message = some products_write
permission list_versions = some products_read
permission create_version = some products_write
permission delete_version = some products_write
permission list_rate_limits = some risk_manage
permission set_rate_limit = some risk_manage
permission list_bans = some risk_manage
permission create_ban = some risk_manage
permission delete_ban = some risk_manage
permission keys = some stats_read
permission stats = some stats_read
permission _ = none

-- the path, with what stands for `{id}` in it
unfoldable pub path : Route → Text → Text
path me id = codes "/admin/v1/auth/me"
path mfa_setup id = codes "/admin/v1/auth/mfa/setup"
path mfa_enable id = codes "/admin/v1/auth/mfa/enable"
path mfa_disable id = codes "/admin/v1/auth/mfa/disable"
path password_change id = codes "/admin/v1/auth/password"
path list_products id = codes "/admin/v1/products"
path create_product id = codes "/admin/v1/products"
path product_status id = codes "/admin/v1/products/" ++ id ++ codes "/status"
path list_plans id = codes "/admin/v1/plans"
path create_plan id = codes "/admin/v1/plans"
path plan_detail id = codes "/admin/v1/plans/" ++ id
path update_plan id = codes "/admin/v1/plans/" ++ id
path delete_plan id = codes "/admin/v1/plans/" ++ id
path plan_status id = codes "/admin/v1/plans/" ++ id ++ codes "/status"
path list_batches id = codes "/admin/v1/batches"
path create_batch id = codes "/admin/v1/batches"
path import_cards id = codes "/admin/v1/batches/import"
path list_cards id = codes "/admin/v1/cards"
path card_action id = codes "/admin/v1/cards/" ++ id ++ codes "/action"
path set_card_note id = codes "/admin/v1/cards/" ++ id ++ codes "/note"
path reveal_card id = codes "/admin/v1/cards/" ++ id ++ codes "/reveal"
path list_licenses id = codes "/admin/v1/licenses"
path license_detail id = codes "/admin/v1/licenses/" ++ id
path license_action id = codes "/admin/v1/licenses/" ++ id ++ codes "/action"
path license_note id = codes "/admin/v1/licenses/" ++ id ++ codes "/note"
path extend_license id = codes "/admin/v1/licenses/" ++ id ++ codes "/extend"
path list_devices id = codes "/admin/v1/devices"
path unbind_device id = codes "/admin/v1/devices/" ++ id ++ codes "/unbind"
path list_agents id = codes "/admin/v1/agents"
path create_agent id = codes "/admin/v1/agents"
path agent_products id = codes "/admin/v1/agents/" ++ id ++ codes "/products"
path set_agent_products id = codes "/admin/v1/agents/" ++ id ++ codes "/products"
path agent_account id = codes "/admin/v1/agents/" ++ id ++ codes "/account"
path set_agent_account id = codes "/admin/v1/agents/" ++ id ++ codes "/account"
path agent_status id = codes "/admin/v1/agents/" ++ id ++ codes "/status"
path agent_balance id = codes "/admin/v1/agents/" ++ id ++ codes "/balance"
path agent_transactions id = codes "/admin/v1/agents/" ++ id ++ codes "/transactions"
path list_admins id = codes "/admin/v1/admins"
path create_admin id = codes "/admin/v1/admins"
path admin_status id = codes "/admin/v1/admins/" ++ id ++ codes "/status"
path list_audit id = codes "/admin/v1/audit"
path list_risk id = codes "/admin/v1/risk"
path list_users id = codes "/admin/v1/users"
path user_detail id = codes "/admin/v1/users/" ++ id
path user_action id = codes "/admin/v1/users/" ++ id ++ codes "/action"
path bulk_card_action id = codes "/admin/v1/cards/bulk-action"
path list_messages id = codes "/admin/v1/messages"
path create_message id = codes "/admin/v1/messages"
path set_message_enabled id = codes "/admin/v1/messages/" ++ id ++ codes "/enabled"
path delete_message id = codes "/admin/v1/messages/" ++ id
path list_versions id = codes "/admin/v1/versions"
path create_version id = codes "/admin/v1/versions"
path delete_version id = codes "/admin/v1/versions/" ++ id
path list_rate_limits id = codes "/admin/v1/ratelimits"
path set_rate_limit id = codes "/admin/v1/ratelimits"
path list_bans id = codes "/admin/v1/bans"
path create_ban id = codes "/admin/v1/bans"
path delete_ban id = codes "/admin/v1/bans/delete"
path keys id = codes "/admin/v1/keys"
path stats id = codes "/admin/v1/stats"

-- the routes under `/auth`
abbrev pub is_auth : Route → Bool
is_auth me = true
is_auth mfa_setup = true
is_auth mfa_enable = true
is_auth mfa_disable = true
is_auth password_change = true
is_auth _ = false
