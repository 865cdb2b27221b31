-- ===== src/Staff.antt =====
-- Administrators, agents and what they may sell: `CreateAdmin`, `SetAdminStatus`, `CreateAgent`,
-- `AgentStatus`, `SetAgentProductGrant` and `UpdateAgentAccount` of
-- apps/license-api/internal/service/adminsvc.go. A status is one of the two that the code takes.
pub mod Disabled
use vertify_license_platform.Prelude.{
  ℕ, Bool, true, false, ◌&&◌, ◌||◌, not, Option, none, some, ltb, ◌==◌, points_to, is_empty, Text,
  text_eq, byte_len, if◌then◌else◌,
}
use vertify_license_platform.Domain.{AdminRole, ok, err, bad_argument, card_not_found}
use vertify_license_platform.Passwords.{Passwords}
use vertify_license_platform.Store.Accounts.{Agent, Admin}
use vertify_license_platform.Store.Tx.{Tx, pure, raise, raise_if, or_any, with_tx, ◌>>=◌, ◌>>◌}
use vertify_license_platform.Store.Agents.{
  get_agent, create_agent, set_agent_status, grant_agent_product, revoke_agent_product,
}
use vertify_license_platform.Store.Catalog.{get_product}
use vertify_license_platform.Store.Admins.{
  get_admin, create_admin, set_admin_status, update_admin_username, reset_admin_password,
  revoke_all_sessions,
}
use vertify_license_platform.Admin.{is_agent}

abbrev pub is_superadmin : AdminRole → Bool
is_superadmin AdminRole.superadmin = true
is_superadmin _ = false

abbrev pub new_admin : ℕ → Text → Text → AdminRole → Option ℕ → Admin
new_admin id username password_hash role agent_id = record {
  id = id;
  username = username;
  password_hash = password_hash;
  role = role;
  agent_id = agent_id;
  totp_secret = none;
  mfa_enabled = false;
  is_active = true;
  failed_attempts = 0;
  locked_until = none;
  must_change_password = true;
}

-- `SetAdminStatus`
unfoldable pub staff_status : ℕ → Admin → ℕ → Bool → Tx (Unit {0})
unfolding set_admin_status revoke_all_sessions
staff_status now ac id active = do
  raise_if (not (is_superadmin ac.role)) bad_argument
  raise_if (id == ac.id) bad_argument
  set_admin_status id active
  if active then pure tt else revoke_all_sessions now id

-- an agent may only name itself
abbrev own_agent : Admin → ℕ → Tx (Unit {0})
own_agent ac id =
    if is_agent ac.role
    then (or_any (get_agent id) card_not_found >>= λ ag.
        raise_if (not (points_to ac.agent_id ag.id)) card_not_found)
    else pure tt

-- `AgentStatus`
unfoldable pub agent_status : Admin → ℕ → Bool → Tx (Unit {0})
unfolding set_agent_status
agent_status ac id active = do own_agent ac id; set_agent_status id active

-- `SetAgentProductGrant`
unfoldable pub set_agent_product_grant : Admin → ℕ → ℕ → Bool → Tx (Unit {0})
unfolding grant_agent_product revoke_agent_product
set_agent_product_grant ac agent product granted = do
  raise_if (not (is_superadmin ac.role)) bad_argument
  get_agent agent
  get_product product
  if granted then grant_agent_product agent product else revoke_agent_product agent product

-- `parentID == nil || *parentID != *ac.Admin.AgentID`, and no agent at all
abbrev not_own : Option ℕ → Option ℕ → Bool
not_own none parent = true
not_own (some own) parent = not (points_to parent own)

module _ (pw : Passwords) where
  open pw use {hash}

  -- `CreateAdmin`; a role that is none of the five has no value here.
  unfoldable pub create_staff : Admin → ℕ → Text → Text → AdminRole → Option ℕ → ℕ → Tx (Unit {0})
  unfolding create_admin byte_len
  create_staff ac id username password role agent_id salt = do
    raise_if (not (is_superadmin ac.role)) bad_argument
    raise_if (ltb (byte_len password) 12) bad_argument
    create_admin (new_admin id username (hash salt password) role agent_id)

  -- the account that comes with an agent, if it has a name
  unfoldable pub agent_account : ℕ → ℕ → Text → Text → ℕ → Tx (Unit {0})
  unfolding create_admin byte_len
  agent_account agent id username password salt =
      if is_empty username
      then pure tt
      else raise_if (ltb (byte_len password) 12) bad_argument
        >> create_admin (new_admin id username (hash salt password) AdminRole.agent (some agent))

  -- the transaction of `CreateAgent`
  unfoldable pub hire_tx : ℕ → Option ℕ → ℕ → Text → Text → ℕ → Tx Agent
  unfolding agent_account create_agent
  hire_tx agent parent id username password salt = do
    a ← create_agent agent parent
    agent_account a.id id username password salt
    pure a

  -- `CreateAgent`
  unfoldable pub hire_agent : Admin → ℕ → Option ℕ → ℕ → Text → Text → ℕ → Tx Agent
  unfolding hire_tx
  hire_agent ac agent parent id username password salt = do
    raise_if (is_agent ac.role && not_own ac.agent_id parent) card_not_found
    raise_if (not (is_empty username) && not (is_superadmin ac.role)) bad_argument
    with_tx (hire_tx agent parent id username password salt)

  -- the new password of an account, if there is one
  unfoldable pub reset_password : ℕ → ℕ → Text → ℕ → Tx (Unit {0})
  unfolding reset_admin_password revoke_all_sessions byte_len
  reset_password now id password salt =
      if is_empty password
      then pure tt
      else raise_if (ltb (byte_len password) 12) bad_argument
        >> (reset_admin_password id (hash salt password) >> revoke_all_sessions now id)

  -- whether the account is not one of the agent
  abbrev foreign_account : ℕ → Admin → Bool
  foreign_account agent ad = not (is_agent ad.role) || not (points_to ad.agent_id agent)

  -- `UpdateAgentAccount`, whose steps are in no transaction
  unfoldable pub update_agent_account : ℕ → Admin → ℕ → ℕ → Text → Text → ℕ → Tx (Unit {0})
  unfolding reset_password update_admin_username
  update_agent_account now ac agent id username password salt = do
    raise_if (not (is_superadmin ac.role)) bad_argument
    ad ← get_admin id
    raise_if (foreign_account agent ad) card_not_found
    if is_empty username || text_eq username ad.username
        then pure tt
        else update_admin_username id username
    reset_password now id password salt
