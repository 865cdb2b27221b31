-- ===== src/SignIn.antt =====
-- Administrators sign in: `AdminLogin`, `ResolveSession`, `CheckCSRF`, `MFADisable` and
-- `AdminChangePassword` of apps/license-api/internal/service/adminauth.go. Password hashing is an
-- interface, and the digest of a token (SHA-256 in hexadecimal) is a parameter. A request's time is
-- one moment, which the database's clock gives too. The audit and risk records are left out.
pub mod Totp
pub mod Lockout
pub mod Sessions
use vertify_license_platform.Prelude.{
  ℕ, ◌+◌, Bool, true, false, ◌||◌, not, Option, none, some, ◌==◌, ltb, is_empty, Text, text_eq,
  byte_len, if◌then◌else◌,
}
use vertify_license_platform.Domain.{
  Result, ok, err, bad_credentials, account_locked, mfa_required, mfa_bad, session_gone, csrf,
  nil_pointer, bad_argument,
}
use vertify_license_platform.Passwords.{Passwords}
use vertify_license_platform.Store.Accounts.{Admin, AdminSession}
use vertify_license_platform.Store.Rows.{unix}
use vertify_license_platform.Store.Tx.{Tx, pure, raise, raise_if, or_raise, or_any, ◌>>=◌, ◌>>◌}
use vertify_license_platform.Store.Admins.{
  get_admin_by_username, get_admin, on_login_failed, on_login_success, set_admin_mfa,
  set_admin_password, create_session, get_session_by_token_hash, revoke_all_sessions,
}

-- The call of `AdminLogin`, its time, and the UUID and the random tokens of the session.
pub record Login : Type 0 where
  pub username : Text
  pub password : Text
  pub totp : Text
  pub now : ℕ
  pub session_id : ℕ
  pub token : Text
  pub csrf_token : Text

pub record LoginResult : Type 0 where
  pub session_token : Text
  pub csrf_token : Text
  pub admin : Admin

-- the session of a request, and its administrator
pub record AdminContext : Type 0 where
  pub session : AdminSession
  pub admin : Admin

-- whether the answer is a session of an administrator
abbrev pub opens_for : ℕ → Result AdminContext → Bool
opens_for id (ok ac) = ac.admin.id == id
opens_for id (err e) = false

-- `admin.LockedUntil != nil && admin.LockedUntil.After(now)`
abbrev pub is_locked : ℕ → Option ℕ → Bool
is_locked now none = false
is_locked now (some t) = ltb now t

-- `locked, _ := OnLoginFailed(…)`, and the error that follows
unfoldable pub failed : ℕ → Admin → Tx (Unit {0})
unfolding on_login_failed
failed now a db = (ok tt, (on_login_failed now a.id db).1)

-- `CheckCSRF`
unfoldable pub check_csrf : AdminContext → Text → Tx (Unit {0})
check_csrf ac header = raise_if (is_empty header || not (text_eq header ac.session.csrf_token)) csrf

module _ (pw : Passwords) (digest : Text → Text) (verify_totp : Text → Text → ℕ → Bool)
    (ttl : ℕ) where
  open pw use {hash, verify}

  -- the second factor
  unfoldable pub check_totp : Login → Admin → Tx (Unit {0})
  unfolding failed
  check_totp l a =
      if not a.mfa_enabled
      then pure tt
      else if is_empty l.totp
      then raise mfa_required
      else elim a.totp_secret [
        | none ↦ raise nil_pointer
        | some secret ↦
            if verify_totp secret l.totp (unix l.now)
            then pure tt
            else failed l.now a >> raise mfa_bad
      ]

  abbrev pub session_of : ℕ → Admin → ℕ → Text → Text → AdminSession
  session_of now a id token csrf_token = record {
    id = id;
    admin_id = a.id;
    token_hash = digest token;
    csrf_token = csrf_token;
    expires_at = now + ttl;
    revoked_at = none;
  }

  -- from the second factor on
  unfoldable pub sign_in : Login → Admin → Tx LoginResult
  unfolding check_totp on_login_success create_session
  sign_in l a = do
    check_totp l a
    on_login_success a.id
    create_session (session_of l.now a l.session_id l.token l.csrf_token)
    pure (record { session_token = l.token; csrf_token = l.csrf_token; admin = a })

  -- the account and its password
  unfoldable pub with_admin : Login → Admin → Tx LoginResult
  unfolding failed sign_in
  with_admin l a = do
    raise_if (not a.is_active) bad_credentials
    raise_if (is_locked l.now a.locked_until) account_locked
    if verify l.password a.password_hash
        then sign_in l a
        else (failed l.now a >> raise bad_credentials)

  -- `AdminLogin`
  unfoldable pub admin_login : Login → Tx LoginResult
  unfolding get_admin_by_username with_admin
  admin_login l = or_raise (get_admin_by_username l.username) bad_credentials >>= with_admin l

  -- `ResolveSession`
  unfoldable pub resolve_session : ℕ → Text → Tx AdminContext
  unfolding get_session_by_token_hash
  resolve_session now token = do
    sess ← or_any (get_session_by_token_hash now (digest token)) session_gone
    a ← or_any (get_admin sess.admin_id) session_gone
    raise_if (not a.is_active) session_gone
    pure (record { session = sess; admin = a })

  -- `MFADisable`
  unfoldable pub mfa_disable : ℕ → AdminContext → Text → Tx (Unit {0})
  unfolding set_admin_mfa revoke_all_sessions
  mfa_disable now ac password = do
    raise_if (not (verify password ac.admin.password_hash)) bad_credentials
    set_admin_mfa ac.admin.id none false
    revoke_all_sessions now ac.admin.id

  -- `AdminChangePassword`, which leaves a new session to the browser that asks
  unfoldable pub admin_change_password :
      ℕ → AdminContext → Text → Text → ℕ → ℕ → Text → Text → Tx (Unit {0})
  unfolding set_admin_password revoke_all_sessions create_session byte_len
  admin_change_password now ac old_pw new_pw salt id token csrf_token = do
    raise_if (ltb (byte_len new_pw) 12) bad_argument
    raise_if (not (verify old_pw ac.admin.password_hash)) bad_credentials
    set_admin_password ac.admin.id (hash salt new_pw) false
    revoke_all_sessions now ac.admin.id
    create_session (session_of now ac.admin id token csrf_token)
