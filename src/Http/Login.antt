-- ===== src/Http/Login.antt =====
-- Signing in and out over HTTP: `handleAdminLogin`, `handleAdminLogout` and the account's own
-- handlers of apps/license-api/internal/httpapi/admin.go.
use vertify_license_platform.Prelude.{
  ℕ, ◌≡◌, ◌⊎◌, Bool, false, ◌&&◌, ◌||◌, Option, none, some, is_empty, ◌==◌, Text, codes,
  if◌then◌else◌,
}
use vertify_license_platform.Domain.{
  Error, Result, ok, err, bad_credentials, account_locked, mfa_required, mfa_bad, session_gone,
}
use vertify_license_platform.Cache.{Redis, Bucket, rate_limit}
use vertify_license_platform.Passwords.{Passwords}
use vertify_license_platform.Store.Table.{first}
use vertify_license_platform.Store.Accounts.{Admin}
use vertify_license_platform.Store.Rows.{Db}
use vertify_license_platform.Store.Admins.{by_username, revoke_session}
use vertify_license_platform.SignIn.{
  Login, LoginResult, AdminContext, is_locked, admin_login, resolve_session, mfa_disable,
  admin_change_password,
}
use vertify_license_platform.Http.{
  Answer, answer, success, map_error, Handler, bad_request, with_body,
}

-- what `handleAdminLogin` answers to an error; the second factor is asked for with a 200
unfoldable pub login_error : Error → Answer
unfolding map_error
login_error mfa_required = success 200
login_error account_locked = answer 423 (codes "LOCKED")
login_error mfa_bad = answer 401 (codes "MFA_INVALID")
login_error session_gone = answer 500 (codes "INTERNAL")
login_error bad_credentials = answer 401 (codes "BAD_CREDENTIALS")
login_error e = map_error e

abbrev pub login_answer : Result LoginResult → Answer
login_answer (ok a) = success 200
login_answer (err e) = login_error e

-- `limit := svc.Cfg.AdminLoginRPM; if limit <= 0 { limit = 10 }`
abbrev pub login_limit : ℕ → ℕ
login_limit n = if n == 0 then 10 else n

-- one minute, in milliseconds
abbrev pub minute : ℕ
minute = 60000

-- the answer to a call whose errors are all answered alike
abbrev pub call_or : {A : Type 0} → Answer → (Db → Result A × Db) → Handler
call_or a m db = let (r, db') = m db in elim r [ ok _ ↦ (success 200, db') | err _ ↦ (a, db') ]

module _ (pw : Passwords) (digest : Text → Text) (verify_totp : Text → Text → ℕ → Bool)
    (ttl : ℕ) where
  open pw use {verify}

  -- the call of the service
  unfoldable pub login_call : Option Login → Handler
  unfolding admin_login
  login_call body =
      with_body body
        (λ l db. let (r, db') = admin_login pw digest verify_totp ttl l db in (login_answer r, db'))

  module _ (r : Redis) where
    -- `handleAdminLogin` with the rate limit of its address, which Redis answers or not, at a time in
    -- milliseconds and with a random mark
    unfoldable pub handle_admin_login :
        Bool → ℕ → ℕ → ℕ → Option Login → Bucket r × Db → Answer × (Bucket r × Db)
    unfolding login_call rate_limit
    handle_admin_login answers rpm now mark body (b, db) =
        let (left, b') = rate_limit r now minute (login_limit rpm) mark b in
        let (a, db') = login_call body db in
        if answers
        then (if left == 0 then (answer 429 (codes "RATE_LIMITED"), (b', db)) else (a, (b', db')))
        else (a, (b, db'))

  -- the session of a cookie, if it is live
  unfoldable pub end_session : ℕ → Text → Db → Db
  unfolding resolve_session revoke_session
  end_session now token db = elim (resolve_session pw digest verify_totp ttl now token db).0 [
    | err _ ↦ db
    | ok ac ↦ (revoke_session now ac.session.id db).1
  ]

  -- `handleAdminLogout`
  unfoldable pub handle_admin_logout : ℕ → Option Text → Handler
  unfolding end_session
  handle_admin_logout now none db = (success 200, db)
  handle_admin_logout now (some token) db =
      (success 200, if is_empty token then db else end_session now token db)

  -- `handleMFADisable`
  unfoldable pub handle_mfa_disable : ℕ → AdminContext → Option Text → Handler
  unfolding mfa_disable
  handle_mfa_disable now ac body =
      with_body body (λ p. call_or bad_request (mfa_disable pw digest verify_totp ttl now ac p))

  -- `handlePasswordChange`: the old password and the new
  unfoldable pub handle_password_change :
      ℕ → AdminContext → ℕ → ℕ → Text → Text → Option (Text × Text) → Handler
  unfolding admin_change_password
  handle_password_change now ac salt id token csrf_token body = with_body body (λ (old_pw, new_pw).
      call_or bad_request (
        admin_change_password pw digest verify_totp ttl now ac old_pw new_pw salt id token
          csrf_token))

  -- The login of a name that no administrator has, of a disabled administrator, or of one who is not
  -- locked with a wrong password.
  abbrev pub IsBadLogin : Login → Db → Type 0
  IsBadLogin l db =
      (first (by_username l.username) db.admins ≡ none)
      ⊎ ((a : Admin) × (first (by_username l.username) db.admins ≡ some a)
          × ((a.is_active && (is_locked l.now a.locked_until || verify l.password a.password_hash))
              ≡ false))
