-- ===== src/Http/Gate.antt =====
-- Who reaches a handler: `requireAdminSession` and `requirePerm` of
-- apps/license-api/internal/httpapi/admin.go.
use vertify_license_platform.Prelude.{
  ℕ, Bool, true, false, ◌&&◌, ◌||◌, not, Option, none, some, is_empty, Text, codes, text_eq,
  if◌then◌else◌,
}
use vertify_license_platform.Domain.{ok, err, Permission}
use vertify_license_platform.Domain.Roles.{role_has}
use vertify_license_platform.Passwords.{Passwords}
use vertify_license_platform.Store.Rows.{Db}
use vertify_license_platform.SignIn.{AdminContext, resolve_session, check_csrf}
use vertify_license_platform.Http.{Answer, answer}
use vertify_license_platform.Http.Routes.{Method, get, Route, method, permission, path}

-- A request that the router gives to a route: the session's cookie, which may be missing, and the
-- header `X-CSRF-Token`, empty where it is missing.
pub record Request : Type 0 where
  pub route : Route
  pub id : Text
  pub cookie : Option Text
  pub csrf_header : Text
  pub now : ℕ

-- A middleware answers itself, or hands the request on.
pub data Gated : Type 0 where
  refused : Answer → Gated
  passed : AdminContext → Gated

abbrev pub is_get : Method → Bool
is_get get = true
is_get _ = false

-- `allowed`: the paths that are open before the first change of the password
abbrev pub allowed : Text → Bool
allowed p =
    text_eq p (codes "/admin/v1/auth/me")
    || text_eq p (codes "/admin/v1/auth/password")
    || text_eq p (codes "/admin/v1/auth/logout")
    || text_eq p (codes "/admin/v1/auth/mfa/setup")
    || text_eq p (codes "/admin/v1/auth/mfa/enable")
    || text_eq p (codes "/admin/v1/auth/mfa/disable")

-- `requirePerm`, where it stands before the handler
unfoldable pub require_perm : Option Permission → AdminContext → Gated
require_perm none ac = passed ac
require_perm (some p) ac =
    if role_has ac.admin.role p then passed ac else refused (answer 403 (codes "FORBIDDEN"))

-- the checks of a session that is live
unfoldable pub check_session : Request → AdminContext → Db → Gated
unfolding check_csrf path method
check_session req ac db =
    elim (if is_get (method req.route) then ok tt else (check_csrf ac req.csrf_header db).0) [
      | err _ ↦ refused (answer 403 (codes "CSRF"))
      | ok _ ↦
          if ac.admin.must_change_password && not (allowed (path req.route req.id))
          then refused (answer 403 (codes "PASSWORD_CHANGE_REQUIRED"))
          else passed ac
    ]

module _ (pw : Passwords) (digest : Text → Text) (verify_totp : Text → Text → ℕ → Bool)
    (ttl : ℕ) where
  -- `requireAdminSession`
  unfoldable pub require_admin_session : Request → Db → Gated
  unfolding resolve_session check_session
  require_admin_session req db = elim req.cookie [
    | none ↦ refused (answer 401 (codes "UNAUTHORIZED"))
    | some token ↦
        if is_empty token
        then refused (answer 401 (codes "UNAUTHORIZED"))
        else elim (resolve_session pw digest verify_totp ttl req.now token db).0 [
          | err _ ↦ refused (answer 401 (codes "UNAUTHORIZED"))
          | ok ac ↦ check_session req ac db
        ]
  ]

  -- the middlewares before a handler
  unfoldable pub gate : Request → Db → Gated
  unfolding require_admin_session require_perm permission
  gate req db = elim (require_admin_session req db) [
    | refused a ↦ refused a
    | passed ac ↦ require_perm (permission req.route) ac
  ]
