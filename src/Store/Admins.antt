-- ===== src/Store/Admins.antt =====
-- The statements on administrators and their sessions of
-- apps/license-api/internal/store/adminstore.go and catalog.go.
use vertify_license_platform.Prelude.{
  ℕ, suc, ◌+◌, ◌*◌, ◌^◌, Bool, true, ◌&&◌, ◌||◌, not, Option, none, some, [], ◌∷◌, ◌++◌, ltb, leb,
  ◌==◌, is_some, length, all_of, Text, text_eq, if◌then◌else◌,
}
use vertify_license_platform.Domain.{
  ok, err, no_rows, unique_violation, foreign_key_violation, out_of_range,
}
use vertify_license_platform.Store.Table.{find, first, exists, update, update_where}
use vertify_license_platform.Store.Accounts.{Agent, Admin, AdminSession}
use vertify_license_platform.Store.Rows.{Db}
use vertify_license_platform.Store.Tx.{Tx, selects}

abbrev pub by_username : Text → Admin → Bool
by_username username a = text_eq a.username username

-- `GetAdminByUsername`
unfoldable pub get_admin_by_username : Text → Tx Admin
get_admin_by_username username = selects (λ db. first (by_username username) db.admins)

-- `GetAdmin`
abbrev pub get_admin : ℕ → Tx Admin
get_admin id = selects (λ db. find (λ (a : Admin). a.id) id db.admins)

abbrev username_rune : ℕ → Bool
username_rune c =
    (leb b'a' c && leb c b'z')
    || (leb b'A' c && leb c b'Z')
    || (leb b'0' c && leb c b'9')
    || c == b'_'
    || c == b'.'
    || c == b'-'

-- `username ~ '^[a-zA-Z0-9_.-]{3,64}$'`
unfoldable pub is_admin_name : Text → Bool
is_admin_name s = leb 3 (length s) && leb (length s) 64 && all_of username_rune s

abbrev agent_exists : Option ℕ → Db → Bool
agent_exists none db = true
agent_exists (some k) db = is_some (find (λ (g : Agent). g.id) k db.agents)

-- `CreateAdmin`: an active row that nobody has tried to sign in to, with the UUID of the database
unfoldable pub create_admin : Admin → Tx (Unit {0})
unfolding is_admin_name
create_admin a db =
    if not (is_admin_name a.username)
    then (err out_of_range, db)
    else if is_some (find (λ (b : Admin). b.id) a.id db.admins)
        || is_some (first (by_username a.username) db.admins)
    then (err unique_violation, db)
    else if agent_exists a.agent_id db
    then (ok tt, record db { admins = db.admins ++ a ∷ [] })
    else (err foreign_key_violation, db)

-- `UpdateAdminUsername` of catalog.go
unfoldable pub update_admin_username : ℕ → Text → Tx (Unit {0})
unfolding is_admin_name
update_admin_username id username db =
    if not (is_some (find (λ (b : Admin). b.id) id db.admins))
    then (err no_rows, db)
    else if not (is_admin_name username)
    then (err out_of_range, db)
    else if exists (λ (b : Admin). by_username username b && not (b.id == id)) db.admins
    then (err unique_violation, db)
    else (
      ok tt,
      record db {
        admins =
            update (λ (b : Admin). b.id) id (λ b. true) (λ b. record b { username = username })
              db.admins;
      },
    )

-- `ResetAdminPassword` of catalog.go
unfoldable pub reset_admin_password : ℕ → Text → Tx (Unit {0})
reset_admin_password id hash db =
    if is_some (find (λ (b : Admin). b.id) id db.admins)
    then (
      ok tt,
      record db {
        admins =
            update (λ (b : Admin). b.id) id (λ b. true)
              (λ b. record b {
                password_hash = hash;
                must_change_password = true;
                failed_attempts = 0;
                locked_until = none;
              })
              db.admins;
      },
    )
    else (err no_rows, db)

-- fifteen minutes
abbrev pub lock_time : ℕ
lock_time = 900 * 10 ^ 9

-- `CASE WHEN failed_attempts+1 >= 5 THEN now() + interval '15 minutes' END`
abbrev pub lock_after : ℕ → ℕ → Option ℕ
lock_after now failed = if leb 5 (suc failed) then some (now + lock_time) else none

abbrev pub one_more : ℕ → Admin → Admin
one_more now a = record a {
  failed_attempts = suc a.failed_attempts;
  locked_until = lock_after now a.failed_attempts;
}

-- `UPDATE admins SET f WHERE id=$1`, whatever the rows affected
abbrev pub change_admin : ℕ → (Admin → Admin) → Tx (Unit {0})
change_admin id f db =
    (ok tt, record db { admins = update (λ (a : Admin). a.id) id (λ a. true) f db.admins })

-- `OnLoginFailed`: whether the account is locked now
unfoldable pub on_login_failed : ℕ → ℕ → Tx Bool
on_login_failed now id db = elim (find (λ (a : Admin). a.id) id db.admins) [
  | none ↦ (err no_rows, db)
  | some a ↦
      (ok (is_some (lock_after now a.failed_attempts)), (change_admin id (one_more now) db).1)
]

-- `OnLoginSuccess`
unfoldable pub on_login_success : ℕ → Tx (Unit {0})
on_login_success id = change_admin id (λ a. record a { failed_attempts = 0; locked_until = none })

-- `SetAdminMFA`
unfoldable pub set_admin_mfa : ℕ → Option Text → Bool → Tx (Unit {0})
set_admin_mfa id secret enabled =
    change_admin id (λ a. record a { totp_secret = secret; mfa_enabled = enabled })

-- `SetAdminPassword`
unfoldable pub set_admin_password : ℕ → Text → Bool → Tx (Unit {0})
set_admin_password id hash must_change = change_admin id (λ a. record a {
  password_hash = hash;
  must_change_password = must_change;
  failed_attempts = 0;
  locked_until = none;
})

-- `SetAdminStatus`
unfoldable pub set_admin_status : ℕ → Bool → Tx (Unit {0})
set_admin_status id active = change_admin id (λ a. record a { is_active = active })

-- `CreateSession`, with the UNIQUE and REFERENCES of `admin_sessions`
unfoldable pub create_session : AdminSession → Tx (Unit {0})
create_session s db =
    if is_some (find (λ (t : AdminSession). t.id) s.id db.sessions)
      || is_some (first (λ (t : AdminSession). text_eq t.token_hash s.token_hash) db.sessions)
    then (err unique_violation, db)
    else if is_some (find (λ (a : Admin). a.id) s.admin_id db.admins)
    then (ok tt, record db { sessions = db.sessions ++ s ∷ [] })
    else (err foreign_key_violation, db)

-- `token_hash=$1 AND revoked_at IS NULL AND expires_at > now()`
abbrev pub live_session : ℕ → Text → AdminSession → Bool
live_session now token_hash s =
    text_eq s.token_hash token_hash && not (is_some s.revoked_at) && ltb now s.expires_at

-- `GetSessionByTokenHash`
unfoldable pub get_session_by_token_hash : ℕ → Text → Tx AdminSession
get_session_by_token_hash now token_hash =
    selects (λ db. first (live_session now token_hash) db.sessions)

-- `RevokeSession`
unfoldable pub revoke_session : ℕ → ℕ → Tx (Unit {0})
revoke_session now id db = (
  ok tt,
  record db {
    sessions =
        update (λ (s : AdminSession). s.id) id (λ s. true) (λ s. record s { revoked_at = some now })
          db.sessions;
  },
)

abbrev pub open_session_of : ℕ → AdminSession → Bool
open_session_of admin s = s.admin_id == admin && not (is_some s.revoked_at)

-- `RevokeAllSessions`
unfoldable pub revoke_all_sessions : ℕ → ℕ → Tx (Unit {0})
revoke_all_sessions now admin db = (
  ok tt,
  record db {
    sessions =
        update_where (open_session_of admin) (λ s. record s { revoked_at = some now }) db.sessions;
  },
)
