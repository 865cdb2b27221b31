-- ===== src/Store/Users.antt =====
-- The statements on end users of apps/license-api/internal/store/users.go. An expiry of none is Go's
-- zero time, which lies before every time of the database.
use vertify_license_platform.Prelude.{
  ℕ, ◌+◌, ◌*◌, Bool, true, ◌&&◌, ◌||◌, not, Option, none, some, [], ◌∷◌, ◌++◌, ltb, ◌==◌, is_some,
  Text, text_eq, if◌then◌else◌,
}
use vertify_license_platform.Domain.{ok, err, no_rows, unique_violation, foreign_key_violation}
use vertify_license_platform.Store.Table.{find, first, update, reaches}
use vertify_license_platform.Store.Accounts.{EndUser}
use vertify_license_platform.Store.Rows.{Product, day}
use vertify_license_platform.Store.Tx.{Tx, selects}

-- `GetEndUser`
abbrev pub get_end_user : ℕ → Tx EndUser
get_end_user id = selects (λ db. find (λ (u : EndUser). u.id) id db.users)

abbrev pub named : ℕ → Text → EndUser → Bool
named product username u = u.product_id == product && text_eq u.username username

-- `GetEndUserByName`
unfoldable pub get_end_user_by_name : ℕ → Text → Tx EndUser
get_end_user_by_name product username = selects (λ db. first (named product username) db.users)

-- `CreateEndUser`, with the UUID that the database draws
unfoldable pub create_end_user : EndUser → Tx (Unit {0})
create_end_user u db =
    if is_some (find (λ (v : EndUser). v.id) u.id db.users)
      || is_some (first (named u.product_id u.username) db.users)
    then (err unique_violation, db)
    else if is_some (find (λ (p : Product). p.id) u.product_id db.products)
    then (ok tt, record db { users = db.users ++ u ∷ [] })
    else (err foreign_key_violation, db)

-- `UPDATE end_users SET f WHERE id=$1`, whatever the rows affected
abbrev pub change_user : ℕ → (EndUser → EndUser) → Tx (Unit {0})
change_user id f db =
    (ok tt, record db { users = update (λ (u : EndUser). u.id) id (λ u. true) f db.users })

abbrev pub user_extended : ℕ → ℕ → Option ℕ → ℕ
user_extended now days none = now + days * day
user_extended now days (some t) = if ltb t now then now + days * day else t + days * day

-- `ExtendEndUser`
unfoldable pub extend_end_user : ℕ → ℕ → ℕ → Tx ℕ
extend_end_user now id days db = elim (find (λ (u : EndUser). u.id) id db.users) [
  | none ↦ (err no_rows, db)
  | some u ↦ (
    ok (user_extended now days u.expires_at),
    (change_user id (λ u. record u { expires_at = some (user_extended now days u.expires_at) })
        db).1,
  )
]

-- `BindEndUserMachine`
unfoldable pub bind_end_user_machine : ℕ → Text → Tx (Unit {0})
bind_end_user_machine id machine db = (
  if reaches (λ (u : EndUser). u.id) id (λ u. not (is_some u.machine_hash)) db.users
      then ok tt
      else err no_rows,
  record db {
    users =
        update (λ (u : EndUser). u.id) id (λ u. not (is_some u.machine_hash))
          (λ u. record u { machine_hash = some machine }) db.users;
  },
)

-- `ResetEndUserMachine`
unfoldable pub reset_end_user_machine : ℕ → Tx (Unit {0})
reset_end_user_machine id = change_user id (λ u. record u { machine_hash = none })

-- `SetEndUserPassword`
unfoldable pub set_end_user_password : ℕ → Text → Tx (Unit {0})
set_end_user_password id hash = change_user id (λ u. record u { password_hash = hash })

-- `SetEndUserStatus`
unfoldable pub set_end_user_status : ℕ → Bool → Tx (Unit {0})
set_end_user_status id active = change_user id (λ u. record u { is_active = active })

-- `TouchEndUserLogin`
unfoldable pub touch_end_user_login : ℕ → ℕ → Tx (Unit {0})
touch_end_user_login now id = change_user id (λ u. record u { last_login_at = some now })
