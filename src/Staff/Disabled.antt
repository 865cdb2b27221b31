-- ===== src/Staff/Disabled.antt =====
-- An administrator who is disabled (`SetAdminStatus` of
-- apps/license-api/internal/service/adminsvc.go) is out.
use vertify_license_platform.Prelude.{
  ℕ, ◌≡◌, refl, ap, Bool, true, false, not, Option, none, some, inl, inr, Option-cases, List, [],
  ◌∷◌, ◌==◌, Text, arith,
}
use vertify_license_platform.Domain.{ok, err, bad_credentials}
use vertify_license_platform.Passwords.{Passwords}
use vertify_license_platform.Store.Table.{
  find, first, update, update_where, find-update, find-key, first-changed,
}
use vertify_license_platform.Store.Accounts.{Admin, AdminSession}
use vertify_license_platform.Store.Rows.{Db}
use vertify_license_platform.Store.Tx.{pure, ◌>>◌}
use vertify_license_platform.Store.Keeps.{Keeps, bind-Keeps}
use vertify_license_platform.Store.Admins.{
  by_username, change_admin, one_more, on_login_failed, on_login_success, create_session,
  live_session, get_session_by_token_hash, get_admin_by_username, open_session_of, set_admin_status,
  revoke_all_sessions,
}
use vertify_license_platform.SignIn.{
  Login, LoginResult, opens_for, failed, check_totp, session_of, sign_in, admin_login, with_admin,
  resolve_session,
}
use vertify_license_platform.Staff.{is_superadmin, staff_status}

-- the database once an administrator is disabled
abbrev disabled_db : ℕ → ℕ → Db → Db
disabled_db now id db = record db {
  admins =
      update (λ (a : Admin). a.id) id (λ a. true) (λ a. record a { is_active = false }) db.admins;
  sessions =
      update_where (open_session_of id) (λ s. record s { revoked_at = some now }) db.sessions;
}

disables :
    (now : ℕ) (ac : Admin) (id : ℕ) (db : Db)
    → is_superadmin ac.role ≡ true
    → (id == ac.id) ≡ false
    → staff_status now ac id false db ≡ (ok tt, disabled_db now id db)
unfolding staff_status set_admin_status revoke_all_sessions
disables now ac id db super other = ground (arith, super, other)

-- the row is of an administrator who is disabled
abbrev is_off : Option Admin → Bool
is_off none = false
is_off (some a) = not a.is_active

-- the administrator of a UUID is disabled, and so is the one of a name
abbrev IsOff : ℕ → Text → Db → Type 0
IsOff id name db =
    (is_off (find (λ (a : Admin). a.id) id db.admins) ≡ true)
    × (is_off (first (by_username name) db.admins) ≡ true)

-- an update that leaves names and disabled administrators as they are
off_first :
    (j : ℕ) (f : Admin → Admin) (name : Text) (admins : List Admin)
    → ((a : Admin) → (f a).username ≡ a.username)
    → ((a : Admin) → (f a).is_active ≡ a.is_active)
    → is_off (first (by_username name) admins) ≡ true
    → is_off (first (by_username name) (update (λ (a : Admin). a.id) j (λ a. true) f admins)) ≡ true
off_first j f name [] same still h = h
off_first j f name (a ∷ admins) same still h =
    ground (arith, h, same a, still a, off_first j f name admins same still)

module _ (id : ℕ) (name : Text) where
  change-Keeps :
      (j : ℕ) (f : Admin → Admin)
      → ((a : Admin) → (f a).id ≡ a.id)
      → ((a : Admin) → (f a).username ≡ a.username)
      → ((a : Admin) → (f a).is_active ≡ a.is_active)
      → Keeps (IsOff id name) (change_admin j f)
  change-Keeps j f key same still db (by_id, by_name) = (
    elim (Option-cases (find (λ (a : Admin). a.id) id db.admins)) [
      | inl e ↦ absurd (grind (arith, e, by_id))
      | inr (a, e) ↦ ground (
        arith,
        e,
        by_id,
        still a,
        find-update (λ (a : Admin). a.id) j (λ a. true) f id db.admins key,
      )
    ],
    off_first j f name db.admins same still by_name,
  )

module _ (pw : Passwords) (digest : Text → Text) (verify_totp : Text → Text → ℕ → Bool)
    (ttl : ℕ) where
  inactive :
      (l : Login) (a : Admin) (db : Db)
      → first (by_username l.username) db.admins ≡ some a
      → a.is_active ≡ false
      → admin_login pw digest verify_totp ttl l db ≡ (err bad_credentials, db)
  unfolding admin_login get_admin_by_username with_admin
  inactive l a db mine off = ground (arith, mine, off)

  module _ (id : ℕ) (name : Text) where
    failed-Keeps : (now : ℕ) (a : Admin) → Keeps (IsOff id name) (failed now a)
    unfolding failed on_login_failed
    failed-Keeps now a db h = elim (Option-cases (find (λ (b : Admin). b.id) a.id db.admins)) [
      | inl e ↦ (ground (arith, e, h.0), ground (arith, e, h.1))
      | inr (b, e) ↦
          let k =
            change-Keeps id name a.id (one_more now) (λ c. refl) (λ c. refl) (λ c. refl) db h in
          (ground (arith, e, k.0), ground (arith, e, k.1))
    ]

    session-Keeps : (t : AdminSession) → Keeps (IsOff id name) (create_session t)
    unfolding create_session
    session-Keeps t db h = (ground (arith, h.0), ground (arith, h.1))

    totp-Keeps :
        (l : Login) (a : Admin) → Keeps (IsOff id name) (check_totp pw digest verify_totp ttl l a)
    unfolding check_totp
    totp-Keeps l a db h =
        let h' = failed-Keeps l.now a db h in (ground (arith, h.0, h'.0), ground (arith, h.1, h'.1))

    sign_in-Keeps :
        (l : Login) (a : Admin) → Keeps (IsOff id name) (sign_in pw digest verify_totp ttl l a)
    unfolding sign_in on_login_success
    sign_in-Keeps l a =
        let t = session_of pw digest verify_totp ttl l.now a l.session_id l.token l.csrf_token in
        let result : LoginResult = record {
          session_token = l.token;
          csrf_token = l.csrf_token;
          admin = a;
        } in
        bind-Keeps (IsOff id name) (check_totp pw digest verify_totp ttl l a)
          (λ _. on_login_success a.id >> (create_session t >> pure result)) (totp-Keeps l a)
          (λ _.
            bind-Keeps (IsOff id name) (on_login_success a.id)
              (λ _. create_session t >> pure result)
              (change-Keeps id name a.id
                (λ b. record b { failed_attempts = 0; locked_until = none }) (λ b. refl) (λ b. refl)
                (λ b. refl))
              (λ _.
                bind-Keeps (IsOff id name) (create_session t) (λ _. pure result) (session-Keeps t)
                  (λ _ db h. h)))

    -- a login, whoever makes it
    login-Keeps : (l : Login) → Keeps (IsOff id name) (admin_login pw digest verify_totp ttl l)
    unfolding admin_login get_admin_by_username with_admin
    login-Keeps l db h = elim (Option-cases (first (by_username l.username) db.admins)) [
      | inl e ↦ (ground (arith, e, h.0), ground (arith, e, h.1))
      | inr (a, e) ↦
          let k = failed-Keeps l.now a db h in
          let k' = sign_in-Keeps l a db h in
          (ground (arith, e, h.0, k.0, k'.0), ground (arith, e, h.1, k.1, k'.1))
    ]

  -- logins of anyone, one after another
  pub try_logins : List Login → Db → Db
  try_logins [] db = db
  try_logins (l ∷ ls) db = try_logins ls (admin_login pw digest verify_totp ttl l db).1

  try_logins-IsOff :
      (id : ℕ) (name : Text) (ls : List Login) (db : Db)
      → IsOff id name db
      → IsOff id name (try_logins ls db)
  unfolding try_logins
  try_logins-IsOff id name [] db h = h
  try_logins-IsOff id name (l ∷ ls) db h =
      try_logins-IsOff id name ls (admin_login pw digest verify_totp ttl l db).1
        (login-Keeps id name l db h)

  locked_out :
      (l : Login) (id : ℕ) (db : Db)
      → IsOff id l.username db
      → admin_login pw digest verify_totp ttl l db ≡ (err bad_credentials, db)
  locked_out l id db (_, off) = elim (Option-cases (first (by_username l.username) db.admins)) [
    | inl e ↦ absurd (grind (arith, e, off))
    | inr (a, e) ↦ inactive l a db e (ground (arith, e, off))
  ]

  -- a disabled administrator has no session, whatever rows of sessions there are
  no_session :
      (id now : ℕ) (name token : Text) (db : Db)
      → IsOff id name db
      → opens_for id (resolve_session pw digest verify_totp ttl now token db).0 ≡ false
  unfolding resolve_session get_session_by_token_hash
  no_session id now name token db (off, _) =
      elim (Option-cases (first (live_session now (digest token)) db.sessions)) [
        | inl e ↦ ground (arith, e)
        | inr (s, e) ↦ elim (Option-cases (find (λ (a : Admin). a.id) s.admin_id db.admins)) [
          | inl e' ↦ ground (arith, e, e')
          | inr (a, e') ↦
              let key = find-key (λ (a : Admin). a.id) s.admin_id db.admins a e' in
              ground (arith, e, e', key, off)
        ]
      ]

  -- When a superadministrator disables another administrator, and however many logins of anyone follow:
  -- no token opens a session of that administrator, and no login with their name succeeds or changes
  -- anything, whatever the password, the code and the time.
  pub disabled_locked_out :
      (now later : ℕ) (ac a : Admin) (ls : List Login) (l : Login) (token : Text) (db : Db)
      → is_superadmin ac.role ≡ true
      → (a.id == ac.id) ≡ false
      → first (by_username l.username) db.admins ≡ some a
      → find (λ (b : Admin). b.id) a.id db.admins ≡ some a
      → let (r, db₁) = staff_status now ac a.id false db in
        let db' = try_logins ls db₁ in
        (r ≡ ok tt)
        × (admin_login pw digest verify_totp ttl l db' ≡ (err bad_credentials, db'))
        × (opens_for a.id (resolve_session pw digest verify_totp ttl later token db').0 ≡ false)
  disabled_locked_out now later ac a ls l token db super other mine row =
      let f : Admin → Admin = λ b. record b { is_active = false } in
      let done = disables now ac a.id db super other in
      let db₁ = disabled_db now a.id db in
      let by_name =
        first-changed (λ (b : Admin). b.id) (by_username l.username) (λ b. true) f db.admins a mine
          row refl refl in
      let by_id = find-update (λ (b : Admin). b.id) a.id (λ b. true) f a.id db.admins (λ b. refl) in
      let off : IsOff a.id l.username (staff_status now ac a.id false db).1 =
        (ground (arith, done, by_id, row), ground (arith, done, by_name)) in
      let later_off =
        try_logins-IsOff a.id l.username ls (staff_status now ac a.id false db).1 off in
      let db' = try_logins ls (staff_status now ac a.id false db).1 in
      (
        ap (λ x. x.0) done,
        locked_out l a.id db' later_off,
        no_session a.id later l.username token db' later_off,
      )
