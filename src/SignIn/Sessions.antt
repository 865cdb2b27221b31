-- ===== src/SignIn/Sessions.antt =====
-- The sessions that a change of password ends (`AdminChangePassword`, `MFADisable` and
-- `ResolveSession` of apps/license-api/internal/service/adminauth.go).
use vertify_license_platform.Prelude.{
  ℕ, ◌≡◌, ap, sym, ◌∙◌, Bool, true, false, some, inl, inr, Option-cases, Bool-cases, [], ◌∷◌, ◌++◌,
  ◌==◌, ltb, Text, text_eq, byte_len, arith, List,
}
use mathlib.Core.Path.{subst⁻¹}
use vertify_license_platform.Domain.{is_ok}
use vertify_license_platform.Passwords.{Passwords}
use vertify_license_platform.Store.Table.{
  find, first, update_where, first-passes, first-append_cases, first-update_where, find-key,
}
use vertify_license_platform.Store.Accounts.{Admin, AdminSession}
use vertify_license_platform.Store.Rows.{Db}
use vertify_license_platform.Store.Admins.{
  live_session, open_session_of, get_session_by_token_hash, revoke_all_sessions, create_session,
  set_admin_password,
}
use vertify_license_platform.SignIn.{
  opens_for, AdminContext, resolve_session, admin_change_password, session_of,
}

-- no token but those of the digest `kept` opens a session of the administrator
abbrev pub IsSignedOut : ℕ → Text → List AdminSession → Type 0
IsSignedOut admin kept sessions =
    (now : ℕ) (h : Text) (s : AdminSession)
    → first (live_session now h) sessions ≡ some s
    → text_eq kept h ≡ false
    → (s.admin_id == admin) ≡ false

revoked :
    (time admin now : ℕ) (h : Text) (sessions : List AdminSession) (s : AdminSession)
    → first
        (live_session now h)
        (update_where (open_session_of admin) (λ s. record s { revoked_at = some time }) sessions)
      ≡ some s
    → (s.admin_id == admin) ≡ false
revoked time admin now h sessions s found =
    let f : AdminSession → AdminSession = λ s. record s { revoked_at = some time } in
    let untouched =
      first-update_where (live_session now h) (open_session_of admin) f sessions s
        (λ x. elim (Bool-cases (text_eq x.token_hash h)) [
          | inl e ↦ ground (arith, e)
          | inr e ↦ ground (arith, e)
        ])
        found in
    let live =
      first-passes (live_session now h) (update_where (open_session_of admin) f sessions) s found in
    ground (arith, untouched, live)

joined :
    (admin : ℕ) (sessions : List AdminSession) (n : AdminSession)
    → IsSignedOut admin n.token_hash sessions
    → IsSignedOut admin n.token_hash (sessions ++ n ∷ [])
joined admin sessions n out now h s found other =
    elim (first-append_cases (live_session now h) sessions n s found) [
      | inl before ↦ out now h s before other
      | inr (none_before, same) ↦
          let live = first-passes (live_session now h) (sessions ++ n ∷ []) s found in
          absurd (grind (arith, other, ap (λ x. text_eq x.token_hash h) same, live))
    ]

created :
    (n : AdminSession) (db : Db)
    → is_ok (create_session n db).0 ≡ true
    → (create_session n db).1.sessions ≡ db.sessions ++ n ∷ []
unfolding create_session
created n db done = ground (arith, done)

module _ (pw : Passwords) (digest : Text → Text) (verify_totp : Text → Text → ℕ → Bool)
    (ttl : ℕ) where
  open pw use {hash, verify}

  -- a token whose live session is not the administrator's opens none of theirs
  never_opens :
      (admin now : ℕ) (token : Text) (db : Db)
      → ((s : AdminSession)
          → first (live_session now (digest token)) db.sessions ≡ some s
          → (s.admin_id == admin) ≡ false)
      → opens_for admin (resolve_session pw digest verify_totp ttl now token db).0 ≡ false
  unfolding resolve_session get_session_by_token_hash
  never_opens admin now token db apart =
      elim (Option-cases (first (live_session now (digest token)) db.sessions)) [
        | inl e ↦ ground (arith, e)
        | inr (s, e) ↦ elim (Option-cases (find (λ (a : Admin). a.id) s.admin_id db.admins)) [
          | inl e' ↦ ground (arith, e, e')
          | inr (a, e') ↦
              let key = find-key (λ (a : Admin). a.id) s.admin_id db.admins a e' in
              ground (arith, e, e', key, apart s e)
        ]
      ]

  -- the database before the new session
  abbrev changed_db : ℕ → ℕ → Text → Db → Db
  changed_db now admin password_hash db =
      (revoke_all_sessions now admin (set_admin_password admin password_hash false db).1).1

  changes :
      (now : ℕ) (ac : AdminContext) (old_pw new_pw : Text) (salt id : ℕ) (token csrf_token : Text)
      (db : Db)
      → let n = session_of pw digest verify_totp ttl now ac.admin id token csrf_token in
        let m =
          admin_change_password pw digest verify_totp ttl now ac old_pw new_pw salt id token
            csrf_token in
        is_ok (m db).0 ≡ true
        → m db ≡ create_session n (changed_db now ac.admin.id (hash salt new_pw) db)
  unfolding admin_change_password set_admin_password revoke_all_sessions
  changes now ac old_pw new_pw salt id token csrf_token db done =
      elim (Bool-cases (ltb (byte_len new_pw) 12)) [
        | inl e ↦ absurd (grind (arith, e, done))
        | inr e ↦ elim (Bool-cases (verify old_pw ac.admin.password_hash)) [
          | inr e' ↦ absurd (grind (arith, e, e', done))
          | inl e' ↦ ground (arith, e, e')
        ]
      ]

  -- After a change of password that succeeds, no token opens a session of that administrator, at
  -- whatever time, except those that have the digest of the new session's token.
  pub password_change_ends :
      (now later : ℕ) (ac : AdminContext) (old_pw new_pw : Text) (salt id : ℕ)
      (token csrf_token token' : Text) (db : Db)
      → is_ok
          (admin_change_password pw digest verify_totp ttl now ac old_pw new_pw salt id token
            csrf_token db).0
        ≡ true
      → text_eq (digest token) (digest token') ≡ false
      → opens_for ac.admin.id
          (resolve_session pw digest verify_totp ttl later token'
            (admin_change_password pw digest verify_totp ttl now ac old_pw new_pw salt id token
              csrf_token db).1).0
        ≡ false
  unfolding revoke_all_sessions set_admin_password
  password_change_ends now later ac old_pw new_pw salt id token csrf_token token' db done other =
      let whole = changes now ac old_pw new_pw salt id token csrf_token db done in
      let n = session_of pw digest verify_totp ttl now ac.admin id token csrf_token in
      let db₁ = changed_db now ac.admin.id (hash salt new_pw) db in
      let db' =
        (admin_change_password pw digest verify_totp ttl now ac old_pw new_pw salt id token
          csrf_token db).1 in
      let sessions : db'.sessions ≡ db₁.sessions ++ n ∷ [] =
        ap (λ x. x.1.sessions) whole ∙ created n db₁ (ap (λ x. is_ok x.0) (sym whole) ∙ done) in
      let out : IsSignedOut ac.admin.id (digest token) db'.sessions =
        subst⁻¹ (IsSignedOut ac.admin.id (digest token)) sessions (
          joined ac.admin.id db₁.sessions n
            (λ t h s found other. revoked now ac.admin.id t h db.sessions s found)) in
      never_opens ac.admin.id later token' db' (λ s found. out later (digest token') s found other)
