-- ===== src/Users/Accounts.antt =====
-- Registration and the first machine (`UserRegister` and `UserLogin` of
-- apps/license-api/internal/service/usersvc.go).
use vertify_license_platform.Prelude.{
  ℕ, ◌≡◌, refl, ap, ◌∙◌, Bool, true, false, not, none, some, [], ◌∷◌, ◌++◌, List, inl, inr,
  Option-cases, Bool-cases, if◌then◌else◌, is_some, Text, text_eq, text_eq_self, ==_self, ltb,
  byte_len, trim_space, to_upper, arith,
}
use vertify_license_platform.Domain.{Result, ok, err, machine_bound, signing_failed}
use vertify_license_platform.Store.Table.{
  find, first, update, first-append, first-changed, find-append, find-update,
}
use vertify_license_platform.Store.Accounts.{EndUser}
use vertify_license_platform.Store.Rows.{Product, Db}
use vertify_license_platform.Store.Users.{
  named, get_end_user_by_name, create_end_user, bind_end_user_machine, touch_end_user_login,
}
use vertify_license_platform.Passwords.{Passwords}
use vertify_license_platform.Users.{
  is_username, get_product_id_by_code, add_user, new_user, user_register, admit, user_login,
  check_machine, UserLoginResult, login_result,
}

-- What a registration needs: the product is on sale, the name and the UUID are new, and the words
-- have their form.
pub record IsNew (product_code username password security_code : Text) (id : ℕ) (prod : Product)
    (db : Db) : Type 0 where
  pub name : is_username username ≡ true
  pub long : ltb (byte_len password) 6 ≡ false
  pub code_long : ltb (byte_len security_code) 4 ≡ false
  pub product : get_product_id_by_code product_code db ≡ (ok prod.id, db)
  pub product_row : find (λ (p : Product). p.id) prod.id db.products ≡ some prod
  pub free_name : first (named prod.id username) db.users ≡ none
  pub free_id : find (λ (u : EndUser). u.id) id db.users ≡ none

module _ (pw : Passwords) where
  open pw use {hash, verify, verify-hash}

  own_name : (u : EndUser) → named u.product_id u.username u ≡ true
  own_name u = ground (arith, text_eq_self u.username, ==_self u.product_id)

  added :
      (u : EndUser) (prod : Product) (db : Db)
      → find (λ (p : Product). p.id) u.product_id db.products ≡ some prod
      → first (named u.product_id u.username) db.users ≡ none
      → find (λ (v : EndUser). v.id) u.id db.users ≡ none
      → add_user pw u db ≡ (ok tt, record db { users = db.users ++ u ∷ [] })
  unfolding add_user get_end_user_by_name create_end_user
  added u prod db there name id = ground (
    arith,
    there,
    name,
    id,
    first-append (named u.product_id u.username) db.users u name (own_name u),
  )

  registered :
      (product_code username password security_code : Text) (id salt salt' : ℕ) (prod : Product)
      (db : Db)
      → IsNew product_code username password security_code id prod db
      → user_register pw product_code username password security_code id salt salt' db ≡ (
        ok tt,
        record db {
          users =
              db.users
              ++ new_user pw id prod.id username (hash salt password) (hash salt' security_code)
                ∷ [];
        },
      )
  unfolding user_register
  registered product_code username password security_code id salt salt' prod db new =
      let u = new_user pw id prod.id username (hash salt password) (hash salt' security_code) in
      ground (
        arith,
        new.name,
        new.long,
        new.code_long,
        new.product,
        added u prod db new.product_row new.free_name new.free_id,
      )

  to_admit :
      (to_sign : Bool) (now : ℕ) (product_code username password fp_hash : Text) (product : ℕ)
      (u : EndUser) (db : Db)
      → get_product_id_by_code product_code db ≡ (ok product, db)
      → first (named product username) db.users ≡ some u
      → user_login pw to_sign now product_code username password fp_hash db
        ≡ admit pw to_sign now product_code u password fp_hash db
  unfolding user_login get_end_user_by_name
  to_admit to_sign now product_code username password fp_hash product u db sold mine =
      ground (arith, sold, mine)

  -- the table of users once a machine is bound, and a login
  abbrev bound_db : ℕ → EndUser → Text → Db → Db
  bound_db now u fp_hash db = record db {
    users =
        update (λ (v : EndUser). v.id) u.id (λ v. true) (λ v. record v { last_login_at = some now })
          (update (λ (v : EndUser). v.id) u.id (λ v. not (is_some v.machine_hash))
            (λ v. record v { machine_hash = some fp_hash }) db.users);
  }

  -- the answer of a login that the account passes
  abbrev pub signed_in : Bool → ℕ → Text → EndUser → Result UserLoginResult
  signed_in to_sign now product_code u =
      if to_sign then ok (login_result now product_code u) else err signing_failed

  first_admission :
      (to_sign : Bool) (now : ℕ) (product_code password fp_hash : Text) (u : EndUser) (db : Db)
      → find (λ (v : EndUser). v.id) u.id db.users ≡ some u
      → u.is_active ≡ true
      → verify password u.password_hash ≡ true
      → u.machine_hash ≡ none
      → admit pw to_sign now product_code u password fp_hash db
        ≡ (signed_in to_sign now product_code u, bound_db now u fp_hash db)
  unfolding admit check_machine bind_end_user_machine touch_end_user_login
  first_admission to_sign now product_code password fp_hash u db row active good fresh =
      ground (arith, row, active, good, fresh)

  later_admission :
      (now : ℕ) (product_code password fp_hash machine : Text) (u : EndUser) (db : Db)
      → u.is_active ≡ true
      → verify password u.password_hash ≡ true
      → u.machine_hash ≡ some machine
      → (admit pw true now product_code u password fp_hash db).0 ≡ (
          if text_eq machine fp_hash
          then ok (login_result now product_code u)
          else err machine_bound)
  unfolding admit check_machine touch_end_user_login
  later_admission now product_code password fp_hash machine u db active good bound =
      ground (arith, active, good, bound)

  -- the sale of a product does not depend on the users
  product_kept :
      (code : Text) (product : ℕ) (users : List EndUser) (db : Db)
      → get_product_id_by_code code db ≡ (ok product, db)
      → get_product_id_by_code code (record db { users = users })
        ≡ (ok product, record db { users = users })
  unfolding get_product_id_by_code
  product_kept code product users db h =
      elim (Option-cases
        (first (λ (p : Product). text_eq p.code (to_upper (trim_space code))) db.products)) [
          | inl e ↦ absurd (grind (arith, e, h))
          | inr (p, e) ↦ elim (Bool-cases p.is_active) [
            | inl a ↦ ground (arith, e, a, h)
            | inr a ↦ absurd (grind (arith, e, a, h))
          ]
        ]

  abbrev pub on_machine : ℕ → Text → EndUser → EndUser
  on_machine now fp_hash u = record u { machine_hash = some fp_hash; last_login_at = some now }

  bound_row :
      (now : ℕ) (fp_hash username : Text) (product : ℕ) (u : EndUser) (db : Db)
      → first (named product username) db.users ≡ some u
      → find (λ (v : EndUser). v.id) u.id db.users ≡ some u
      → u.machine_hash ≡ none
      → first (named product username) (bound_db now u fp_hash db).users
        ≡ some (on_machine now fp_hash u)
  bound_row now fp_hash username product u db mine row fresh =
      let q : EndUser → Bool = λ v. not (is_some v.machine_hash) in
      let f : EndUser → EndUser = λ v. record v { machine_hash = some fp_hash } in
      let us = update (λ (v : EndUser). v.id) u.id q f db.users in
      let free : q u ≡ true = ground (arith, fresh) in
      let mine' =
        first-changed (λ (v : EndUser). v.id) (named product username) q f db.users u mine row free
          refl in
      let row' : find (λ (v : EndUser). v.id) u.id us ≡ some (f u) = ground (
        arith,
        row,
        free,
        find-update (λ (v : EndUser). v.id) u.id q f u.id db.users (λ v. refl),
      ) in
      first-changed (λ (v : EndUser). v.id) (named product username) (λ v. true)
        (λ v. record v { last_login_at = some now }) us (f u) mine' row' refl refl

  -- A registration succeeds if the product is on sale, the name has its form and is new in it, the
  -- password has 6 bytes or more and the security code 4, and the UUID that the database draws is new.
  -- The first login with its password then binds the machine, and succeeds, with an account that has
  -- expired, or fails if its token cannot be signed. In either case, of the next logins with that
  -- password, with tokens that can be signed, one from the same machine succeeds and one from another
  -- machine is refused.
  pub register_login :
      (product_code username password security_code fp_hash fp_hash' : Text)
      (id salt salt' now now' : ℕ) (to_sign : Bool) (prod : Product) (db : Db)
      → IsNew product_code username password security_code id prod db
      → let u = new_user pw id prod.id username (hash salt password) (hash salt' security_code) in
        let (r, db₁) =
          user_register pw product_code username password security_code id salt salt' db in
        let (r₁, db₂) = user_login pw to_sign now product_code username password fp_hash db₁ in
        let (r₂, db₃) = user_login pw true now' product_code username password fp_hash' db₂ in
        (r ≡ ok tt)
        × (r₁ ≡ signed_in to_sign now product_code u)
        × ((login_result now product_code u).expired ≡ true)
        × (r₂ ≡ (
            if text_eq fp_hash fp_hash'
            then ok (login_result now' product_code (on_machine now fp_hash u))
            else err machine_bound))
  unfolding login_result
  register_login product_code username password security_code fp_hash fp_hash' id salt salt' now
        now' to_sign prod db new =
      let u = new_user pw id prod.id username (hash salt password) (hash salt' security_code) in
      let db₁ = record db { users = db.users ++ u ∷ [] } in
      let reg = registered product_code username password security_code id salt salt' prod db new in
      let mine : first (named prod.id username) db₁.users ≡ some u =
        first-append (named prod.id username) db.users u new.free_name (own_name u) in
      let row : find (λ (v : EndUser). v.id) id db₁.users ≡ some u =
        ground
          (arith, new.free_id, ==_self id, find-append (λ (v : EndUser). v.id) id db.users u) in
      let sold = product_kept product_code prod.id db₁.users db new.product in
      let good = verify-hash salt password in
      let login : user_login pw to_sign now product_code username password fp_hash db₁
          ≡ (signed_in to_sign now product_code u, bound_db now u fp_hash db₁) =
        to_admit to_sign now product_code username password fp_hash prod.id u db₁ sold mine
        ∙ first_admission to_sign now product_code password fp_hash u db₁ row refl good refl in
      let db₂ = bound_db now u fp_hash db₁ in
      let again : (user_login pw true now' product_code username password fp_hash' db₂).0 ≡ (
          if text_eq fp_hash fp_hash'
          then ok (login_result now' product_code (on_machine now fp_hash u))
          else err machine_bound) =
        ap (λ x. x.0)
          (to_admit true now' product_code username password fp_hash' prod.id
            (on_machine now fp_hash u) db₂
            (product_kept product_code prod.id db₂.users db new.product)
            (bound_row now fp_hash username prod.id u db₁ mine row refl))
        ∙ later_admission now' product_code password fp_hash' fp_hash (on_machine now fp_hash u) db₂
            refl good refl in
      let after : (user_login pw to_sign now product_code username password fp_hash
            (user_register pw product_code username password security_code id salt salt' db).1)
          ≡ (signed_in to_sign now product_code u, db₂) =
        ap (λ x. user_login pw to_sign now product_code username password fp_hash x.1) reg
        ∙ login in
      (
        ap (λ x. x.0) reg,
        ap (λ x. x.0) after,
        refl,
        ap (λ x. (user_login pw true now' product_code username password fp_hash' x.1).0) after
            ∙ again,
      )
