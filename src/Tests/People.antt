-- ===== src/Tests/People.antt =====
-- Accounts of users and administrators.
use vertify_license_platform.Prelude.{
  ℕ, ◌+◌, ◌-◌, ◌/◌, ◌%◌, ◌^◌, ◌≤◌, ◌≡◌, refl, Bool, true, false, Option, none, some, List, [], ◌∷◌,
  ◌↔◌, ◌⊎◌, replicate, if◌then◌else◌, Text, codes, text_eq, text_eq_self, byte_len, trim_space,
  arith,
}
use vertify_license_platform.Domain.{
  bad_credentials, AdminRole, ok, err, is_ok, machine_bound, signing_failed,
}
use vertify_license_platform.Passwords.{Passwords}
use vertify_license_platform.Store.Accounts.{EndUser, Admin, AdminSession}
use vertify_license_platform.Store.Rows.{Db}
use vertify_license_platform.Store.Tx.{with_tx}
use vertify_license_platform.Store.Admins.{lock_time, set_admin_password, create_session}
use vertify_license_platform.Activation.{activate_body}
use vertify_license_platform.Redeem.{redeem}
use vertify_license_platform.Users.{
  get_product_id_by_code, is_username, new_user, user_register, user_login, login_result,
  bind_card_tx,
}
use vertify_license_platform.Users.Cards.{IsBindable, account_card_spent}
use vertify_license_platform.Users.Accounts.{IsNew, on_machine, register_login}
use vertify_license_platform.SignIn.{
  Login, AdminContext, opens_for, admin_login, admin_change_password, resolve_session,
}
use vertify_license_platform.SignIn.Totp.{HasCode, verify_totp, verify_totp_iff}
use vertify_license_platform.SignIn.Lockout.{guesses, wrong_guesses_bounded}
use vertify_license_platform.SignIn.Sessions.{password_change_ends}
use vertify_license_platform.Staff.{staff_status}
use vertify_license_platform.Staff.Disabled.{try_logins, disabled_locked_out}
use vertify_license_platform.Tests.Cards.{
  product, month, month_card, request, renewal_request, shop,
}

-- passwords kept as they are
abbrev pub plain : Passwords
plain = record { hash = λ salt p. p; verify = text_eq; verify-hash = λ salt p. text_eq_self p }

abbrev alice : EndUser
alice = record {
  id = 70;
  product_id = 1;
  username = codes "alice";
  password_hash = codes "secret";
  security_hash = codes "code";
  is_active = true;
  expires_at = some 500;
  machine_hash = none;
  last_login_at = none;
}

abbrev club : Db
club = record shop { users = alice ∷ [] }

may_bind : IsBindable alice month_card month (codes "k10") club
unfolding text_eq
may_bind = record {
  user = refl;
  card_row = refl;
  card_key = refl;
  product = refl;
  licence = refl;
  unused = refl;
  unlinked = refl;
  unmarked = refl;
  plan_row = refl;
  days = refl;
}

account_card_spent_example :
    let db' = (with_tx (bind_card_tx 1000 70 (codes "k10")) club).1 in
    let (r₁, db₁) = with_tx (activate_body (record request { lookup = codes "k10" })) db' in
    let (r₂, db₂) = redeem (record renewal_request { lookup = codes "k10" }) db' in
    let (r₃, db₃) = with_tx (bind_card_tx 2000 70 (codes "k10")) db' in
    ((is_ok r₁ ≡ false) × (db₁ ≡ db'))
    × ((is_ok r₂ ≡ false) × (db₂ ≡ db'))
    × ((is_ok r₃ ≡ false) × (db₃ ≡ db'))
account_card_spent_example =
    account_card_spent 1000 alice month_card month club (record request { lookup = codes "k10" })
      (record renewal_request { lookup = codes "k10" }) 2000 70 may_bind refl

bob-IsNew : IsNew (codes "app") (codes "bob") (codes "secret") (codes "code") 71 product club
unfolding text_eq get_product_id_by_code is_username byte_len trim_space
bob-IsNew = record {
  name = refl;
  long = refl;
  code_long = refl;
  product = refl;
  product_row = refl;
  free_name = refl;
  free_id = refl;
}

register_login_example :
    let u = new_user plain 71 1 (codes "bob") (codes "secret") (codes "code") in
    let (r, db₁) =
      user_register plain (codes "app") (codes "bob") (codes "secret") (codes "code") 71 1 2 club in
    let (r₁, db₂) =
      user_login plain false 1000 (codes "app") (codes "bob") (codes "secret") (codes "fp1") db₁ in
    let (r₂, db₃) =
      user_login plain true 2000 (codes "app") (codes "bob") (codes "secret") (codes "fp2") db₂ in
    (r ≡ ok tt)
    × (r₁ ≡ err signing_failed)
    × ((login_result 1000 (codes "app") u).expired ≡ true)
    × (r₂ ≡ (
        if text_eq (codes "fp1") (codes "fp2")
        then ok (login_result 2000 (codes "app") (on_machine plain 1000 (codes "fp1") u))
        else err machine_bound))
register_login_example =
    register_login plain (codes "app") (codes "bob") (codes "secret") (codes "code") (codes "fp1")
      (codes "fp2") 71 1 2 1000 2000 false product club bob-IsNew

abbrev chief : Admin
chief = record {
  id = 80;
  username = codes "chief";
  password_hash = codes "a long password";
  role = AdminRole.superadmin;
  agent_id = none;
  totp_secret = none;
  mfa_enabled = false;
  is_active = true;
  failed_attempts = 3;
  locked_until = none;
  must_change_password = false;
}

abbrev open_session : AdminSession
open_session = record {
  id = 81;
  admin_id = 80;
  token_hash = codes "t1";
  csrf_token = codes "c1";
  expires_at = 9000;
  revoked_at = none;
}

abbrev second_session : AdminSession
second_session = record open_session { id = 82; admin_id = 84; token_hash = codes "t2" }

abbrev clerk : Admin
clerk = record chief { id = 84; username = codes "clerk" }

abbrev office : Db
office = record shop { admins = chief ∷ clerk ∷ []; sessions = open_session ∷ second_session ∷ [] }

abbrev guess : ℕ → Login
guess now = record {
  username = codes "chief";
  password = codes "wrong";
  totp = [];
  now = now;
  session_id = 83;
  token = codes "t3";
  csrf_token = codes "c3";
}

abbrev no_code : Text → Text → ℕ → Bool
no_code secret code now = false

abbrev as_is : Text → Text
as_is t = t

wrong_guesses_bounded_example :
    guesses plain as_is no_code 8000 (guess 1000 ∷ guess 1001 ∷ guess 1002 ∷ guess 1003 ∷ []) office
    ≤ 5 + (1003 - 1000) / lock_time
unfolding text_eq
wrong_guesses_bounded_example =
    wrong_guesses_bounded plain as_is no_code 8000
      (guess 1000 ∷ guess 1001 ∷ guess 1002 ∷ guess 1003 ∷ []) chief 1000 1003 office refl refl refl
      ((refl, refl), ((refl, refl), ((refl, refl), ((refl, refl), tt))))
      (omega arith, (omega arith, (omega arith, (omega arith, omega arith))))

abbrev asking : AdminContext
asking = record { session = open_session; admin = chief }

password_change_ends_example :
    opens_for 80
      (resolve_session plain as_is no_code 8000 3000
        (codes "t1")
        (admin_change_password plain as_is no_code 8000 2000 asking
          (codes "a long password")
          (codes "a longer password")
          5
          83
          (codes "t3")
          (codes "c3")
          office).1).0
    ≡ false
unfolding text_eq byte_len admin_change_password set_admin_password create_session
password_change_ends_example =
    password_change_ends plain as_is no_code 8000 2000 3000 asking (codes "a long password")
      (codes "a longer password") 5 83 (codes "t3") (codes "c3") (codes "t1") office refl refl

disabled_locked_out_example :
    let (r, db₁) = staff_status 2000 clerk 80 false office in
    let db' = try_logins plain as_is no_code 8000 (guess 2500 ∷ []) db₁ in
    (r ≡ ok tt)
    × (admin_login plain as_is no_code 8000 (guess 3000) db' ≡ (err bad_credentials, db'))
    × (opens_for 80 (resolve_session plain as_is no_code 8000 3000 (codes "t1") db').0 ≡ false)
unfolding text_eq
disabled_locked_out_example =
    disabled_locked_out plain as_is no_code 8000 2000 3000 clerk chief (guess 2500 ∷ [])
      (guess 3000) (codes "t1") office refl refl refl refl

abbrev key_of : Text → Option (List ℕ)
key_of secret = some secret

abbrev sum_of : List ℕ → List ℕ → List ℕ
sum_of key msg = replicate 20 7

verify_totp_iff_example :
    (verify_totp key_of sum_of (codes "AAAA") (codes "901063") 6000 ≡ true) ↔ (
      HasCode key_of sum_of (codes "AAAA") (codes "901063") ((6000 / 30 + 2 ^ 64 - 1) % 2 ^ 64)
      ⊎ (HasCode key_of sum_of (codes "AAAA") (codes "901063") (6000 / 30)
          ⊎ HasCode key_of sum_of (codes "AAAA") (codes "901063") ((6000 / 30 + 1) % 2 ^ 64)))
verify_totp_iff_example = verify_totp_iff key_of sum_of (codes "AAAA") (codes "901063") 6000
