-- ===== src/Users.antt =====
-- Accounts of end users (apps/license-api/internal/service/usersvc.go). Password hashing is the
-- interface `Passwords`; a user's token comes in as the claims that its verification gives. The log
-- rows, and the message and version that a login shows, are left out.
pub mod Cards
pub mod Accounts
use vertify_license_platform.Prelude.{
  ℕ, ◌+◌, ◌*◌, ◌^◌, ◌≡◌, Bool, true, false, ◌&&◌, ◌||◌, not, Option, none, some, List, ltb, leb,
  ◌==◌, is_some, all_of, length, Text, text_eq, byte_len, to_upper, trim_space, if◌then◌else◌,
}
use vertify_license_platform.Domain.{
  CardStatus, card_is, LicenseStatus, Result, ok, err, Error, no_rows, unique_violation,
  product_retired, bad_username, bad_argument, user_exists, user_disabled, signing_failed,
  bad_credentials, bad_security_code, machine_bound, bad_signature, card_invalid_format,
  card_not_found, card_not_usable,
}
use vertify_license_platform.Passwords.{Passwords}
use vertify_license_platform.CardCode.{normalize_card}
use vertify_license_platform.Store.Accounts.{EndUser}
use vertify_license_platform.Store.Rows.{Card, CardKind, Plan, Db, unix}
use vertify_license_platform.Store.Tx.{
  Tx, pure, raise, raise_if, or_raise, or_any, with_tx, ◌>>=◌, ◌>>◌,
}
use vertify_license_platform.Store.Cards.{get_card_by_lookup, mark_card_used_by_user}
use vertify_license_platform.Store.Catalog.{get_product_by_code, get_plan}
use vertify_license_platform.Store.Users.{
  get_end_user, get_end_user_by_name, create_end_user, extend_end_user, bind_end_user_machine,
  set_end_user_password, touch_end_user_login,
}
use vertify_license_platform.Claims.{map_card_err, is_license_card}

abbrev word_rune : ℕ → Bool
word_rune c =
    (leb b'a' c && leb c b'z')
    || (leb b'A' c && leb c b'Z')
    || (leb b'0' c && leb c b'9')
    || c == b'_'

-- `usernameRe`: `^[a-zA-Z0-9_]{3,32}$`
unfoldable pub is_username : Text → Bool
is_username s = leb 3 (length s) && leb (length s) 32 && all_of word_rune s

-- `GetProductIDByCode`
unfoldable pub get_product_id_by_code : Text → Tx ℕ
get_product_id_by_code code = do
  p ← or_any (get_product_by_code (to_upper (trim_space code))) product_retired
  raise_if (not p.is_active) product_retired
  pure p.id

-- the claims of a user's token
pub record UserClaims : Type 0 where
  pub lic : ℕ
  pub prod : Text
  pub iss : ℕ
  pub exp : ℕ

-- The result of a login, with the claims that its token carries; the expiry of none is the zero time.
pub record UserLoginResult : Type 0 where
  pub claims : UserClaims
  pub expires_at : Option ℕ
  pub expired : Bool

-- `u.ExpiresAt.Before(time.Now())`
abbrev pub user_expired : ℕ → Option ℕ → Bool
user_expired now none = true
user_expired now (some t) = ltb t now

-- `endUserTokenTTL`: ten minutes
abbrev pub end_user_token_ttl : ℕ
end_user_token_ttl = 600

unfoldable pub login_result : ℕ → Text → EndUser → UserLoginResult
login_result now product_code u = record {
  claims = record {
    lic = u.id;
    prod = product_code;
    iss = unix now;
    exp = unix now + end_user_token_ttl;
  };
  expires_at = elim u.expires_at [ none ↦ none | some t ↦ some (unix t) ];
  expired = user_expired now u.expires_at;
}

-- the first login binds the machine, and another machine is refused
unfoldable pub check_machine : EndUser → Text → Tx (Unit {0})
unfolding bind_end_user_machine
check_machine u fp_hash = elim u.machine_hash [
  | none ↦ bind_end_user_machine u.id fp_hash
  | some m ↦ raise_if (not (text_eq m fp_hash)) machine_bound
]

-- `parseUserToken`, from the result of `VerifyTokenWithType`
unfoldable pub parse_user_token : Option UserClaims → Tx EndUser
parse_user_token none = raise bad_signature
parse_user_token (some claims) = do
  u ← or_any (get_end_user claims.lic) bad_signature
  raise_if (not u.is_active) user_disabled
  pure u

module _ (pw : Passwords) where
  open pw use {hash, verify}

  abbrev pub new_user : ℕ → ℕ → Text → Text → Text → EndUser
  new_user id product username password_hash security_hash = record {
    id = id;
    product_id = product;
    username = username;
    password_hash = password_hash;
    security_hash = security_hash;
    is_active = true;
    expires_at = none;
    machine_hash = none;
    last_login_at = none;
  }

  -- `err == store.ErrNoRows || IsUniqueErr(err)`
  abbrev register_error : Error → Error
  register_error no_rows = user_exists
  register_error unique_violation = user_exists
  register_error e = e

  abbrev insert_user : EndUser → Tx (Unit {0})
  insert_user u db =
      let (r, db') = create_end_user u db in
      elim r [ ok _ ↦ (ok tt, db') | err e ↦ (err (register_error e), db') ]

  -- the name must be free; the row is read again after the insertion
  unfoldable pub add_user : EndUser → Tx (Unit {0})
  unfolding get_end_user_by_name create_end_user
  add_user u db = elim (get_end_user_by_name u.product_id u.username db).0 [
    | ok _ ↦ (err user_exists, db)
    | err no_rows ↦ (insert_user u >> (get_end_user_by_name u.product_id u.username >> pure tt)) db
    | err e ↦ (err e, db)
  ]

  -- `UserRegister`; the two hashes draw a salt each.
  unfoldable pub user_register : Text → Text → Text → Text → ℕ → ℕ → ℕ → Tx (Unit {0})
  unfolding get_product_id_by_code add_user is_username byte_len
  user_register product_code username password security_code id salt salt' = do
    raise_if (not (is_username username)) bad_username
    raise_if (ltb (byte_len password) 6) bad_argument
    raise_if (ltb (byte_len security_code) 4) bad_argument
    product ← get_product_id_by_code product_code
    add_user (new_user id product username (hash salt password) (hash salt' security_code))

  -- a user that signs in: when the token cannot be signed, the machine is bound all the same
  unfoldable pub admit : Bool → ℕ → Text → EndUser → Text → Text → Tx UserLoginResult
  unfolding check_machine touch_end_user_login login_result
  admit to_sign now product_code u password fp_hash = do
    raise_if (not u.is_active) user_disabled
    raise_if (not (verify password u.password_hash)) bad_credentials
    check_machine u fp_hash
    touch_end_user_login now u.id
    raise_if (not to_sign) signing_failed
    pure (login_result now product_code u)

  -- `UserLogin`; `fp_hash` is the `FingerprintHash` of the machine, and `to_sign` whether the
  -- signer signs the user's token.
  unfoldable pub user_login : Bool → ℕ → Text → Text → Text → Text → Tx UserLoginResult
  unfolding get_product_id_by_code get_end_user_by_name admit
  user_login to_sign now product_code username password fp_hash = do
    product ← or_any (get_product_id_by_code product_code) bad_credentials
    u ← or_raise (get_end_user_by_name product username) bad_credentials
    admit to_sign now product_code u password fp_hash

  -- `UserChangePassword`
  unfoldable pub user_change_password : Option UserClaims → Text → Text → ℕ → Tx (Unit {0})
  unfolding parse_user_token set_end_user_password
  user_change_password token old_pw new_pw salt = do
    user ← parse_user_token token
    raise_if (ltb (byte_len new_pw) 6) bad_argument
    raise_if (not (verify old_pw user.password_hash)) bad_credentials
    set_end_user_password user.id (hash salt new_pw)

  -- `UserRecover`
  unfoldable pub user_recover : Text → Text → Text → Text → ℕ → Tx (Unit {0})
  unfolding get_product_id_by_code get_end_user_by_name set_end_user_password
  user_recover product_code username security_code new_password salt = do
    raise_if (ltb (byte_len new_password) 6) bad_argument
    product ← or_any (get_product_id_by_code product_code) bad_credentials
    u ← or_raise (get_end_user_by_name product username) bad_credentials
    raise_if (not (verify security_code u.security_hash)) bad_security_code
    set_end_user_password u.id (hash salt new_password)

-- the guards on the card that a user binds
unfoldable pub bindable : EndUser → Card → Tx (Unit {0})
bindable u card = do
  raise_if (not (card.product_id == u.product_id)) card_not_usable
  raise_if (not (is_license_card card.kind)) card_not_usable
  raise_if
      (not (card_is card.status CardStatus.unused)
        || is_some card.license_id
        || is_some card.used_by_user)
      (map_card_err card.status)

-- the plan of the card, and what is written
unfoldable pub spend_on_user : ℕ → ℕ → Card → Tx ℕ
unfolding mark_card_used_by_user extend_end_user
spend_on_user now user_id card = do
  plan ← get_plan card.plan_id
  raise_if (plan.duration_days == 0) card_not_usable
  or_any (mark_card_used_by_user card.id user_id now) card_not_usable
  extend_end_user now user_id plan.duration_days

-- the function that `UserBindCard` hands to `WithTx`
unfoldable pub bind_card_tx : ℕ → ℕ → Text → Tx ℕ
unfolding bindable spend_on_user get_card_by_lookup
bind_card_tx now user_id lookup = do
  u ← get_end_user user_id
  card ← or_raise (get_card_by_lookup lookup) card_not_found
  bindable u card
  spend_on_user now user_id card

-- `UserBindCard`; `CardLookup` is a keyed hash.
unfoldable pub user_bind_card : (Text → Text) → ℕ → Option UserClaims → Text → Tx ℕ
unfolding parse_user_token bind_card_tx normalize_card
user_bind_card card_lookup now token card_input = do
  user ← parse_user_token token
  normalized ← elim (normalize_card card_input) [
    | none ↦ raise card_invalid_format
    | some t ↦ pure t
  ]
  with_tx (bind_card_tx now user.id (card_lookup normalized))
