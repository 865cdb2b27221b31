-- ===== src/SignIn/Lockout.antt =====
-- The lock of an account (`AdminLogin` and `OnLoginFailed` of apps/license-api/internal): how many
-- wrong passwords are looked at in a time.
use vertify_license_platform.Prelude.{
  ℕ, suc, ◌+◌, ◌-◌, ◌/◌, ◌≤◌, ◌≡◌, refl, ap, ◌∙◌, Bool, true, false, Option, none, some, List, [],
  ◌∷◌, ltb, leb, if◌then◌else◌, All, inl, inr, Bool-cases, Text, arith,
}
use vertify_license_platform.Domain.{Result, ok, err, bad_credentials, account_locked}
use vertify_license_platform.Passwords.{Passwords}
use vertify_license_platform.Store.Table.{find, first, update, first-changed, find-update}
use vertify_license_platform.Store.Accounts.{Admin}
use vertify_license_platform.Store.Rows.{Db}
use vertify_license_platform.Store.Admins.{
  by_username, get_admin_by_username, lock_time, lock_after, one_more, on_login_failed,
}
use vertify_license_platform.SignIn.{Login, is_locked, failed, with_admin, admin_login}

-- the times of the attempts, in order, none after `end`
abbrev pub IsOrdered : ℕ → ℕ → List ℕ → Type 0
IsOrdered start end [] = start ≤ end
IsOrdered start end (t ∷ ts) = (start ≤ t) × IsOrdered t end ts

-- The attempts that an account's counter lets through, when all of them fail.
abbrev let_through : ℕ → Option ℕ → List ℕ → ℕ
let_through f l [] = 0
let_through f l (t ∷ ts) =
    let here = let_through f l ts in
    let next = let_through (suc f) (lock_after t f) ts in if is_locked t l then here else suc next

-- the later of a time and the end of a lock
abbrev from : ℕ → Option ℕ → ℕ
from start none = start
from start (some u) = if leb start u then u else start

-- the attempts that are left
abbrev budget : ℕ → Option ℕ → ℕ → ℕ → ℕ
budget f l start end =
    if ltb f 5
    then (5 - f) + (end - start) / lock_time
    else (end + lock_time - from start l) / lock_time

ordered_ends : (start end : ℕ) (ts : List ℕ) → IsOrdered start end ts → start ≤ end
ordered_ends start end [] h = h
ordered_ends start end (t ∷ ts) h = omega (arith, h.0, ordered_ends t end ts h.1)

waits :
    (f : ℕ) (l : Option ℕ) (start t end : ℕ) → start ≤ t → budget f l t end ≤ budget f l start end
waits f none start t end h = ground (arith, h)
waits f (some u) start t end h = ground (arith, h)

spends :
    (f : ℕ) (l : Option ℕ) (start t end : ℕ)
    → start ≤ t
    → t ≤ end
    → is_locked t l ≡ false
    → suc (budget (suc f) (lock_after t f) t end) ≤ budget f l start end
spends f none start t end h h' free = ground (arith, h, h')
spends f (some u) start t end h h' free = ground (arith, h, h', free)

bounded :
    (f : ℕ) (l : Option ℕ) (start end : ℕ) (ts : List ℕ)
    → IsOrdered start end ts
    → let_through f l ts ≤ budget f l start end
bounded f l start end [] h = omega arith
bounded f l start end (t ∷ ts) h = elim (Bool-cases (is_locked t l)) [
  | inl b ↦ ground (arith, b, bounded f l t end ts h.1, waits f l start t end h.0)
  | inr b ↦ ground (
    arith,
    b,
    bounded (suc f) (lock_after t f) t end ts h.1,
    spends f l start t end h.0 (ordered_ends t end ts h.1) b,
  )
]

budget_most :
    (f : ℕ) (l : Option ℕ) (start end : ℕ)
    → start ≤ end
    → budget f l start end ≤ 5 + (end - start) / lock_time
budget_most f none start end h = ground (arith, h)
budget_most f (some u) start end h = ground (arith, h)

abbrev pub times : List Login → List ℕ
times [] = []
times (g ∷ gs) = g.now ∷ times gs

abbrev is_lock : {A : Type 0} → Result A → Bool
is_lock (err account_locked) = true
is_lock _ = false

module _ (pw : Passwords) (digest : Text → Text) (verify_totp : Text → Text → ℕ → Bool)
    (ttl : ℕ) where
  open pw use {verify}

  -- how many of the calls, one after another, are not answered that the account is locked
  unfoldable pub guesses : List Login → Db → ℕ
  guesses [] db = 0
  guesses (g ∷ gs) db =
      let (r, db') = admin_login pw digest verify_totp ttl g db in
      let rest = guesses gs db' in if is_lock r then rest else suc rest

  -- a call for an account with a wrong password
  abbrev pub IsWrong : Admin → Login → Type 0
  IsWrong a g = (g.username ≡ a.username) × (verify g.password a.password_hash ≡ false)

  -- the database after a failure
  abbrev failed_db : ℕ → Admin → Db → Db
  failed_db now a db = record db {
    admins = update (λ (b : Admin). b.id) a.id (λ b. true) (one_more now) db.admins;
  }

  fails :
      (now : ℕ) (a : Admin) (db : Db)
      → find (λ (b : Admin). b.id) a.id db.admins ≡ some a
      → failed now a db ≡ (ok tt, failed_db now a db)
  unfolding failed on_login_failed
  fails now a db row = rw (row, on_login_failed) refl

  answers :
      (g : Login) (a : Admin) (db : Db)
      → find (λ (b : Admin). b.id) a.id db.admins ≡ some a
      → a.is_active ≡ true
      → verify g.password a.password_hash ≡ false
      → with_admin pw digest verify_totp ttl g a db ≡ (
          if is_locked g.now a.locked_until
          then (err account_locked, db)
          else (err bad_credentials, failed_db g.now a db))
  unfolding with_admin
  answers g a db row active wrong = elim (Bool-cases (is_locked g.now a.locked_until)) [
    | inl b ↦ ground (arith, active, b)
    | inr b ↦ ground (arith, active, b, wrong, fails g.now a db row)
  ]

  attempt :
      (g : Login) (a : Admin) (db : Db)
      → first (by_username a.username) db.admins ≡ some a
      → find (λ (b : Admin). b.id) a.id db.admins ≡ some a
      → a.is_active ≡ true
      → IsWrong a g
      → admin_login pw digest verify_totp ttl g db ≡ (
          if is_locked g.now a.locked_until
          then (err account_locked, db)
          else (err bad_credentials, failed_db g.now a db))
  unfolding admin_login get_admin_by_username
  attempt g a db mine row active (name, wrong) =
      let mine' : first (by_username g.username) db.admins ≡ some a =
        ap (λ n. first (by_username n) db.admins) name ∙ mine in
      let found : admin_login pw digest verify_totp ttl g db
          ≡ with_admin pw digest verify_totp ttl g a db =
        ground (arith, mine') in
      found ∙ answers g a db row active wrong

  counted :
      (gs : List Login) (a : Admin) (db : Db)
      → first (by_username a.username) db.admins ≡ some a
      → find (λ (b : Admin). b.id) a.id db.admins ≡ some a
      → a.is_active ≡ true
      → All (IsWrong a) gs
      → guesses gs db ≡ let_through a.failed_attempts a.locked_until (times gs)
  unfolding guesses
  counted [] a db mine row active wrong = refl
  counted (g ∷ gs) a db mine row active (w, ws) =
      let one = attempt g a db mine row active w in
      let mine' =
        first-changed (λ (b : Admin). b.id) (by_username a.username) (λ b. true) (one_more g.now)
          db.admins a mine row refl refl in
      let row' : find (λ (b : Admin). b.id) a.id (failed_db g.now a db).admins
          ≡ some (one_more g.now a) =
        ground (
          arith,
          row,
          find-update (λ (b : Admin). b.id) a.id (λ b. true) (one_more g.now) a.id db.admins
              (λ b. refl),
        ) in
      elim (Bool-cases (is_locked g.now a.locked_until)) [
        | inl b ↦ ground (arith, one, b, counted gs a db mine row active ws)
        | inr b ↦ ground (
          arith,
          one,
          b,
          counted gs (one_more g.now a) (failed_db g.now a db) mine' row' active ws,
        )
      ]

  -- Of calls with a wrong password for an active account, one after another between two times, at
  -- most five and one more for every fifteen minutes between them are answered otherwise than by the
  -- account being locked, whatever the account's counter and lock were before.
  pub wrong_guesses_bounded :
      (gs : List Login) (a : Admin) (start end : ℕ) (db : Db)
      → first (by_username a.username) db.admins ≡ some a
      → find (λ (b : Admin). b.id) a.id db.admins ≡ some a
      → a.is_active ≡ true
      → All (IsWrong a) gs
      → IsOrdered start end (times gs)
      → guesses gs db ≤ 5 + (end - start) / lock_time
  wrong_guesses_bounded gs a start end db mine row active wrong ordered =
      let same = counted gs a db mine row active wrong in
      let within = bounded a.failed_attempts a.locked_until start end (times gs) ordered in
      let most =
        budget_most a.failed_attempts a.locked_until start end
          (ordered_ends start end (times gs) ordered) in
      ground (arith, same, within, most)
