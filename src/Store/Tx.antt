-- ===== src/Store/Tx.antt =====
-- Statements of a transaction, and `WithTx` of apps/license-api/internal/store/catalog.go.
use vertify_license_platform.Prelude.{
  ◌≡◌, Bool, true, false, arith, Option, none, some, if◌then◌else◌, inl, inr,
}
use vertify_license_platform.Domain.{Error, no_rows, Result, ok, err, is_ok, Result-cases}
use vertify_license_platform.Store.Rows.{Db}

abbrev pub Tx : Type 0 → Type 0
Tx A = Db → Result A × Db

module _ {A : Type 0} where
  abbrev pub pure : A → Tx A
  pure a db = (ok a, db)

  abbrev pub raise : Error → Tx A
  raise e db = (err e, db)

  abbrev pub gets : (Db → A) → Tx A
  gets f db = (ok (f db), db)

  -- a row, or `ErrNoRows`
  abbrev pub selects : (Db → Option A) → Tx A
  selects f db = elim (f db) [ none ↦ (err no_rows, db) | some a ↦ (ok a, db) ]

  -- `if err == store.ErrNoRows { return e }`
  abbrev pub or_raise : Tx A → Error → Tx A
  or_raise m e db =
      let (r, db') = m db in
      elim r [ ok a ↦ (ok a, db') | err no_rows ↦ (err e, db') | err f ↦ (err f, db') ]

  -- `if err != nil { return e }`
  abbrev pub or_any : Tx A → Error → Tx A
  or_any m e db = let (r, db') = m db in elim r [ ok a ↦ (ok a, db') | err f ↦ (err e, db') ]

  -- `WithTx`: an error rolls everything back.
  unfoldable pub with_tx : Tx A → Tx A
  with_tx m db = let (r, db') = m db in elim r [ ok a ↦ (ok a, db') | err e ↦ (err e, db) ]

  pub with_tx-refused :
      (m : Tx A) (db : Db) → is_ok (m db).0 ≡ false → with_tx m db ≡ ((m db).0, db)
  unfolding with_tx
  with_tx-refused m db h = ground arith

  pub with_tx-done : (m : Tx A) (db : Db) → is_ok (m db).0 ≡ true → with_tx m db ≡ m db
  unfolding with_tx
  with_tx-done m db h = ground arith

infixl 5 ◌>>=◌ ◌>>◌
abbrev pub ◌>>=◌ : {A B : Type 0} → Tx A → (A → Tx B) → Tx B
◌>>=◌ m f db = let (r, db') = m db in elim r [ ok a ↦ f a db' | err e ↦ (err e, db') ]

abbrev pub ◌>>◌ : {A B : Type 0} → Tx A → Tx B → Tx B
m >> k = m >>= λ _. k

-- `return e` if the test holds
abbrev pub raise_if : Bool → Error → Tx (Unit {0})
raise_if b e db = (if b then err e else ok tt, db)

module _ {A B : Type 0} where
  pub bind-done :
      (m : Tx A) (f : A → Tx B) (db : Db) (a : A) → (m db).0 ≡ ok a → (m >>= f) db ≡ f a (m db).1
  bind-done m f db a h = ground (arith, h)

  pub bind-step :
      (m : Tx A) (f : A → Tx B) (db : Db) (a : A) (db' : Db)
      → m db ≡ (ok a, db')
      → (m >>= f) db ≡ f a db'
  bind-step m f db a db' h = ground (arith, h)

  -- a chain that succeeds has begun with a success
  pub bind-ok :
      (m : Tx A) (f : A → Tx B) (db : Db)
      → is_ok ((m >>= f) db).0 ≡ true
      → (a : A) × ((m db).0 ≡ ok a) × ((m >>= f) db ≡ f a (m db).1)
  bind-ok m f db h = elim (Result-cases (m db).0) [
    | inl (a, e) ↦ (a, e, bind-done m f db a e)
    | inr (e, e') ↦ absurd (grind (arith, e', h))
  ]
