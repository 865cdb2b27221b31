-- ===== src/Store/Keeps.antt =====
-- What holds of the database before a statement or a transaction and still holds after it, by the
-- structure of the transaction.
use vertify_license_platform.Prelude.{Bool, true, false, if◌then◌else◌, Option, arith}
use vertify_license_platform.Domain.{Error, Result, ok, err}
use vertify_license_platform.Store.Rows.{Db}
use vertify_license_platform.Store.Tx.{
  Tx, selects, or_raise, or_any, with_tx, raise_if, ◌>>=◌, ◌>>◌,
}

module _ (P : Db → Type 0) where
  abbrev pub Keeps : {A : Type 0} → Tx A → Type 0
  Keeps m = (db : Db) → P db → P (m db).1

  module _ {A : Type 0} where
    pub select-Keeps : (f : Db → Option A) → Keeps (selects f)
    select-Keeps f db h = ground arith

    pub or_raise-Keeps : (m : Tx A) (e : Error) → Keeps m → Keeps (or_raise m e)
    or_raise-Keeps m e k db h = ground (arith, k db h)

    pub or_any-Keeps : (m : Tx A) (e : Error) → Keeps m → Keeps (or_any m e)
    or_any-Keeps m e k db h = ground (arith, k db h)

    pub with_tx-Keeps : (m : Tx A) → Keeps m → Keeps (with_tx m)
    unfolding with_tx
    with_tx-Keeps m k db h = ground (arith, k db h)

    pub if_Keeps : (b : Bool) (m n : Tx A) → Keeps m → Keeps n → Keeps (if b then m else n)
    if_Keeps true m n k l = k
    if_Keeps false m n k l = l

    bound_keeps :
        {B : Type 0} (x : Result A × Db) (f : A → Tx B)
        → P x.1
        → ((a : A) → Keeps (f a))
        → P (elim x.0 as (λ r. Result B × Db) [ ok a ↦ f a x.1 | err e ↦ (err e, x.1) ]).1
    bound_keeps (ok a, db) f h l = l a db h
    bound_keeps (err e, db) f h l = h

    pub bind-Keeps :
        {B : Type 0} (m : Tx A) (f : A → Tx B) → Keeps m → ((a : A) → Keeps (f a)) → Keeps (m >>= f)
    bind-Keeps m f k l db h = bound_keeps (m db) f (k db h) l

    pub guards-Keeps :
        (b c : Bool) (e f : Error) (m : Tx A)
        → Keeps m
        → Keeps (raise_if b e >> (raise_if c f >> m))
    guards-Keeps true c e f m k db h = h
    guards-Keeps false true e f m k db h = h
    guards-Keeps false false e f m k db h = k db h
