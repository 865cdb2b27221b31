-- ===== src/Store/Table.antt =====
-- Tables with a primary key: the rows, their selection and their update by key.
use vertify_license_platform.Prelude.{
  ℕ, ◌≡◌, ◌≤◌, Bool, ◌&&◌, true, false, Option, none, some, List, [], ◌∷◌, ◌++◌, ◌==◌,
  if◌then◌else◌, is_some, suc, refl, arith, ◌⊎◌, inl, inr, Bool-cases,
}

module _ {R : Type 0} where
  -- the first row that passes the test, in the order of the list
  abbrev pub first : (R → Bool) → List R → Option R
  first p [] = none
  first p (r ∷ rs) = if p r then some r else first p rs

  -- `EXISTS (SELECT 1 … WHERE …)`
  abbrev pub exists : (R → Bool) → List R → Bool
  exists p [] = false
  exists p (r ∷ rs) = if p r then true else exists p rs

  -- `SELECT count(*) … WHERE …`
  abbrev pub count : (R → Bool) → List R → ℕ
  count p [] = 0
  count p (r ∷ rs) = let rest = count p rs in if p r then suc rest else rest

  -- `DELETE FROM … WHERE p`
  abbrev pub delete : (R → Bool) → List R → List R
  delete p [] = []
  delete p (r ∷ rs) = let rest = delete p rs in if p r then rest else r ∷ rest

  -- `UPDATE … SET f WHERE p`
  abbrev pub update_where : (R → Bool) → (R → R) → List R → List R
  update_where p f [] = []
  update_where p f (r ∷ rs) = let rest = update_where p f rs in if p r then f r ∷ rest else r ∷ rest

  abbrev pub holds : (R → Bool) → Option R → Bool
  holds p none = false
  holds p (some r) = p r

  abbrev pub changed : (R → Bool) → (R → R) → Option R → Option R
  changed p f none = none
  changed p f (some r) = if p r then some (f r) else some r

  pub count-append :
      (p : R → Bool) (rs : List R) (r : R) → count p (rs ++ r ∷ []) ≤ suc (count p rs)
  count-append p [] r = ground arith
  count-append p (x ∷ rs) r = ground (arith, count-append p rs r)

  pub first-passes : (p : R → Bool) (rs : List R) (r : R) → first p rs ≡ some r → p r ≡ true
  first-passes p [] r h = grind arith
  first-passes p (x ∷ rs) r h = ground (arith, first-passes p rs r)

  -- the rows that a test sees are counted as before if none of them is deleted
  pub count-delete :
      (p q : R → Bool) (rs : List R)
      → ((r : R) → q r ≡ true → p r ≡ false)
      → count p (delete q rs) ≡ count p rs
  count-delete p q [] apart = refl
  count-delete p q (x ∷ rs) apart = ground (arith, apart x, count-delete p q rs apart)

  -- a new row that passes the test, where none did
  pub first-append :
      (p : R → Bool) (rs : List R) (r : R)
      → first p rs ≡ none
      → p r ≡ true
      → first p (rs ++ r ∷ []) ≡ some r
  first-append p [] r h passes = ground (arith, passes)
  first-append p (x ∷ rs) r h passes = ground (arith, h, passes, first-append p rs r)

  -- the row that is found after one is added was found before, or is the new one
  pub first-append_cases :
      (p : R → Bool) (rs : List R) (r s : R)
      → first p (rs ++ r ∷ []) ≡ some s
      → (first p rs ≡ some s) ⊎ ((first p rs ≡ none) × (r ≡ s))
  first-append_cases p [] r s h = inr (refl, ground (arith, h))
  first-append_cases p (x ∷ rs) r s h = elim (Bool-cases (p x)) [
    | inl e ↦ inl (ground (arith, e, h))
    | inr e ↦ ground (arith, e, h, first-append_cases p rs r s)
  ]

  -- after an update to rows that the test refuses, the row that it finds was not updated
  pub first-update_where :
      (p q : R → Bool) (f : R → R) (rs : List R) (r : R)
      → ((x : R) → p (f x) ≡ false)
      → first p (update_where q f rs) ≡ some r
      → q r ≡ false
  first-update_where p q f [] r gone h = grind arith
  first-update_where p q f (x ∷ rs) r gone h =
      ground (arith, h, gone x, first-update_where p q f rs r gone)

  pub none_exists :
      (p q : R → Bool) (rs : List R) → first p rs ≡ none → exists (λ r. p r && q r) rs ≡ false
  none_exists p q [] h = ground arith
  none_exists p q (x ∷ rs) h = ground (arith, none_exists p q rs)

module _ {R : Type 0} (id : R → ℕ) where
  -- `SELECT … WHERE id=$1`
  abbrev pub find : ℕ → List R → Option R
  find k [] = none
  find k (r ∷ rs) = if id r == k then some r else find k rs

  -- `UPDATE … SET f WHERE id=$1 AND p`: the key is unique, so one row at most is reached.
  abbrev pub update : ℕ → (R → Bool) → (R → R) → List R → List R
  update k p f [] = []
  update k p f (r ∷ rs) =
      let rest = update k p f rs in
      if id r == k then (if p r then f r ∷ rs else r ∷ rs) else r ∷ rest

  -- whether `UPDATE … WHERE id=$1 AND p` reaches a row
  abbrev pub reaches : ℕ → (R → Bool) → List R → Bool
  reaches k p rs = holds p (find k rs)

  pub find-update :
      (k : ℕ) (p : R → Bool) (f : R → R) (j : ℕ) (rs : List R)
      → ((r : R) → id (f r) ≡ id r)
      → find j (update k p f rs) ≡ (if k == j then changed p f (find j rs) else find j rs)
  find-update k p f j [] h = ground arith
  find-update k p f j (r ∷ rs) h = ground (arith, find-update k p f j rs h, h r)

  -- a row is added at the end
  pub find-append :
      (k : ℕ) (rs : List R) (r : R)
      → find k (rs ++ r ∷ [])
        ≡ (if is_some (find k rs) then find k rs else if id r == k then some r else none)
  find-append k [] r = ground arith
  find-append k (x ∷ rs) r = ground (arith, find-append k rs r)

  -- the row that is found has the key
  pub find-key : (k : ℕ) (rs : List R) (r : R) → find k rs ≡ some r → id r ≡ k
  find-key k [] r h = grind arith
  find-key k (x ∷ rs) r h = ground (arith, find-key k rs r)

  -- an update that a test does not see leaves its count
  pub count-update :
      (p : R → Bool) (k : ℕ) (q : R → Bool) (f : R → R) (rs : List R)
      → ((r : R) → p (f r) ≡ p r)
      → count p (update k q f rs) ≡ count p rs
  count-update p k q f [] h = refl
  count-update p k q f (r ∷ rs) h = ground (arith, count-update p k q f rs h, h r)

  -- an update of a row that passes no test afterwards adds none that passes
  pub first-update :
      (p : R → Bool) (k : ℕ) (f : R → R) (rs : List R) (r : R)
      → first p rs ≡ none
      → find k rs ≡ some r
      → p (f r) ≡ false
      → first p (update k (λ x. true) f rs) ≡ none
  first-update p k f [] r h there gone = refl
  first-update p k f (x ∷ rs) r h there gone = ground (arith, first-update p k f rs r)

  -- an update of the row that a test finds, which the test does not see
  pub first-changed :
      (p q : R → Bool) (f : R → R) (rs : List R) (r : R)
      → first p rs ≡ some r
      → find (id r) rs ≡ some r
      → q r ≡ true
      → p (f r) ≡ p r
      → first p (update (id r) q f rs) ≡ some (f r)
  first-changed p q f [] r h there reached same = grind arith
  first-changed p q f (x ∷ rs) r h there reached same =
      ground (arith, first-changed p q f rs r, first-passes p rs r)

  pub find-delete :
      (j k : ℕ) (rs : List R)
      → find k (delete (λ r. id r == j) rs) ≡ (if k == j then none else find k rs)
  find-delete j k [] = ground arith
  find-delete j k (r ∷ rs) = ground (arith, find-delete j k rs)

  pub find-update_where :
      (p : R → Bool) (f : R → R) (k : ℕ) (rs : List R)
      → ((r : R) → id (f r) ≡ id r)
      → find k (update_where p f rs) ≡ changed p f (find k rs)
  find-update_where p f k [] h = refl
  find-update_where p f k (r ∷ rs) h = ground (arith, find-update_where p f k rs h, h r)
