-- ===== src/CardCode/Batch.antt =====
-- `GenerateCardBatch` of apps/license-api/internal/crypto/cardcode.go: what a batch holds, and when
-- its loop ends.
use vertify_license_platform.Prelude.{
  ℕ, zero, suc, ◌+◌, ◌*◌, ◌≤◌, ◌≡◌, refl, inl, inr, true, false, ◌||◌, Option, none, some, List, [],
  ◌∷◌, ◌++◌, length, length-append, All, if◌then◌else◌, is_some, Text, text_eq, text_eq_iff,
  Bool-cases, Option-cases, arith,
}
use vertify_license_platform.CardCode.{
  card_random_len, normalize_card, generate_card_code, seen, cards, batch_loop, batch_size_ok,
  generate_card_batch,
}
use vertify_license_platform.CardCode.Generate.{DrawsBelow, generate-normalize}

-- no text stands twice in the list
abbrev pub IsDistinct : List Text → Type 0
IsDistinct [] = Unit
IsDistinct (c ∷ cs) = (seen cs c ≡ false) × IsDistinct cs

All-append : (P : Text → Type 0) (xs ys : List Text) → All P xs → All P ys → All P (xs ++ ys)
All-append P [] ys h k = k
All-append P (x ∷ xs) ys h k = (h.0, All-append P xs ys h.1 k)

cards_inj : {xs ys : List Text} → cards xs ≡ cards ys → xs ≡ ys
cards_inj h = cc

seen-append : (xs : List Text) (c d : Text) → seen (xs ++ c ∷ []) d ≡ (seen xs d || text_eq c d)
unfolding seen
seen-append [] c d = ground arith
seen-append (x ∷ xs) c d = ground (arith, seen-append xs c d)

IsDistinct-append :
    (xs : List Text) (c : Text) → IsDistinct xs → seen xs c ≡ false → IsDistinct (xs ++ c ∷ [])
unfolding seen
IsDistinct-append [] c h k = (refl, tt)
IsDistinct-append (x ∷ xs) c h k = (
  ground (arith, seen-append xs c x, text_eq_iff c x, text_eq_iff x c),
  IsDistinct-append xs c h.1 (ground arith),
)

-- What the loop returns has the wanted number of codes more than it began with, all different, and
-- each made by one of its rounds.
batch_loop_sound :
    (make : ℕ → Option Text) (P : Text → Type 0)
    → ((j : ℕ) (c : Text) → make j ≡ some c → P c)
    → (fuel n j : ℕ) (acc cs : List Text) → IsDistinct acc
    → All P acc
    → batch_loop make fuel n j acc ≡ cards cs
    → (length cs ≡ length acc + n) × IsDistinct cs × All P cs
unfolding batch_loop
batch_loop_sound make P good fuel zero j acc cs d a h = rw (← cards_inj h) (omega arith, d, a)
batch_loop_sound make P good zero (suc n) j acc cs d a h = absurd (cc)
batch_loop_sound make P good (suc fuel) (suc n) j acc cs d a h = elim (Option-cases (make j)) [
  | inl e ↦ absurd (cc (rw (e, batch_loop) at h))
  | inr (c, e) ↦ elim (Bool-cases (seen acc c)) [
    | inl dup ↦
        batch_loop_sound make P good fuel (suc n) (suc j) acc cs d a (rw (e, dup, batch_loop) at h)
    | inr new ↦ one_more c (
        batch_loop_sound make P good fuel n (suc j) (acc ++ c ∷ []) cs
          (IsDistinct-append acc c d new) (All-append P acc (c ∷ []) a (good j c e, tt))
          (rw (e, new, batch_loop) at h))
  ]
]
  where
    one_more :
        (c : Text)
        → (length cs ≡ length (acc ++ c ∷ []) + n) × IsDistinct cs × All P cs
        → (length cs ≡ length acc + suc n) × IsDistinct cs × All P cs
    one_more c (size, distinct, all) = (omega (arith, length-append acc (c ∷ [])), distinct, all)

-- the codes of the rounds from `j` on, `m` of them; `none` if one failed
abbrev pub gather : (ℕ → Option Text) → ℕ → ℕ → Option (List Text)
gather make zero j = some []
gather make (suc m) j = elim (make j) [
  | none ↦ none
  | some c ↦ elim (gather make m (suc j)) [ none ↦ none | some cs ↦ some (c ∷ cs) ]
]

-- how many of the codes stand neither in `acc` nor earlier
abbrev pub fresh : List Text → List Text → ℕ
fresh acc [] = 0
fresh acc (c ∷ cs) =
    let old = fresh acc cs in
    let new = suc (fresh (acc ++ c ∷ []) cs) in if seen acc c then old else new

gather_cons :
    (make : ℕ → Option Text) (m j : ℕ) (d : Text) (ds : List Text)
    → gather make (suc m) j ≡ some (d ∷ ds)
    → (make j ≡ some d) × (gather make m (suc j) ≡ some ds)
gather_cons make m j d ds g = elim (Option-cases (make j)) [
  | inl e ↦ absurd (cc (rw (e, gather) at g))
  | inr (c, e) ↦ elim (Option-cases (gather make m (suc j))) [
    | inl f ↦ absurd (cc (rw (e, f, gather) at g))
    | inr (cs, f) ↦ ground arith
  ]
]

-- what is left to find after a code, whether it was new or not
fresh_old :
    (acc : List Text) (d : Text) (ds : List Text) {n : ℕ}
    → seen acc d ≡ true
    → n ≤ fresh acc (d ∷ ds)
    → n ≤ fresh acc ds
fresh_old acc d ds e h = rw e at h

fresh_new :
    (acc : List Text) (d : Text) (ds : List Text) {n : ℕ}
    → seen acc d ≡ false
    → suc n ≤ fresh acc (d ∷ ds)
    → n ≤ fresh (acc ++ d ∷ []) ds
fresh_new acc d ds e h = omega (arith, rw e at h)

batch_loop_ends :
    (make : ℕ → Option Text) (m n j : ℕ) (acc codes : List Text)
    → gather make m j ≡ some codes
    → n ≤ fresh acc codes
    → (cs : List Text) × (batch_loop make m n j acc ≡ cards cs)
unfolding batch_loop
batch_loop_ends make m zero j acc codes g h = (acc, refl)
batch_loop_ends make zero (suc n) j acc [] g h = absurd (omega arith)
batch_loop_ends make zero (suc n) j acc (d ∷ ds) g h = absurd (cc)
batch_loop_ends make (suc m) (suc n) j acc [] g h = absurd (omega arith)
batch_loop_ends make (suc m) (suc n) j acc (d ∷ ds) g h =
    let (made, rest) = gather_cons make m j d ds g in
    elim (Bool-cases (seen acc d)) [
      | inl dup ↦
          rw (made, dup, batch_loop)
            (batch_loop_ends make m (suc n) (suc j) acc ds rest (fresh_old acc d ds dup h))
      | inr new ↦
          rw (made, new, batch_loop)
            (batch_loop_ends make m n (suc j) (acc ++ d ∷ []) ds rest (fresh_new acc d ds new h))
    ]

module _ (draw : ℕ → Option ℕ) where
  -- Every batch that is returned has the number of cards that was asked for, from 1 to 100,000, no
  -- two of them equal, and `NormalizeCard` accepts each.
  pub generate_card_batch_sound :
      (fuel n : ℕ) (cs : List Text)
      → DrawsBelow draw
      → generate_card_batch draw fuel n ≡ cards cs
      → (length cs ≡ n)
        × (n ≤ 100000)
        × IsDistinct cs
        × All (λ c. is_some (normalize_card c) ≡ true) cs
  unfolding generate_card_batch
  generate_card_batch_sound fuel n cs below h = elim (Bool-cases (batch_size_ok n)) [
    | inl fits ↦
        let (size, distinct, good) =
          batch_loop_sound (λ j. generate_card_code draw (card_random_len * j))
            (λ c. is_some (normalize_card c) ≡ true) accepted fuel n 0 [] cs tt tt
            (rw (fits, generate_card_batch) at h) in
        (omega (arith, size), ground arith, distinct, good)
    | inr bad ↦ absurd (cc (rw (bad, generate_card_batch) at h))
  ]
    where
      accepted :
          (j : ℕ) (c : Text)
          → generate_card_code draw (card_random_len * j) ≡ some c
          → is_some (normalize_card c) ≡ true
      accepted j c e =
          let (t, _, norm) = generate-normalize draw below (card_random_len * j) c e in rw norm refl

  -- The loop ends: if the codes of the first `m` rounds are made without an error, and `n` of them
  -- differ from all before, then within `m` rounds a batch is returned.
  pub generate_card_batch_ends :
      (m n : ℕ) (codes : List Text)
      → batch_size_ok n ≡ true
      → gather (λ j. generate_card_code draw (card_random_len * j)) m 0 ≡ some codes
      → n ≤ fresh [] codes
      → (cs : List Text) × (generate_card_batch draw m n ≡ cards cs)
  unfolding generate_card_batch
  generate_card_batch_ends m n codes fits made h =
      let (cs, e) =
        batch_loop_ends (λ j. generate_card_code draw (card_random_len * j)) m n 0 [] codes made
          h in
      (cs, rw (fits, generate_card_batch) e)
