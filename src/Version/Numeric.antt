-- ===== src/Version/Numeric.antt =====
-- What `CompareVersion` of apps/license-api/internal/service/service.go compares: the numbers between
-- the dots, one after another.
use vertify_license_platform.Prelude.{
  ℕ, suc, zero, ◌<◌, ◌≡◌, ◌↔◌, true, List, [], ◌∷◌, map, ltb, Bool-cases, inl, inr, Text, arith,
}
use vertify_license_platform.Version.{
  split_dots, atoi, is_version, less, greater, compare_parts, compare_parts-flip, compare_version,
}

-- the numbers of a version, each at most the largest `int`
abbrev pub numbers : Text → List ℕ
numbers v = map atoi (split_dots v)

-- the number at a place; those that a version lacks are 0
abbrev pub part : ℕ → List ℕ → ℕ
part i [] = 0
part zero (a ∷ xs) = a
part (suc i) (a ∷ xs) = part i xs

-- There is a place at which the first has the smaller number, and all the places before it agree.
abbrev pub IsBelow : List ℕ → List ℕ → Type 0
IsBelow xs ys = (i : ℕ) × ((j : ℕ) → j < i → part j xs ≡ part j ys) × (part i xs < part i ys)

-- the places before the next
agree :
    (xs ys : List ℕ) (i : ℕ)
    → part 0 xs ≡ part 0 ys
    → ((j : ℕ) → j < i → part (suc j) xs ≡ part (suc j) ys)
    → (j : ℕ) → j < suc i
    → part j xs ≡ part j ys
agree xs ys i first rest zero lt = first
agree xs ys i first rest (suc j) lt = rest j (omega arith)

less-IsBelow : (xs ys : List ℕ) → compare_parts xs ys ≡ less → IsBelow xs ys
unfolding compare_parts
less-IsBelow [] [] h = absurd (grind (arith, h))
less-IsBelow [] (b ∷ ys) h = elim (Bool-cases (ltb 0 b)) [
  | inl e ↦ (0, λ j lt. absurd (omega arith), ground (arith, e))
  | inr e ↦
      let (i, same, lt) = less-IsBelow [] ys (ground (arith, e, h)) in
      (suc i, agree [] (b ∷ ys) i (ground (arith, e)) same, lt)
]
less-IsBelow (a ∷ xs) [] h = elim (Bool-cases (ltb 0 a)) [
  | inl e ↦ absurd (grind (arith, e, h))
  | inr e ↦
      let (i, same, lt) = less-IsBelow xs [] (ground (arith, e, h)) in
      (suc i, agree (a ∷ xs) [] i (ground (arith, e)) same, lt)
]
less-IsBelow (a ∷ xs) (b ∷ ys) h = elim (Bool-cases (ltb a b)) [
  | inl e ↦ (0, λ j lt. absurd (omega arith), ground (arith, e))
  | inr e ↦ elim (Bool-cases (ltb b a)) [
    | inl e' ↦ absurd (grind (arith, e, e', h))
    | inr e' ↦
        let (i, same, lt) = less-IsBelow xs ys (ground (arith, e, e', h)) in
        (suc i, agree (a ∷ xs) (b ∷ ys) i (ground (arith, e, e')) same, lt)
  ]
]

IsBelow-less :
    (xs ys : List ℕ) (i : ℕ)
    → ((j : ℕ) → j < i → part j xs ≡ part j ys)
    → part i xs < part i ys
    → compare_parts xs ys ≡ less
unfolding compare_parts
IsBelow-less [] [] i same lt = absurd (omega (arith, lt))
IsBelow-less [] (b ∷ ys) zero same lt = ground (arith, lt)
IsBelow-less [] (b ∷ ys) (suc i) same lt =
    ground (arith, same 0, IsBelow-less [] ys i (λ j below. same (suc j) (omega (arith, below))) lt)
IsBelow-less (a ∷ xs) [] zero same lt = absurd (omega (arith, lt))
IsBelow-less (a ∷ xs) [] (suc i) same lt =
    ground (arith, same 0, IsBelow-less xs [] i (λ j below. same (suc j) (omega (arith, below))) lt)
IsBelow-less (a ∷ xs) (b ∷ ys) zero same lt = ground (arith, lt)
IsBelow-less (a ∷ xs) (b ∷ ys) (suc i) same lt =
    ground (arith, same 0, IsBelow-less xs ys i (λ j below. same (suc j) (omega (arith, below))) lt)

-- One version is below another exactly if, at the first place where their numbers differ, it has the
-- smaller number; it is above exactly if the other is below it. The numbers are what stands between
-- the dots, those that are missing are 0, and those that are too large are the largest `int`.
pub compare_version_numeric :
    (a b : Text)
    → is_version a ≡ true
    → is_version b ≡ true
    → ((compare_version a b ≡ less) ↔ IsBelow (numbers a) (numbers b))
      × ((compare_version a b ≡ greater) ↔ IsBelow (numbers b) (numbers a))
unfolding compare_version
compare_version_numeric a b va vb =
    let below = less-IsBelow (numbers a) (numbers b) in
    let above = less-IsBelow (numbers b) (numbers a) in
    let turned = compare_parts-flip (numbers a) (numbers b) in
    (
      (
        λ h. below (ground (arith, va, vb, h)),
        λ (i, same, lt). ground (arith, va, vb, IsBelow-less (numbers a) (numbers b) i same lt),
      ),
      (
        λ h. above (ground (arith, va, vb, h, turned)),
        λ (i, same, lt).
            ground (arith, va, vb, turned, IsBelow-less (numbers b) (numbers a) i same lt),
      ),
    )
