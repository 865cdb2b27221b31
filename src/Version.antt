-- ===== src/Version.antt =====
-- `CompareVersion` of apps/license-api/internal/service/service.go: dotted version numbers.
pub mod Numeric
use vertify_license_platform.Prelude.{
  ℕ, ◌+◌, ◌-◌, ◌*◌, ◌^◌, ◌≡◌, ◌≢◌, refl, Bool, true, false, ◌&&◌, not, List, [], ◌∷◌, map, ltb, leb,
  ◌==◌, if◌then◌else◌, all_of, Text, codes, is_empty, arith,
}

-- `strings.Split(s, ".")`
abbrev before_dot : ℕ → List Text → List Text
before_dot c [] = (c ∷ []) ∷ []
before_dot c (p ∷ ps) = (c ∷ p) ∷ ps

pub split_dots : Text → List Text
split_dots [] = [] ∷ []
split_dots (c ∷ s) = let rest = split_dots s in if c == b'.' then [] ∷ rest else before_dot c rest

abbrev is_digit : ℕ → Bool
is_digit c = leb b'0' c && leb c b'9'

-- `versionRe`, `^\d+(?:\.\d+)*$`: between the dots stand digits, and at least one.
unfoldable pub is_version : Text → Bool
unfolding split_dots
is_version s = all_of (λ p. not (is_empty p) && all_of is_digit p) (split_dots s)

abbrev max_int : ℕ
max_int = 2 ^ 63 - 1

digits_value : ℕ → Text → ℕ
digits_value n [] = n
digits_value n (c ∷ s) = digits_value (n * 10 + (c - b'0')) s

-- `strconv.Atoi` on digits, its error dropped: out of range it returns the largest `int`.
pub atoi : Text → ℕ
unfolding digits_value
atoi s = if ltb max_int (digits_value 0 s) then max_int else digits_value 0 s

-- the results -1, 0 and 1
pub data Sign : Type 0 where
  less equal greater : Sign

-- The loop over the parts; a part that one version lacks counts as 0.
compare_parts : List ℕ → List ℕ → Sign
compare_parts [] [] = equal
compare_parts [] (b ∷ bs) = let rest = compare_parts [] bs in if ltb 0 b then less else rest
compare_parts (a ∷ xs) [] = let rest = compare_parts xs [] in if ltb 0 a then greater else rest
compare_parts (a ∷ xs) (b ∷ bs) =
    let rest = compare_parts xs bs in if ltb a b then less else if ltb b a then greater else rest

unfoldable pub compare_version : Text → Text → Sign
unfolding is_version compare_parts split_dots atoi
compare_version a b =
    if is_version a && is_version b
    then compare_parts (map atoi (split_dots a)) (map atoi (split_dots b))
    else if is_version b
    then less
    else if is_version a
    then greater
    else equal

abbrev pub flip : Sign → Sign
flip less = greater
flip equal = equal
flip greater = less

compare_parts-flip : (a b : List ℕ) → compare_parts b a ≡ flip (compare_parts a b)
unfolding compare_parts
compare_parts-flip [] [] = refl
compare_parts-flip [] (b ∷ bs) = ground (arith, compare_parts-flip [] bs)
compare_parts-flip (a ∷ xs) [] = ground (arith, compare_parts-flip xs [])
compare_parts-flip (a ∷ xs) (b ∷ bs) = ground (arith, compare_parts-flip xs bs)

compare_parts_trans :
    (a b c : List ℕ)
    → compare_parts a b ≢ greater
    → compare_parts b c ≢ greater
    → compare_parts a c ≢ greater
unfolding compare_parts
compare_parts_trans [] [] c h k = k
compare_parts_trans [] (b ∷ bs) [] h k = ground arith
compare_parts_trans [] (b ∷ bs) (c ∷ cs) h k = ground (arith, compare_parts_trans [] bs cs)
compare_parts_trans (a ∷ xs) [] [] h k = h
compare_parts_trans (a ∷ xs) [] (c ∷ cs) h k = ground (arith, compare_parts_trans xs [] cs)
compare_parts_trans (a ∷ xs) (b ∷ bs) [] h k = ground (arith, compare_parts_trans xs bs [])
compare_parts_trans (a ∷ xs) (b ∷ bs) (c ∷ cs) h k = ground (arith, compare_parts_trans xs bs cs)

-- Swapping the versions turns the result round, and "not newer" is transitive: the comparison is a
-- total preorder on all texts. A text that is no version is below every one that is.
compare_version_order :
    ((a b : Text) → compare_version b a ≡ flip (compare_version a b))
    × ((a b c : Text)
        → compare_version a b ≢ greater
        → compare_version b c ≢ greater
        → compare_version a c ≢ greater)
    × ((a b : Text) → is_version a ≡ false → is_version b ≡ true → compare_version a b ≡ less)
unfolding compare_version
compare_version_order = (
  λ a b. ground (arith, compare_parts-flip (map atoi (split_dots a)) (map atoi (split_dots b))),
  λ a b c h k. ground (
    arith,
    compare_parts_trans (map atoi (split_dots a)) (map atoi (split_dots b))
        (map atoi (split_dots c)),
  ),
  λ a b h k. ground arith,
)

compare_test :
    (compare_version (codes "1.10") (codes "1.9.3") ≡ greater)
    × (compare_version (codes "1.2") (codes "1.2.0") ≡ equal)
    × (compare_version (codes "1..2") (codes "0") ≡ less)
unfolding compare_version
compare_test = (refl, refl, refl)
