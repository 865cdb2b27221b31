-- ===== src/Prelude/Decimal.antt =====
-- Decimal numbers: `%d` of the fmt package and `strconv.ParseInt(s, 10, 64)`, as documented.
use Prim.Native.Nat.{ℕ, zero, suc, ◌+◌, ◌-◌, ◌*◌, ◌/◌, ◌%◌, ◌^◌, ◌<◌}
use mathlib.Core.Path.{◌≡◌, refl, sym, ap, ◌∙◌}
use mathlib.Core.Logic.{inl, inr}
use mathlib.Core.Bool.{Bool, true, false, ◌&&◌}
use mathlib.Core.Option.{Option, none, some}
use mathlib.Core.List.{[], ◌∷◌, ◌++◌}
use native.Mathlib.Omega.{arith}
use vertify_license_platform.Prelude.Tests.{Bool-cases, ◌==◌, ltb, leb, if◌then◌else◌}
use vertify_license_platform.Prelude.Lists.{all_of, all_of-append}
use vertify_license_platform.Prelude.Strings.{Text}

pub data ℤ : Type 0 where
  pos : ℕ → ℤ
  negsuc : ℕ → ℤ

-- the decimal digits of a number below `10 ^ places`
unfoldable pub digits : ℕ → ℕ → Text
digits zero n = []
digits (suc places) n = elim (ltb n 10) [
  | true ↦ (b'0' + n) ∷ []
  | false ↦ digits places (n / 10) ++ (b'0' + n % 10) ∷ []
]

-- `%d` of an int64, whose 19 digits are enough
unfoldable pub print_int : ℤ → Text
unfolding digits
print_int (pos n) = digits 19 n
print_int (negsuc n) = b'-' ∷ digits 19 (suc n)

abbrev pub is_digit : ℕ → Bool
is_digit c = leb b'0' c && leb c b'9'

-- the number that digits spell behind `n`
unfoldable pub value : ℕ → Text → ℕ
value n [] = n
value n (c ∷ s) = value (n * 10 + (c - b'0')) s

-- one digit or more
unfoldable pub parse_digits : Text → Option ℕ
unfolding value
parse_digits [] = none
parse_digits (c ∷ s) = if all_of is_digit (c ∷ s) then some (value 0 (c ∷ s)) else none

abbrev pub non_negative : Option ℕ → Option ℤ
non_negative none = none
non_negative (some n) = if ltb n (2 ^ 63) then some (pos n) else none

abbrev minus : ℕ → ℤ
minus zero = pos 0
minus (suc n) = negsuc n

abbrev pub negative : Option ℕ → Option ℤ
negative none = none
negative (some n) = if leb n (2 ^ 63) then some (minus n) else none

-- `strconv.ParseInt(s, 10, 64)`, none for its errors
unfoldable pub parse_int : Text → Option ℤ
unfolding parse_digits
parse_int [] = none
parse_int (c ∷ s) =
    if c == b'-'
    then negative (parse_digits s)
    else if c == b'+'
    then non_negative (parse_digits s)
    else non_negative (parse_digits (c ∷ s))

value-append : (n : ℕ) (s : Text) (c : ℕ) → value n (s ++ c ∷ []) ≡ value n s * 10 + (c - b'0')
unfolding value
value-append n [] c = refl
value-append n (d ∷ s) c = value-append (n * 10 + (d - b'0')) s c

value-digits : (places n : ℕ) → n < 10 ^ places → value 0 (digits places n) ≡ n
unfolding digits value
value-digits zero n h = omega (arith, h)
value-digits (suc places) n h = ground (
  arith,
  h,
  value-digits places (n / 10),
  value-append 0 (digits places (n / 10)) (b'0' + n % 10),
)

pub digits_all : (places n : ℕ) → all_of is_digit (digits places n) ≡ true
unfolding digits
digits_all zero n = refl
digits_all (suc places) n = ground (
  arith,
  digits_all places (n / 10),
  all_of-append is_digit (digits places (n / 10)) ((b'0' + n % 10) ∷ []),
)

append_some : (s : Text) (c : ℕ) → (d : ℕ) × (t : Text) × (s ++ c ∷ [] ≡ d ∷ t)
append_some [] c = (c, [], refl)
append_some (d ∷ s) c = (d, s ++ c ∷ [], refl)

-- the digits of a number begin with one
digits_some : (places n : ℕ) → (c : ℕ) × (s : Text) × (digits (suc places) n ≡ c ∷ s)
unfolding digits
digits_some places n = elim (Bool-cases (ltb n 10)) [
  | inl e ↦ (b'0' + n, [], ground (arith, e))
  | inr e ↦
      let (c, s, q) = append_some (digits places (n / 10)) (b'0' + n % 10) in
      (c, s, ground (arith, e, q))
]

parse_digits-digits :
    (places n : ℕ) → n < 10 ^ suc places → parse_digits (digits (suc places) n) ≡ some n
unfolding parse_digits
parse_digits-digits places n h =
    let (c, s, q) = digits_some places n in
    let all = digits_all (suc places) n in
    let exact = value-digits (suc places) n h in ground (arith, q, all, exact)

-- an int64
abbrev pub FitsInt64 : ℤ → Type 0
FitsInt64 (pos n) = n < 2 ^ 63
FitsInt64 (negsuc n) = n < 2 ^ 63

unsigned :
    (s : Text) (c : ℕ) (u : Text)
    → s ≡ c ∷ u
    → all_of is_digit s ≡ true
    → parse_int s ≡ non_negative (parse_digits s)
unfolding parse_int
unsigned s c u q all =
    let digit : is_digit c ≡ true = ground (arith, q, all) in
    let plain : parse_int (c ∷ u) ≡ non_negative (parse_digits (c ∷ u)) = ground (arith, digit) in
    ap parse_int q ∙ plain ∙ ap (λ x. non_negative (parse_digits x)) (sym q)

-- An int64 is read back from its print.
pub parse_int-print : (z : ℤ) → FitsInt64 z → parse_int (print_int z) ≡ some z
unfolding parse_int print_int
parse_int-print (pos n) h =
    let (c, s, q) = digits_some 18 n in
    let fits : non_negative (some n) ≡ some (pos n) = ground (arith, h) in
    unsigned (digits 19 n) c s q (digits_all 19 n)
    ∙ ap non_negative (parse_digits-digits 18 n (omega (arith, h)))
    ∙ fits
parse_int-print (negsuc n) h =
    let fits : negative (some (suc n)) ≡ some (negsuc n) = ground (arith, h) in
    ap negative (parse_digits-digits 18 (suc n) (omega (arith, h))) ∙ fits
