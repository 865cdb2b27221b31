-- ===== src/CardCode.antt =====
-- apps/license-api/internal/crypto/cardcode.go: card codes in their two forms, and their making.
-- `crypto/rand` is a parameter: `draw k` is the outcome of the k-th call of `rand.Int`, an index
-- below 32 or nothing where the generator failed.
pub mod Alphabet
pub mod Normalize
pub mod Generate
pub mod Batch
use vertify_license_platform.Prelude.{
  ℕ, zero, suc, ◌+◌, ◌-◌, ◌*◌, ◌%◌, Bool, true, false, ◌&&◌, ◌||◌, Option, none, some, List, [],
  ◌∷◌, ◌++◌, ltb, leb, ◌==◌, if◌then◌else◌, length, take, drop, Text, codes, text_eq, to_upper,
  trim_space, contains_rune,
}

abbrev pub card_alphabet : Text
card_alphabet = codes "ABCDEFGHJKLMNPQRSTUVWXYZ23456789"

abbrev pub card_random_len : ℕ
card_random_len = 26

abbrev pub card_group_first : ℕ
card_group_first = 5

abbrev pub card_groups : ℕ
card_groups = 5

-- `r == '-' || r == ' ' || r == '_'`
abbrev pub is_separator : ℕ → Bool
is_separator r = r == b'-' || r == b' ' || r == b'_'

-- The loop of `NormalizeCard`; `none` is `ErrCardFormat`.
pub clean : Text → Option Text
clean [] = some []
clean (r ∷ s) =
    let rest = clean s in
    if is_separator r
    then rest
    else if contains_rune card_alphabet r
    then elim rest [ none ↦ none | some out ↦ some (r ∷ out) ]
    else none

abbrev if_full : Text → Option Text
if_full out = if length out == card_random_len then some out else none

unfoldable pub normalize_card : Text → Option Text
unfolding clean
normalize_card input = elim (clean (to_upper (trim_space input))) [
  | none ↦ none
  | some out ↦ if_full out
]

-- The loop of `FormatCard`, and of `GenerateCardCodeWithPrefix`, from position `i` on.
unfoldable pub format_from : ℕ → Text → Text
format_from i [] = []
format_from i (r ∷ s) =
    let rest = r ∷ format_from (suc i) s in
    if ltb 0 i && i % card_group_first == 0 then b'-' ∷ rest else rest

unfoldable pub format_card : Text → Text
unfolding format_from
format_card normalized = format_from 0 normalized

-- The loop of `GenerateCardCode`, which stops grouping after `cardGroups - 1` dashes.
unfoldable pub group_from : ℕ → ℕ → Text → Text
group_from i group [] = []
group_from i group (c ∷ s) =
    let dashed = b'-' ∷ c ∷ group_from (suc i) (suc group) s in
    let plain = c ∷ group_from (suc i) group s in
    if ltb 0 i && i % card_group_first == 0 && ltb group (card_groups - 1) then dashed else plain

-- `CardAlphabet[n]`
abbrev pub letter : ℕ → Text → ℕ
letter n [] = 0
letter zero (c ∷ s) = c
letter (suc n) (c ∷ s) = letter n s

module _ (draw : ℕ → Option ℕ) where
  -- `for i := range buf`, `n` characters from call `k` on; `none` is `ErrCardRandom`.
  unfoldable pub random_text : ℕ → ℕ → Option Text
  random_text zero k = some []
  random_text (suc n) k =
      let rest = random_text n (suc k) in
      elim (draw k) [
        | none ↦ none
        | some i ↦ elim rest [ none ↦ none | some out ↦ some (letter i card_alphabet ∷ out) ]
      ]

  -- `GenerateCardCode`, whose first call of the generator is the k-th.
  unfoldable pub generate_card_code : ℕ → Option Text
  unfolding random_text group_from
  generate_card_code k = elim (random_text card_random_len k) [
    | none ↦ none
    | some buf ↦ some (group_from 0 0 buf)
  ]

-- `for _, r := range prefix { if !strings.ContainsRune(CardAlphabet, r) … }`
unfoldable pub in_alphabet : Text → Bool
in_alphabet [] = true
in_alphabet (r ∷ s) = contains_rune card_alphabet r && in_alphabet s

-- `ValidateCardPrefix`; `none` is `ErrCardFormat`. Its byte length is its length wherever the
-- characters pass, and where they do not the outcome is the same.
unfoldable pub validate_card_prefix : Text → Option Text
unfolding in_alphabet
validate_card_prefix prefix =
    let p = to_upper (trim_space prefix) in
    if ltb 8 (length p)
    then none
    else if in_alphabet p
    then (if ltb (card_random_len - 16) (length p) then none else some p)
    else none

module _ (draw : ℕ → Option ℕ) where
  -- The body of `GenerateCardCodeWithPrefix` after the validation.
  unfoldable pub generate_with_prefix : Text → ℕ → Option Text
  unfolding format_from
  generate_with_prefix p k = elim (random_text draw (card_random_len - length p) k) [
    | none ↦ none
    | some buf ↦ some (format_from 0 (p ++ buf))
  ]

  unfoldable pub generate_card_code_with_prefix : Text → ℕ → Option Text
  unfolding validate_card_prefix generate_with_prefix
  generate_card_code_with_prefix prefix k = elim (validate_card_prefix prefix) [
    | none ↦ none
    | some p ↦ generate_with_prefix p k
  ]

-- `_, dup := seen[c]`
unfoldable pub seen : List Text → Text → Bool
seen [] c = false
seen (d ∷ ds) c = text_eq d c || seen ds c

-- How making a batch ends: `refused` is an argument out of range, `failed` an error of the random
-- source, and `spent` stands for a loop that still runs after the rounds that the fuel allows.
pub data Outcome : Type 0 where
  cards : List Text → Outcome
  refused failed spent : Outcome

-- The loop `for len(cards) < n` of the two batch functions, over the codes that its rounds
-- generate: `make j` is the code of round `j`. `acc` is `cards`, and `seen` has the same members.
unfoldable pub batch_loop : (ℕ → Option Text) → ℕ → ℕ → ℕ → List Text → Outcome
batch_loop make fuel zero j acc = cards acc
batch_loop make zero (suc n) j acc = spent
batch_loop make (suc fuel) (suc n) j acc =
    let again = batch_loop make fuel (suc n) (suc j) acc in
    let more = λ (c : Text). batch_loop make fuel n (suc j) (acc ++ c ∷ []) in
    elim (make j) [ none ↦ failed | some c ↦ if seen acc c then again else more c ]

-- `n <= 0 || n > 100_000`
abbrev pub batch_size_ok : ℕ → Bool
batch_size_ok n = ltb 0 n && leb n 100000

module _ (draw : ℕ → Option ℕ) where
  -- `GenerateCardBatch`: round `j` makes the calls from `26 * j` on.
  unfoldable pub generate_card_batch : ℕ → ℕ → Outcome
  unfolding batch_loop
  generate_card_batch fuel n =
      if batch_size_ok n
      then batch_loop (λ j. generate_card_code draw (card_random_len * j)) fuel n 0 []
      else refused

  -- `GenerateCardBatchWithPrefix`: a round makes one call for each character after the prefix.
  unfoldable pub generate_card_batch_with_prefix : ℕ → ℕ → Text → Outcome
  unfolding batch_loop
  generate_card_batch_with_prefix fuel n prefix =
      if batch_size_ok n
      then elim (validate_card_prefix prefix) [
        | none ↦ refused
        | some p ↦
            batch_loop
              (λ j. generate_card_code_with_prefix draw p ((card_random_len - length p) * j)) fuel n
              0 []
      ]
      else refused

-- `CardPrefix`
unfoldable pub card_prefix : Text → Text
card_prefix normalized =
    if ltb (length normalized) card_group_first
    then normalized
    else take card_group_first normalized

-- `MaskCard`
unfoldable pub mask_card : Text → Text
mask_card normalized =
    if ltb (length normalized) (card_group_first + 2)
    then codes "***"
    else take card_group_first normalized
      ++ (codes "-****" ++ drop (length normalized - 2) normalized)
