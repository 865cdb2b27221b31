-- ===== src/CardCode/Generate.antt =====
-- `GenerateCardCode`, `ValidateCardPrefix` and `GenerateCardCodeWithPrefix` of
-- apps/license-api/internal/crypto/cardcode.go, under what `crypto/rand` documents of `rand.Int`.
use vertify_license_platform.Prelude.{
  ℕ, zero, suc, ◌-◌, ◌≤◌, ◌<◌, ◌≡◌, refl, ap, ◌∙◌, inl, inr, true, Option, some, [], ◌∷◌, ◌++◌,
  length, length-append, replicate, all_of, Text, to_upper, trim_space, contains_rune, Option-cases,
  arith,
}
use vertify_license_platform.CardCode.{
  card_alphabet, card_random_len, clean, normalize_card, format_from, format_card, group_from,
  letter, random_text, generate_card_code, in_alphabet, validate_card_prefix, generate_with_prefix,
  generate_card_code_with_prefix,
}
use vertify_license_platform.CardCode.Alphabet.{
  is_steady, card_char_steady, card_char_no_separator, dash_steady,
}
use vertify_license_platform.CardCode.Normalize.{
  normalize_steady, format_from-clean, format_from-steady,
}

-- `rand.Int(rand.Reader, 32)` returns an index below 32, or an error.
abbrev pub DrawsBelow : (ℕ → Option ℕ) → Type 0
DrawsBelow draw = (k i : ℕ) → draw k ≡ some i → i < 32

letter_below : (n i : ℕ) (s : Text) → length s ≡ n → i < n → contains_rune s (letter i s) ≡ true
unfolding contains_rune
letter_below n i [] e h = absurd (omega arith)
letter_below n zero (c ∷ s) e h = ground arith
letter_below n (suc i) (c ∷ s) e h = ground (arith, letter_below (length s) i s refl (omega arith))

group_from-clean : (i g : ℕ) (t : Text) → in_alphabet t ≡ true → clean (group_from i g t) ≡ some t
unfolding in_alphabet clean group_from
group_from-clean i g [] h = refl
group_from-clean i g (c ∷ t) h = ground (
  arith,
  group_from-clean (suc i) g t,
  group_from-clean (suc i) (suc g) t,
  card_char_no_separator c,
)

group_from-steady :
    (i g : ℕ) (t : Text) → in_alphabet t ≡ true → all_of is_steady (group_from i g t) ≡ true
unfolding in_alphabet group_from
group_from-steady i g [] h = refl
group_from-steady i g (c ∷ t) h = ground (
  arith,
  group_from-steady (suc i) g t,
  group_from-steady (suc i) (suc g) t,
  card_char_steady c,
  dash_steady,
)

in_alphabet-append :
    (s t : Text) → in_alphabet s ≡ true → in_alphabet t ≡ true → in_alphabet (s ++ t) ≡ true
unfolding in_alphabet
in_alphabet-append [] t h k = k
in_alphabet-append (c ∷ s) t h k = ground (arith, in_alphabet-append s t)

pub validate_card_prefix_sound :
    (s p : Text)
    → validate_card_prefix s ≡ some p
    → (length p ≤ 8) × (in_alphabet p ≡ true) × (p ≡ to_upper (trim_space s))
unfolding validate_card_prefix
validate_card_prefix_sound s p h = ground arith

module _ (draw : ℕ → Option ℕ) (below : DrawsBelow draw) where
  random_text_sound :
      (n k : ℕ) (t : Text) → random_text draw n k ≡ some t → (length t ≡ n) × (in_alphabet t ≡ true)
  unfolding random_text in_alphabet
  random_text_sound zero k t h = ground arith
  random_text_sound (suc n) k [] h = ground arith
  random_text_sound (suc n) k (c ∷ t) h = elim (Option-cases (draw k)) [
    | inl e ↦ ground arith
    | inr (i, e) ↦ elim (Option-cases (random_text draw n (suc k))) [
      | inl f ↦ ground arith
      | inr (u, f) ↦ ground (
        arith,
        random_text_sound n (suc k) u f,
        letter_below 32 i card_alphabet refl (below k i e),
      )
    ]
  ]

  -- A generated code is accepted by `NormalizeCard`, which reads the 26 characters that were drawn.
  pub generate-normalize :
      (k : ℕ) (c : Text)
      → generate_card_code draw k ≡ some c
      → (t : Text) × (random_text draw card_random_len k ≡ some t) × (normalize_card c ≡ some t)
  unfolding generate_card_code
  generate-normalize k c h = elim (Option-cases (random_text draw card_random_len k)) [
    | inl e ↦ ground arith
    | inr (t, e) ↦
        let (full, good) = random_text_sound card_random_len k t e in
        (
          t,
          e,
          ground (
            arith,
            normalize_steady (group_from 0 0 t) t (group_from-steady 0 0 t good)
                (group_from-clean 0 0 t good),
          ),
        )
  ]

  read_prefixed :
      (p : Text) (k : ℕ) (c : Text)
      → length p ≤ 8
      → in_alphabet p ≡ true
      → generate_with_prefix draw p k ≡ some c
      → (s : Text) × (normalize_card c ≡ some (p ++ s))
  unfolding generate_with_prefix
  read_prefixed p k c short good h =
      elim (Option-cases (random_text draw (card_random_len - length p) k)) [
        | inl e ↦ ground arith
        | inr (s, e) ↦
            let (size, fine) = random_text_sound (card_random_len - length p) k s e in
            let both = in_alphabet-append p s good fine in
            (
              s,
              ground (
                arith,
                length-append p s,
                normalize_steady (format_from 0 (p ++ s)) (p ++ s)
                    (format_from-steady 0 (p ++ s) both) (format_from-clean 0 (p ++ s) both),
              ),
            )
      ]

  -- A code made with a valid prefix is accepted by `NormalizeCard`, and what it reads begins with
  -- the prefix as `ValidateCardPrefix` spells it, which has at most 8 characters.
  generate_with_prefix-normalize :
      (prefix : Text) (k : ℕ) (c : Text)
      → generate_card_code_with_prefix draw prefix k ≡ some c
      → (p s : Text) × (validate_card_prefix prefix ≡ some p)
        × (length p ≤ 8)
        × (normalize_card c ≡ some (p ++ s))
  unfolding generate_card_code_with_prefix
  generate_with_prefix-normalize prefix k c h = elim (Option-cases (validate_card_prefix prefix)) [
    | inl e ↦ absurd (cc (rw (e, generate_card_code_with_prefix) at h))
    | inr (p, e) ↦
        let (short, good, _) = validate_card_prefix_sound prefix p e in
        let (s, n) = read_prefixed p k c short good (rw (e, generate_card_code_with_prefix) at h) in
        (p, s, e, short, n)
  ]

-- The number of characters that grouping adds depends on the length alone.
length-group_from :
    (i g : ℕ) (t : Text)
    → length (group_from i g t) ≡ length (group_from i g (replicate (length t) 0))
unfolding group_from
length-group_from i g [] = refl
length-group_from i g (c ∷ t) =
    ground (arith, length-group_from (suc i) g t, length-group_from (suc i) (suc g) t)

length-format_from :
    (i : ℕ) (t : Text) → length (format_from i t) ≡ length (format_from i (replicate (length t) 0))
unfolding format_from
length-format_from i [] = refl
length-format_from i (c ∷ t) = ground (arith, length-format_from (suc i) t)

-- The two printed forms of a card differ: with its 26 characters, `GenerateCardCode` prints four
-- dashes and `FormatCard`, like `GenerateCardCodeWithPrefix`, five.
printed_lengths :
    (t : Text)
    → length t ≡ card_random_len
    → (length (group_from 0 0 t) ≡ 30) × (length (format_card t) ≡ 31)
unfolding format_card group_from
printed_lengths t h = (
  length-group_from 0 0 t ∙ ap (λ n. length (group_from 0 0 (replicate n 0))) h,
  length-format_from 0 t ∙ ap (λ n. length (format_from 0 (replicate n 0))) h,
)
