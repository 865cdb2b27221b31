-- ===== src/CardCode/Normalize.antt =====
-- `NormalizeCard` and `FormatCard` of apps/license-api/internal/crypto/cardcode.go.
use vertify_license_platform.Prelude.{
  ℕ, suc, ◌≡◌, refl, inl, inr, true, some, [], ◌∷◌, length, all_of, Text, to_upper, trim_space,
  Option-cases, arith,
}
use vertify_license_platform.CardCode.{
  card_random_len, clean, normalize_card, if_full, format_from, format_card, in_alphabet,
}
use vertify_license_platform.CardCode.Alphabet.{
  dash_steady, is_steady, card_char_steady, card_char_no_separator, to_upper_steady,
  trim_space_steady,
}

clean-in_alphabet : (s t : Text) → clean s ≡ some t → in_alphabet t ≡ true
unfolding clean in_alphabet
clean-in_alphabet [] t h = ground arith
clean-in_alphabet (r ∷ s) [] h = refl
clean-in_alphabet (r ∷ s) (c ∷ t) h = elim (Option-cases (clean s)) [
  | inl e ↦ ground arith
  | inr (u, e) ↦ ground (arith, clean-in_alphabet s u e)
]

-- A card that `NormalizeCard` accepts comes out with exactly 26 characters, all of the alphabet.
normalize_card_sound :
    (s t : Text) → normalize_card s ≡ some t → (length t ≡ card_random_len) × (in_alphabet t ≡ true)
unfolding normalize_card
normalize_card_sound s t h = elim (Option-cases (clean (to_upper (trim_space s)))) [
  | inl e ↦ ground arith
  | inr (u, e) ↦ ground (arith, clean-in_alphabet (to_upper (trim_space s)) u e)
]

-- A text that the trimming and the upper-casing leave alone is normalised by the loop alone.
pub normalize_steady :
    (s t : Text) → all_of is_steady s ≡ true → clean s ≡ some t → normalize_card s ≡ if_full t
unfolding normalize_card
normalize_steady s t h e = rw (trim_space_steady s h, to_upper_steady s h, e, normalize_card)

pub in_alphabet-clean : (t : Text) → in_alphabet t ≡ true → clean t ≡ some t
unfolding in_alphabet clean
in_alphabet-clean [] h = refl
in_alphabet-clean (c ∷ t) h = ground (arith, in_alphabet-clean t, card_char_no_separator c)

pub in_alphabet-steady : (t : Text) → in_alphabet t ≡ true → all_of is_steady t ≡ true
unfolding in_alphabet
in_alphabet-steady [] h = refl
in_alphabet-steady (c ∷ t) h = ground (arith, in_alphabet-steady t, card_char_steady c)

pub format_from-clean : (i : ℕ) (t : Text) → in_alphabet t ≡ true → clean (format_from i t) ≡ some t
unfolding in_alphabet clean format_from
format_from-clean i [] h = refl
format_from-clean i (c ∷ t) h =
    ground (arith, format_from-clean (suc i) t, card_char_no_separator c)

pub format_from-steady :
    (i : ℕ) (t : Text) → in_alphabet t ≡ true → all_of is_steady (format_from i t) ≡ true
unfolding in_alphabet format_from
format_from-steady i [] h = refl
format_from-steady i (c ∷ t) h =
    ground (arith, format_from-steady (suc i) t, card_char_steady c, dash_steady)

-- What `NormalizeCard` makes of any input, `FormatCard` prints with dashes, and `NormalizeCard`
-- reads back, from the printed form and from the bare one alike.
pub normalize-format :
    (s t : Text)
    → normalize_card s ≡ some t
    → (normalize_card (format_card t) ≡ some t) × (normalize_card t ≡ some t)
unfolding format_card
normalize-format s t h =
    let (full, good) = normalize_card_sound s t h in
    (
      ground (
        arith,
        normalize_steady (format_from 0 t) t (format_from-steady 0 t good)
            (format_from-clean 0 t good),
      ),
      ground (arith, normalize_steady t t (in_alphabet-steady t good) (in_alphabet-clean t good)),
    )
