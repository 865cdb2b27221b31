-- ===== src/CardCode/Alphabet.antt =====
-- What the characters of the card alphabet have in common: `strings.TrimSpace` and
-- `strings.ToUpper` leave a code as it is, with or without its dashes.
use mathlib.Core.List.{reverse-cons, reverse-reverse}
use mathlib.Core.Path.{ap₂}
use vertify_license_platform.Prelude.{
  ℕ, ◌≡◌, refl, Bool, true, false, ◌&&◌, not, [], ◌∷◌, reverse, ◌==◌, all_of, all_of-append, Text,
  to_upper, to_upper_rune, is_space, trim_left, trim_space, contains_rune, ==_iff, arith,
}
use vertify_license_platform.CardCode.{card_alphabet, is_separator}

&&_left : (a b : Bool) → (a && b) ≡ true → a ≡ true
&&_left a b h = ground arith

&&_right : (a b : Bool) → (a && b) ≡ true → b ≡ true
&&_right a b h = ground arith

not-true : (b : Bool) → not b ≡ true → b ≡ false
not-true b h = ground arith

-- What passes a test on every member of a text passes it wherever the text has the character.
contains_all :
    (p : ℕ → Bool) (xs : Text) (c : ℕ) → all_of p xs ≡ true → contains_rune xs c ≡ true → p c ≡ true
unfolding contains_rune
contains_all p [] c h m = ground arith
contains_all p (x ∷ xs) c h m = ground (arith, contains_all p xs c)

pub is_steady : ℕ → Bool
unfolding is_space
is_steady c = (to_upper_rune c == c) && not (is_space c)

to_upper_rune_steady : (c : ℕ) → is_steady c ≡ true → to_upper_rune c ≡ c
unfolding is_steady
to_upper_rune_steady c h = (==_iff _ c).0 (&&_left _ _ h)

steady-not-is_space : (c : ℕ) → is_steady c ≡ true → is_space c ≡ false
unfolding is_steady
steady-not-is_space c h = not-true _ (&&_right _ _ h)

is_card_char : ℕ → Bool
unfolding is_steady
is_card_char c = is_steady c && not (is_separator c)

card_char : (c : ℕ) → contains_rune card_alphabet c ≡ true → is_card_char c ≡ true
unfolding is_card_char
card_char c h = contains_all is_card_char card_alphabet c refl h

-- A character of the alphabet is upper case and no blank.
pub card_char_steady : (c : ℕ) → contains_rune card_alphabet c ≡ true → is_steady c ≡ true
unfolding is_card_char
card_char_steady c h = &&_left _ _ (card_char c h)

pub card_char_no_separator : (c : ℕ) → contains_rune card_alphabet c ≡ true → is_separator c ≡ false
unfolding is_card_char
card_char_no_separator c h = not-true _ (&&_right (is_steady c) _ (card_char c h))

pub to_upper_steady : (s : Text) → all_of is_steady s ≡ true → to_upper s ≡ s
to_upper_steady [] h = refl
to_upper_steady (c ∷ s) h =
    ap₂ ◌∷◌ (to_upper_rune_steady c (&&_left _ _ h)) (to_upper_steady s (&&_right _ _ h))

trim_left_steady : (s : Text) → all_of is_steady s ≡ true → trim_left s ≡ s
unfolding trim_left
trim_left_steady [] h = refl
trim_left_steady (c ∷ s) h = rw (steady-not-is_space c (&&_left _ _ h))

steady_reverse : (s : Text) → all_of is_steady s ≡ true → all_of is_steady (reverse s) ≡ true
steady_reverse [] h = refl
steady_reverse (c ∷ s) h =
    rw (reverse-cons c s, all_of-append is_steady (reverse s) (c ∷ []))
      (ground (arith, steady_reverse s))

pub trim_space_steady : (s : Text) → all_of is_steady s ≡ true → trim_space s ≡ s
unfolding trim_space
trim_space_steady s h =
    rw (trim_left_steady s h, trim_left_steady (reverse s) (steady_reverse s h), reverse-reverse s)

pub dash_steady : is_steady b'-' ≡ true
unfolding is_steady
dash_steady = refl
