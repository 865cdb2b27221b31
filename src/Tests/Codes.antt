-- ===== src/Tests/Codes.antt =====
-- Card codes at concrete inputs.
use vertify_license_platform.Prelude.{
  ℕ, ◌≤◌, ◌*◌, ◌%◌, ◌≡◌, ◌↔◌, refl, true, Option, none, some, List, [], ◌∷◌, is_some, length, All,
  Text, codes, text_eq, trim_space, trim_left, is_space, contains_rune, arith,
}
use vertify_license_platform.Version.{is_version, less, greater, compare_version}
use vertify_license_platform.Version.Numeric.{IsBelow, numbers, compare_version_numeric}
use vertify_license_platform.CardCode.{
  card_random_len, normalize_card, format_card, generate_card_code, random_text,
  generate_card_code_with_prefix, cards, seen, generate_card_batch, mask_card,
}
use vertify_license_platform.CardCode.Normalize.{normalize-format}
use vertify_license_platform.CardCode.Generate.{DrawsBelow}
use vertify_license_platform.CardCode.Batch.{
  IsDistinct, generate_card_batch_sound, generate_card_batch_ends,
}

abbrev typed : Text
typed = codes "  abcde-fghjk-lmnpq-rstuv-wxyz2-3 "

abbrev code : Text
code = codes "ABCDEFGHJKLMNPQRSTUVWXYZ23"

typed_normalized : normalize_card typed ≡ some code
unfolding normalize_card trim_space trim_left is_space contains_rune
typed_normalized = refl

zero_for_o : normalize_card (codes "0BCDE-FGHJK-LMNPQ-RSTUV-WXYZ2-3") ≡ none
unfolding normalize_card trim_space trim_left is_space contains_rune
zero_for_o = refl

masked : mask_card code ≡ codes "ABCDE-****23"
unfolding mask_card
masked = refl

-- a source that steps through the indices
abbrev stepping : ℕ → Option ℕ
stepping k = some (k * 7 % 32)

stepping-DrawsBelow : DrawsBelow stepping
stepping-DrawsBelow k i h = ground arith

abbrev drawn : Text
drawn = codes "AHQX6DLT29GPW5CKSZ8FNV4BJR"

abbrev printed : Text
printed = codes "AHQX6-DLT29-GPW5C-KSZ8F-NV4BJR"

abbrev printed_next : Text
printed_next = codes "Y7EMU-3AHQX-6DLT2-9GPW5-CKSZ8F"

drawn_text : random_text stepping card_random_len 0 ≡ some drawn
unfolding random_text
drawn_text = refl

printed_code : generate_card_code stepping 0 ≡ some printed
unfolding generate_card_code
printed_code = refl

normalize-format_example :
    (normalize_card (format_card code) ≡ some code) × (normalize_card code ≡ some code)
normalize-format_example = normalize-format typed code typed_normalized

abbrev prefixed : Text
prefixed = codes "VXAHQ-X6DLT-29GPW-5CKSZ-8FNV4-B"

prefixed_code : generate_card_code_with_prefix stepping (codes " vx") 0 ≡ some prefixed
unfolding generate_card_code_with_prefix random_text trim_space trim_left is_space contains_rune
prefixed_code = refl

batch_of_two : generate_card_batch stepping 2 2 ≡ cards (printed ∷ printed_next ∷ [])
unfolding generate_card_batch generate_card_code seen text_eq
batch_of_two = refl

generate_card_batch_sound_example :
    (length (printed ∷ printed_next ∷ []) ≡ 2)
    × (2 ≤ 100000)
    × IsDistinct (printed ∷ printed_next ∷ [])
    × All (λ c. is_some (normalize_card c) ≡ true) (printed ∷ printed_next ∷ [])
generate_card_batch_sound_example =
    generate_card_batch_sound stepping 2 2 (printed ∷ printed_next ∷ []) stepping-DrawsBelow
      batch_of_two

-- two rounds suffice for two cards from this source
generate_card_batch_ends_example : (cs : List Text) × (generate_card_batch stepping 2 2 ≡ cards cs)
unfolding generate_card_code seen text_eq
generate_card_batch_ends_example =
    generate_card_batch_ends stepping 2 2 (printed ∷ printed_next ∷ []) refl refl (omega arith)

compare_version_numeric_example :
    ((compare_version (codes "1.9.3") (codes "1.10") ≡ less)
      ↔ IsBelow (numbers (codes "1.9.3")) (numbers (codes "1.10")))
    × ((compare_version (codes "1.9.3") (codes "1.10") ≡ greater)
        ↔ IsBelow (numbers (codes "1.10")) (numbers (codes "1.9.3")))
unfolding is_version
compare_version_numeric_example = compare_version_numeric (codes "1.9.3") (codes "1.10") refl refl
