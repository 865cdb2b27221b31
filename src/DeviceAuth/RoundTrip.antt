-- ===== src/DeviceAuth/RoundTrip.antt =====
-- `ParseDeviceSignature` reads what `Header` prints (apps/license-api/internal/service/httpsig.go).
use vertify_license_platform.Prelude.{
  ℕ, ◌≡◌, refl, sym, ap, ◌∙◌, true, false, not, some, List, [], ◌∷◌, ◌++◌, reverse, is_empty, ltb,
  length, all_of, all_of-append, Text, codes, text_eq, trim_left, trim_space, is_space, ℤ, digits,
  print_int, digits_all, is_digit, pos, negsuc, suc, parse_int-print, FitsInt64, arith,
}
use mathlib.Core.List.{reverse-cons, reverse-reverse, reverse-append, append_assoc}
use vertify_license_platform.DeviceAuth.Fields.{
  is_word, cut, fields, join, append_nil, AreWords, fields-join,
}
use vertify_license_platform.Base64.{Base64, b64url_word}
use vertify_license_platform.DeviceAuth.{
  DeviceSignature, is_negative, is_complete, set_field, set_fields, parse_fields,
  parse_device_signature, header,
}

-- What `Header` prints so that it can be read: words that are not empty, a time that is not 0, numbers
-- of 64 bits, the second not negative, and a signature of 8 bytes or more.
pub record IsPrintable (ds : DeviceSignature) : Type 0 where
  pub pub_word : is_word ds.pub_key ≡ true
  pub nonce_word : is_word ds.nonce ≡ true
  pub complete : is_complete ds ≡ true
  pub ts_fits : FitsInt64 ds.ts
  pub seq_fits : FitsInt64 ds.seq
  pub seq_sign : is_negative ds.seq ≡ false
  pub sig_length : ltb (length ds.sig) 8 ≡ false

reverse_word : (w : Text) → is_word w ≡ true → is_word (reverse w) ≡ true
reverse_word [] h = refl
reverse_word (c ∷ w) h =
    rw (reverse-cons c w, all_of-append (λ c. not (is_space c)) (reverse w) (c ∷ []))
      (ground (arith, h, reverse_word w))

-- a text that begins with a word is not trimmed on the left
steady_left : (w s : Text) → is_word w ≡ true → is_empty w ≡ false → trim_left (w ++ s) ≡ w ++ s
unfolding trim_left
steady_left [] s h some_rune = ground (arith, some_rune)
steady_left (c ∷ w) s h some_rune =
    let first : is_space c ≡ false = ground (arith, h) in ground (arith, first)

append_some : (s : Text) (c : ℕ) → is_empty (s ++ c ∷ []) ≡ false
append_some [] c = refl
append_some (d ∷ s) c = refl

reverse_some : (c : ℕ) (w : Text) → is_empty (reverse (c ∷ w)) ≡ false
reverse_some c w = rw (reverse-cons c w) (append_some (reverse w) c)

-- joined words end with a word
last_word :
    (w : Text) (ws : List Text)
    → AreWords (w ∷ ws)
    → (t : Text) × (c : ℕ) × (u : Text) × (join (w ∷ ws) ≡ t ++ c ∷ u) × (is_word (c ∷ u) ≡ true)
last_word [] [] (_, some_rune, _) = absurd (ground (arith, some_rune))
last_word (c ∷ u) [] (word, _, _) = ([], c, u, refl, word)
last_word w (v ∷ ws) (_, _, rest) =
    let (t, c, u, e, word) = last_word v ws rest in
    (w ++ b' ' ∷ t, c, u, ap (λ x. w ++ b' ' ∷ x) e ∙ sym (append_assoc w (b' ' ∷ t) (c ∷ u)), word)

trim_left-join :
    (w : Text) (ws : List Text) → AreWords (w ∷ ws) → trim_left (join (w ∷ ws)) ≡ join (w ∷ ws)
trim_left-join w [] (word, some_rune, _) =
    ap trim_left (sym (append_nil w)) ∙ steady_left w [] word some_rune ∙ append_nil w
trim_left-join w (v ∷ ws) (word, some_rune, _) = steady_left w (b' ' ∷ join (v ∷ ws)) word some_rune

trim_right :
    (t : Text) (c : ℕ) (u : Text)
    → is_word (c ∷ u) ≡ true
    → trim_left (reverse (t ++ c ∷ u)) ≡ reverse (t ++ c ∷ u)
trim_right t c u word =
    rw (reverse-append t (c ∷ u))
      (steady_left (reverse (c ∷ u)) (reverse t) (reverse_word (c ∷ u) word) (reverse_some c u))

trim_space-join :
    (w : Text) (ws : List Text) → AreWords (w ∷ ws) → trim_space (join (w ∷ ws)) ≡ join (w ∷ ws)
unfolding trim_space
trim_space-join w ws h =
    let (t, c, u, e, word) = last_word w ws h in
    ap (λ x. reverse (trim_left (reverse x))) (trim_left-join w ws h)
    ∙ ap (λ x. reverse (trim_left (reverse x))) e
    ∙ ap reverse (trim_right t c u word)
    ∙ reverse-reverse (t ++ c ∷ u)
    ∙ sym e

digit-not-is_space : (c : ℕ) → is_digit c ≡ true → is_space c ≡ false
unfolding is_space
digit-not-is_space c h = ground (arith, h)

digits_word : (s : Text) → all_of is_digit s ≡ true → is_word s ≡ true
digits_word [] h = refl
digits_word (c ∷ s) h = ground (arith, h, digit-not-is_space c, digits_word s)

print_int_word : (z : ℤ) → is_word (print_int z) ≡ true
unfolding print_int is_space
print_int_word (pos n) = digits_word (digits 19 n) (digits_all 19 n)
print_int_word (negsuc n) = digits_word (digits 19 (suc n)) (digits_all 19 (suc n))

module _ (b : Base64) where
  open b use {encode, decode, decode-encode, encode_runes}

  -- the words of the header
  abbrev entries : DeviceSignature → List Text
  entries ds =
      (codes "pub=" ++ ds.pub_key)
      ∷ (codes "ts=" ++ print_int ds.ts)
      ∷ (codes "nonce=" ++ ds.nonce)
      ∷ (codes "seq=" ++ print_int ds.seq)
      ∷ (codes "sig=" ++ encode ds.sig)
      ∷ []

  abbrev words : DeviceSignature → List Text
  words ds = codes "v1" ∷ entries ds

  header-join : (ds : DeviceSignature) → header b ds ≡ join (words ds)
  unfolding header
  header-join ds = refl

  words-AreWords : (ds : DeviceSignature) → IsPrintable ds → AreWords (words ds)
  unfolding is_space
  words-AreWords ds can = (
    refl,
    refl,
    (
      can.pub_word,
      refl,
      (
        print_int_word ds.ts,
        refl,
        (
          can.nonce_word,
          refl,
          (
            print_int_word ds.seq,
            refl,
            (b64url_word (encode ds.sig) (encode_runes ds.sig), refl, tt),
          ),
        ),
      ),
    ),
  )

  set_words : (ds : DeviceSignature) → IsPrintable ds → parse_fields b (words ds) ≡ some ds
  unfolding set_fields set_field cut text_eq
  set_words ds can = ground (
    arith,
    can.complete,
    parse_int-print ds.ts can.ts_fits,
    parse_int-print ds.seq can.seq_fits,
    can.seq_sign,
    can.sig_length,
    decode-encode ds.sig,
  )

  -- A header is read back as it was printed, all five entries of it, if its key and its nonce are words
  -- without blanks and not empty, its time is not 0, its numbers are of 64 bits, the sequence number is
  -- not negative, and the signature has 8 bytes or more.
  pub parse_device_signature-header :
      (ds : DeviceSignature) → IsPrintable ds → parse_device_signature b (header b ds) ≡ some ds
  unfolding parse_device_signature
  parse_device_signature-header ds can =
      let good = words-AreWords ds can in
      ap (λ x. parse_fields b (fields (trim_space x))) (header-join ds)
      ∙ ap (λ x. parse_fields b (fields x)) (trim_space-join (codes "v1") (entries ds) good)
      ∙ ap (parse_fields b) (fields-join (words ds) good)
      ∙ set_words ds can
