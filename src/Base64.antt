-- ===== src/Base64.antt =====
-- `base64.RawURLEncoding` of Go's library, as an interface: decoding reads what encoding writes, which
-- is letters, digits, '-' and '_'.
use vertify_license_platform.Prelude.{
  ℕ, ◌≡◌, refl, Bool, true, false, ◌&&◌, ◌||◌, not, Option, some, [], ◌∷◌, leb, ◌==◌, all_of, Text,
  is_space, arith,
}

abbrev pub b64url_rune : ℕ → Bool
b64url_rune c =
    (leb b'A' c && leb c b'Z')
    || (leb b'a' c && leb c b'z')
    || (leb b'0' c && leb c b'9')
    || c == b'_'
    || c == b'-'

pub record Base64 : Type 0 where
  pub encode : Text → Text
  pub decode : Text → Option Text
  pub decode-encode : (s : Text) → decode (encode s) ≡ some s
  pub encode_runes : (s : Text) → all_of b64url_rune (encode s) ≡ true

b64url-not-is_space : (c : ℕ) → b64url_rune c ≡ true → is_space c ≡ false
unfolding is_space
b64url-not-is_space c h = ground (arith, h)

pub b64url_word : (s : Text) → all_of b64url_rune s ≡ true → all_of (λ c. not (is_space c)) s ≡ true
b64url_word [] h = refl
b64url_word (c ∷ s) h = ground (arith, h, b64url-not-is_space c, b64url_word s)

pub b64url_dotless :
    (s : Text) → all_of b64url_rune s ≡ true → all_of (λ c. not (c == b'.')) s ≡ true
b64url_dotless [] h = refl
b64url_dotless (c ∷ s) h = ground (arith, h, b64url_dotless s)
