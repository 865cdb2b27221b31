-- ===== src/SignIn/Totp.antt =====
-- Time-based codes: `TOTPAt` and `VerifyTOTP` of apps/license-api/internal/crypto/totp.go, with the
-- decoding of base32 and HMAC-SHA-1 as parameters. A sum of SHA-1 has twenty bytes, so that every
-- byte that is read is there.
use vertify_license_platform.Prelude.{
  ℕ, zero, suc, ◌+◌, ◌-◌, ◌*◌, ◌/◌, ◌%◌, ◌^◌, ◌≡◌, refl, Bool, true, false, not, Option, none, some,
  List, [], ◌∷◌, ◌↔◌, ◌⊎◌, inl, inr, Bool-cases, Option-cases, if◌then◌else◌, ◌==◌, Text, text_eq,
  text_eq_iff, byte_len, arith,
}

-- the byte at an index
abbrev byte_at : ℕ → List ℕ → ℕ
byte_at i [] = 0
byte_at zero (b ∷ bs) = b
byte_at (suc i) (b ∷ bs) = byte_at i bs

abbrev last_byte : List ℕ → ℕ
last_byte [] = 0
last_byte (b ∷ []) = b
last_byte (b ∷ c ∷ bs) = last_byte (c ∷ bs)

-- `binary.BigEndian.PutUint64`
unfoldable pub put_uint64 : ℕ → List ℕ
put_uint64 n =
    (n / 256 ^ 7) % 256
    ∷ (n / 256 ^ 6) % 256
    ∷ (n / 256 ^ 5) % 256
    ∷ (n / 256 ^ 4) % 256
    ∷ (n / 256 ^ 3) % 256
    ∷ (n / 256 ^ 2) % 256
    ∷ (n / 256) % 256
    ∷ n % 256
    ∷ []

-- the number that is read at an offset, without its highest bit
unfoldable pub truncated : List ℕ → ℕ
truncated sum =
    let off = last_byte sum % 16 in
    (byte_at off sum % 128) * 2 ^ 24
    + byte_at (off + 1) sum * 2 ^ 16
    + byte_at (off + 2) sum * 2 ^ 8
    + byte_at (off + 3) sum

abbrev digit : ℕ → ℕ
digit n = b'0' + n % 10

-- `fmt.Sprintf("%06d", n)` for a number below a million
unfoldable pub six_digits : ℕ → Text
six_digits n =
    digit (n / 100000)
    ∷ digit (n / 10000)
    ∷ digit (n / 1000)
    ∷ digit (n / 100)
    ∷ digit (n / 10)
    ∷ digit n
    ∷ []

module _ (decode : Text → Option (List ℕ)) (hmac_sha1 : List ℕ → List ℕ → List ℕ) where
  -- `TOTPAt`
  unfoldable pub totp_at : Text → ℕ → Option Text
  unfolding put_uint64 truncated six_digits
  totp_at secret counter = elim (decode secret) [
    | none ↦ none
    | some key ↦ some (six_digits (truncated (hmac_sha1 key (put_uint64 counter)) % 1000000))
  ]

  -- `uint64(int64(counter)+d)` for the three shifts, with the wrap below 0
  abbrev counters : ℕ → List ℕ
  counters c = (c + 2 ^ 64 - 1) % 2 ^ 64 ∷ c ∷ (c + 1) % 2 ^ 64 ∷ []

  -- the loop over the shifts
  unfoldable pub any_matches : Text → Text → List ℕ → Bool
  unfolding totp_at
  any_matches secret code [] = false
  any_matches secret code (c ∷ cs) =
      let rest = any_matches secret code cs in
      elim (totp_at secret c) [
        | none ↦ false
        | some want ↦ if text_eq want code then true else rest
      ]

  -- `VerifyTOTP`
  unfoldable pub verify_totp : Text → Text → ℕ → Bool
  unfolding any_matches
  verify_totp secret code now =
      if not (byte_len code == 6) then false else any_matches secret code (counters (now / 30))

  digit_len : (n : ℕ) (s : Text) (k : ℕ) → byte_len s ≡ k → byte_len (digit n ∷ s) ≡ suc k
  unfolding byte_len
  digit_len n s k h = ground (arith, h)

  empty : byte_len [] ≡ 0
  unfolding byte_len
  empty = refl

  six : (n : ℕ) → byte_len (six_digits n) ≡ 6
  unfolding six_digits
  six n = digit_len (n / 100000) _ 5 (
      digit_len (n / 10000) _ 4 (
        digit_len (n / 1000) _ 3
          (digit_len (n / 100) _ 2 (digit_len (n / 10) _ 1 (digit_len n [] 0 empty)))))

  coded : (secret : Text) (c : ℕ) (code : Text) → totp_at secret c ≡ some code → byte_len code ≡ 6
  unfolding totp_at
  coded secret c code h = elim (Option-cases (decode secret)) [
    | inl e ↦ absurd (grind (arith, e, h))
    | inr (key, e) ↦ ground (arith, e, h, six (truncated (hmac_sha1 key (put_uint64 c)) % 1000000))
  ]

  -- whether a counter has the code
  abbrev pub HasCode : Text → Text → ℕ → Type 0
  HasCode secret code c = totp_at secret c ≡ some code

  abbrev AnyOf : Text → Text → ℕ → ℕ → ℕ → Type 0
  AnyOf secret code x y z = HasCode secret code x ⊎ (HasCode secret code y ⊎ HasCode secret code z)

  three :
      (secret code : Text) (x y z : ℕ)
      → (any_matches secret code (x ∷ y ∷ z ∷ []) ≡ true) ↔ AnyOf secret code x y z
  unfolding any_matches totp_at
  three secret code x y z = elim (Option-cases (decode secret)) [
    | inl e ↦ ground (arith, e)
    | inr (key, e) ↦
        let code_of : ℕ → Text =
          λ c. six_digits (truncated (hmac_sha1 key (put_uint64 c)) % 1000000) in
        ground (
          arith,
          e,
          text_eq_iff (code_of x) code,
          text_eq_iff (code_of y) code,
          text_eq_iff (code_of z) code,
        )
  ]

  any_coded :
      (secret code : Text) (x y z : ℕ) → AnyOf secret code x y z → (byte_len code == 6) ≡ true
  any_coded secret code x y z h =
      ground (arith, h, coded secret x code, coded secret y code, coded secret z code)

  -- A code is accepted at a time if and only if it is the code of the counter of that time, thirty
  -- seconds long, or of the counter before or after it.
  pub verify_totp_iff :
      (secret code : Text) (now : ℕ)
      → (verify_totp secret code now ≡ true) ↔ (
          HasCode secret code ((now / 30 + 2 ^ 64 - 1) % 2 ^ 64)
          ⊎ (HasCode secret code (now / 30) ⊎ HasCode secret code ((now / 30 + 1) % 2 ^ 64)))
  unfolding verify_totp
  verify_totp_iff secret code now =
      let before = (now / 30 + 2 ^ 64 - 1) % 2 ^ 64 in
      let after = (now / 30 + 1) % 2 ^ 64 in
      let all = three secret code before (now / 30) after in
      elim (Bool-cases (byte_len code == 6)) [
        | inl b ↦ (λ h. all.0 (ground (arith, b, h)), λ h. ground (arith, b, all.1 h))
        | inr b ↦ (
          λ h. absurd (grind (arith, b, h)),
          λ h. absurd (grind (arith, b, any_coded secret code before (now / 30) after h)),
        )
      ]
