-- ===== src/Token.antt =====
-- Signed tokens: `MintToken`, `VerifyToken` and `VerifyTokenWithType` of
-- apps/license-api/internal/crypto/sigtoken.go. JSON is an interface.
pub mod RoundTrip
use vertify_license_platform.Prelude.{
  ℕ, ◌+◌, ◌≡◌, Bool, true, false, ◌&&◌, not, Option, none, some, List, [], ◌∷◌, ltb, ◌==◌, length,
  Text, codes, text_eq, concat, ℤ, pos, negsuc, if◌then◌else◌,
}
use vertify_license_platform.Base64.{Base64}
use vertify_license_platform.Keys.{Ed25519, Signer}

-- `LeaseClaims`
pub record TokenClaims : Type 0 where
  pub typ : Text
  pub kid : Text
  pub jti : Text
  pub lic : Text
  pub prod : Text
  pub dev : Text
  pub feat : List Text
  pub iss : ℤ
  pub exp : ℤ
  pub lic_exp : ℤ
  pub pol : ℤ
  pub hbi : ℤ
  pub grace : ℤ
  pub status : Text
  pub min_ver : Text
  pub nonce : Text

-- `encoding/json` on the claims
pub record Json : Type 0 where
  pub marshal : TokenClaims → Text
  pub unmarshal : Text → Option TokenClaims

pub data TokenError : Type 0 where
  malformed bad_sig unknown_kid expired not_yet_valid wrong_type : TokenError

pub data Verified : Type 0 where
  valid : TokenClaims → Verified
  invalid : TokenError → Verified

-- `n < z`, for a time n
abbrev pub before : ℕ → ℤ → Bool
before n (pos m) = ltb n m
before n (negsuc m) = false

-- `n > z`
abbrev pub after : ℕ → ℤ → Bool
after n (pos m) = ltb m n
after n (negsuc m) = true

-- a text before the first of two parts
abbrev in_front : ℕ → List Text → List Text
in_front c [] = (c ∷ []) ∷ []
in_front c (p ∷ ps) = (c ∷ p) ∷ ps

-- `strings.Split(s, ".")`
unfoldable pub split_dots : Text → List Text
split_dots [] = [] ∷ []
split_dots (c ∷ s) = let rest = split_dots s in if c == b'.' then [] ∷ rest else in_front c rest

-- `TokenPrefix`
abbrev pub token_prefix : Text
token_prefix = codes "VLT1"

module _ (b : Base64) (j : Json) (ed : Ed25519) where
  open b use {encode, decode}
  open j use {marshal, unmarshal}
  open ed use {verify}

  -- `MintToken`, none for its errors
  unfoldable pub mint_token : Signer → TokenClaims → Option Text
  mint_token s c =
      let payload = encode (marshal (record c { kid = s.active_kid })) in
      elim (s.sign_active payload) [
        | none ↦ none
        | some (sig, kid) ↦
            if text_eq kid s.active_kid
            then some (concat (token_prefix ∷ codes "." ∷ payload ∷ codes "." ∷ encode sig ∷ []))
            else none
      ]

  -- the claims' times
  unfoldable pub check_times : ℕ → TokenClaims → Verified
  check_times now c =
      if after now c.exp
      then invalid expired
      else if before (now + 60) c.iss
      then invalid not_yet_valid
      else valid c

  -- the key and the signature over the payload as it was sent
  unfoldable pub check_signature : Signer → ℕ → Text → Text → TokenClaims → Verified
  unfolding check_times
  check_signature s now payload sig c = elim (s.public_key c.kid) [
    | none ↦ invalid unknown_kid
    | some pk ↦ if verify pk payload sig then check_times now c else invalid bad_sig
  ]

  -- the claims of a payload
  abbrev pub claims_of : Text → Option TokenClaims
  claims_of payload = elim (decode payload) [ none ↦ none | some raw ↦ unmarshal raw ]

  abbrev pub signature_of : Text → Option Text
  signature_of part = elim (decode part) [
    | none ↦ none
    | some sig ↦ if length sig == 64 then some sig else none
  ]

  unfoldable pub check_parts : Signer → ℕ → Text → Text → Text → Verified
  unfolding check_signature
  check_parts s now prefix payload last =
      if not (text_eq prefix token_prefix) then invalid malformed else elim (signature_of last) [
        | none ↦ invalid malformed
        | some sig ↦ elim (claims_of payload) [
          | none ↦ invalid malformed
          | some c ↦ check_signature s now payload sig c
        ]
      ]

  abbrev pub verify_parts : Signer → ℕ → List Text → Verified
  verify_parts s now (prefix ∷ (payload ∷ (last ∷ []))) = check_parts s now prefix payload last
  verify_parts s now _ = invalid malformed

  -- `VerifyToken`, at a time in seconds
  unfoldable pub verify_token : Signer → Text → ℕ → Verified
  unfolding split_dots check_parts
  verify_token s token now = verify_parts s now (split_dots token)

  abbrev pub of_type : Text → Verified → Verified
  of_type typ (invalid e) = invalid e
  of_type typ (valid c) = if text_eq c.typ typ then valid c else invalid wrong_type

  -- `VerifyTokenWithType`
  unfoldable pub verify_token_with_type : Signer → Text → Text → ℕ → Verified
  unfolding verify_token
  verify_token_with_type s token typ now = of_type typ (verify_token s token now)
