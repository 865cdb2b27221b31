-- ===== src/Token/RoundTrip.antt =====
-- What is minted is verified, and what is verified was signed
-- (apps/license-api/internal/crypto/sigtoken.go).
use vertify_license_platform.Prelude.{
  ℕ, ◌+◌, ◌≡◌, refl, sym, ap, ◌∙◌, ◌⊎◌, Bool, true, false, not, some, inl, inr, Option-cases,
  Bool-cases, List, [], ◌∷◌, ◌++◌, ◌==◌, length, all_of, Text, text_eq, text_eq_self, text_eq_iff,
  if◌then◌else◌, arith,
}
use mathlib.Core.Path.{subst⁻¹}
use vertify_license_platform.Base64.{Base64, b64url_dotless}
use vertify_license_platform.Keys.{
  Ed25519, Signer, LocalSigner, signer_of, lookup, new_local_signer, active_loaded,
}
use vertify_license_platform.Token.{
  expired, not_yet_valid, TokenClaims, TokenError, Json, Verified, valid, invalid, token_prefix,
  split_dots, mint_token, check_times, check_signature, claims_of, check_parts, verify_parts,
  verify_token, verify_token_with_type, before, after,
}

Verified-cases :
    (v : Verified) → ((c : TokenClaims) × (v ≡ valid c)) ⊎ ((e : TokenError) × (v ≡ invalid e))
Verified-cases (valid c) = inl (c, refl)
Verified-cases (invalid e) = inr (e, refl)

abbrev dotless : Text → Bool
dotless = all_of (λ c. not (c == b'.'))

split_last : (s : Text) → dotless s ≡ true → split_dots s ≡ s ∷ []
unfolding split_dots
split_last [] h = refl
split_last (c ∷ s) h = ground (arith, h, split_last s)

split_first : (s t : Text) → dotless s ≡ true → split_dots (s ++ b'.' ∷ t) ≡ s ∷ split_dots t
unfolding split_dots
split_first [] t h = refl
split_first (c ∷ s) t h = ground (arith, h, split_first s t)

module _ (b : Base64) (j : Json) (ed : Ed25519) where
  open b use {encode, decode, decode-encode, encode_runes}
  open j use {marshal, unmarshal}
  open ed use {verify, public_of, sign, verify-sign, length-sign}

  -- the three parts of a token
  parts :
      (payload last : Text)
      → split_dots (token_prefix ++ (b'.' ∷ (encode payload ++ b'.' ∷ encode last)))
        ≡ token_prefix ∷ encode payload ∷ encode last ∷ []
  parts payload last =
      split_first token_prefix (encode payload ++ b'.' ∷ encode last) refl
      ∙ ap (λ ps. token_prefix ∷ ps)
          (split_first (encode payload) (encode last)
            (b64url_dotless (encode payload) (encode_runes payload)))
      ∙ ap (λ ps. token_prefix ∷ encode payload ∷ ps)
          (split_last (encode last) (b64url_dotless (encode last) (encode_runes last)))

  -- the token of some claims under a key
  abbrev token_of : Text → TokenClaims → Text
  token_of seed c =
      let payload = marshal c in
      token_prefix ++ (b'.' ∷ (encode payload ++ b'.' ∷ encode (sign seed (encode payload))))

  minted :
      (l : LocalSigner) (seed : Text) (c : TokenClaims)
      → lookup l.active l.keys ≡ some seed
      → mint_token b j ed (signer_of ed l) c ≡ some (token_of seed (record c { kid = l.active }))
  unfolding mint_token signer_of
  minted l seed c key = ground (arith, key, text_eq_self l.active)

  -- the token's signature is that of its key
  checked :
      (l : LocalSigner) (seed : Text) (c : TokenClaims) (now : ℕ)
      → lookup c.kid l.keys ≡ some seed
      → check_signature b j ed
          (signer_of ed l)
          now
          (encode (marshal c))
          (sign seed (encode (marshal c)))
          c
        ≡ check_times b j ed now c
  unfolding check_signature signer_of
  checked l seed c now key = ground (arith, key, verify-sign seed (encode (marshal c)))

  verified :
      (l : LocalSigner) (seed : Text) (c : TokenClaims) (now : ℕ)
      → lookup c.kid l.keys ≡ some seed
      → unmarshal (marshal c) ≡ some c
      → verify_token b j ed (signer_of ed l) (token_of seed c) now ≡ check_times b j ed now c
  unfolding verify_token check_parts
  verified l seed c now key readable =
      let payload = encode (marshal c) in
      let sig = sign seed payload in
      let whole : check_parts b j ed (signer_of ed l) now token_prefix payload (encode sig)
          ≡ check_signature b j ed (signer_of ed l) now payload sig c =
        ground (
          arith,
          text_eq_self token_prefix,
          decode-encode sig,
          length-sign seed payload,
          decode-encode (marshal c),
          readable,
        ) in
      ap (verify_parts b j ed (signer_of ed l) now) (parts (marshal c) sig)
      ∙ whole
      ∙ checked l seed c now key

  -- A signer made of valid keys signs any claims that JSON reads back, and the token is verified as these claims under the
  -- signer's active key: valid until they expire and from a minute before they are issued, and
  -- otherwise refused for just that.
  pub verify-mint :
      (ks : List (Text × Text)) (active : Text) (l : LocalSigner) (c : TokenClaims) (now : ℕ)
      → new_local_signer b ks active ≡ some l
      → unmarshal (marshal (record c { kid = active })) ≡ some (record c { kid = active })
      → (token : Text) × (mint_token b j ed (signer_of ed l) c ≡ some token)
        × (verify_token b j ed (signer_of ed l) token now ≡ (
            if after now c.exp
            then invalid expired
            else if before (now + 60) c.iss
            then invalid not_yet_valid
            else valid (record c { kid = active })))
  unfolding check_times
  verify-mint ks active l c now made readable =
      let (same, there) = active_loaded b ks active l made in
      elim (Option-cases (lookup l.active l.keys)) [
        | inl e ↦ absurd (grind (arith, e, there))
        | inr (seed, e) ↦ (
          token_of seed (record c { kid = l.active }),
          minted l seed c e,
          verified l seed (record c { kid = l.active }) now e
                (subst⁻¹
                  (λ k. unmarshal (marshal (record c { kid = k })) ≡ some (record c { kid = k }))
                  same readable)
              ∙ ap (λ k. check_times b j ed now (record c { kid = k })) same,
        )
      ]

  -- the outcomes of the check of times
  in_time :
      (now : ℕ) (c c' : TokenClaims)
      → check_times b j ed now c ≡ valid c'
      → (c ≡ c') × (after now c'.exp ≡ false) × (before (now + 60) c'.iss ≡ false)
  unfolding check_times
  in_time now c c' h = ground (arith, h)

  -- the parts of a token that is accepted
  pub record IsSigned (s : Signer) (token : Text) (now : ℕ) (c : TokenClaims) : Type 0 where
    pub payload : Text
    pub last : Text
    pub sig : Text
    pub key : Text
    pub split : split_dots token ≡ token_prefix ∷ payload ∷ last ∷ []
    pub content : claims_of b j ed payload ≡ some c
    pub signature : decode last ≡ some sig
    pub known : s.public_key c.kid ≡ some key
    pub signed : verify key payload sig ≡ true
    pub unexpired : after now c.exp ≡ false
    pub issued : before (now + 60) c.iss ≡ false

  accepted_parts :
      (s : Signer) (token prefix payload last sig : Text) (now : ℕ) (c c' : TokenClaims)
      → split_dots token ≡ prefix ∷ payload ∷ last ∷ []
      → text_eq prefix token_prefix ≡ true
      → decode last ≡ some sig
      → claims_of b j ed payload ≡ some c'
      → check_signature b j ed s now payload sig c' ≡ valid c
      → IsSigned s token now c
  unfolding check_signature
  accepted_parts s token prefix payload last sig now c c' split e e₁ e₃ h =
      elim (Option-cases (s.public_key c'.kid)) [
        | inl f ↦ absurd (grind (arith, f, h))
        | inr (pk, f) ↦ elim (Bool-cases (verify pk payload sig)) [
          | inr f₁ ↦ absurd (grind (arith, f, f₁, h))
          | inl f₁ ↦
              let (same, unexpired, issued) = in_time now c' c (ground (arith, f, f₁, h)) in
              record {
                payload = payload;
                last = last;
                sig = sig;
                key = pk;
                split =
                    split
                    ∙ ap (λ p. p ∷ payload ∷ last ∷ []) ((text_eq_iff prefix token_prefix).0 e);
                content = e₃ ∙ ap some same;
                signature = e₁;
                known = ap (λ x. s.public_key x.kid) (sym same) ∙ f;
                signed = f₁;
                unexpired = unexpired;
                issued = issued;
              }
        ]
      ]

  check_parts_sound :
      (s : Signer) (token prefix payload last : Text) (now : ℕ) (c : TokenClaims)
      → split_dots token ≡ prefix ∷ payload ∷ last ∷ []
      → check_parts b j ed s now prefix payload last ≡ valid c
      → IsSigned s token now c
  unfolding check_parts check_signature
  check_parts_sound s token prefix payload last now c split h =
      elim (Bool-cases (text_eq prefix token_prefix)) [
        | inr e ↦ absurd (grind (arith, e, h))
        | inl e ↦ elim (Option-cases (decode last)) [
          | inl e₁ ↦ absurd (grind (arith, e, e₁, h))
          | inr (sig, e₁) ↦ elim (Bool-cases (length sig == 64)) [
            | inr e₂ ↦ absurd (grind (arith, e, e₁, e₂, h))
            | inl e₂ ↦ elim (Option-cases (claims_of b j ed payload)) [
              | inl e₃ ↦ absurd (grind (arith, e, e₁, e₂, e₃, h))
              | inr (c', e₃) ↦
                  accepted_parts s token prefix payload last sig now c c' split e e₁ e₃
                    (ground (arith, e, e₁, e₂, e₃, h))
            ]
          ]
        ]
      ]

  split_sound :
      (s : Signer) (token : Text) (now : ℕ) (c : TokenClaims) (ps : List Text)
      → split_dots token ≡ ps
      → verify_parts b j ed s now ps ≡ valid c
      → IsSigned s token now c
  split_sound s token now c [] split h = absurd (ground (arith, h))
  split_sound s token now c (p ∷ []) split h = absurd (ground (arith, h))
  split_sound s token now c (p ∷ (q ∷ [])) split h = absurd (ground (arith, h))
  split_sound s token now c (p ∷ (q ∷ (r ∷ []))) split h =
      check_parts_sound s token p q r now c split h
  split_sound s token now c (p ∷ (q ∷ (r ∷ (x ∷ xs)))) split h = absurd (ground (arith, h))

  -- Whatever token is accepted as one of a type was signed: its second part carries the signature of a
  -- key that the signer knows under the token's key ID, its claims are those of that part and of the
  -- type, and the time lies in their window.
  pub verify_token_with_type_sound :
      (s : Signer) (token typ : Text) (now : ℕ) (c : TokenClaims)
      → verify_token_with_type b j ed s token typ now ≡ valid c
      → IsSigned s token now c × (c.typ ≡ typ)
  unfolding verify_token_with_type verify_token
  verify_token_with_type_sound s token typ now c h =
      elim (Verified-cases (verify_token b j ed s token now)) [
        | inr (x, e) ↦ absurd (grind (arith, e, h))
        | inl (c', e) ↦ elim (Bool-cases (text_eq c'.typ typ)) [
          | inr e' ↦ absurd (grind (arith, e, e', h))
          | inl e' ↦
              let same : c' ≡ c = ground (arith, e, e', h) in
              (
                split_sound s token now c (split_dots token) refl (e ∙ ap valid same),
                ap (λ x. x.typ) (sym same) ∙ (text_eq_iff c'.typ typ).0 e',
              )
        ]
      ]
