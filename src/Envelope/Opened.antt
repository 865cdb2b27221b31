-- ===== src/Envelope/Opened.antt =====
-- What is sealed opens, for its purpose only (apps/license-api/internal/crypto/envelope.go).
use vertify_license_platform.Prelude.{
  ◌≡◌, refl, sym, ◌∙◌, true, false, none, some, List, [], ◌∷◌, ◌++◌, is_empty, ◌==◌, length, Text,
  text_eq, arith,
}
use vertify_license_platform.Base64.{Base64}
use vertify_license_platform.Envelope.{
  Envelope, KexKey, Alg, aes_gcm, xc20p, alg_name, alg_of, EnvelopeJson, X25519, Aead, plain,
  failed, not_decrypted, aad_context, envelope_aad, with_kid, candidates, derive_envelope_key,
  seal_envelope, try_keys, open_parts, open_envelope,
}

text_eq-prefix : (s t u : Text) → text_eq (s ++ t) (s ++ u) ≡ text_eq t u
unfolding text_eq
text_eq-prefix [] t u = refl
text_eq-prefix (c ∷ s) t u = ground (arith, text_eq-prefix s t u)

-- another purpose makes other additional data
aad_differs :
    (kid alg p q : Text)
    → text_eq p q ≡ false
    → text_eq (envelope_aad kid alg (aad_context p)) (envelope_aad kid alg (aad_context q)) ≡ false
unfolding envelope_aad text_eq
aad_differs kid alg p q other =
    text_eq-prefix kid (b'|' ∷ (alg ++ b'|' ∷ aad_context p)) (b'|' ∷ (alg ++ b'|' ∷ aad_context q))
    ∙ text_eq-prefix alg (b'|' ∷ aad_context p) (b'|' ∷ aad_context q)
    ∙ other

alg_of-alg_name : (a : Alg) → alg_of (alg_name a) ≡ some a
unfolding text_eq
alg_of-alg_name aes_gcm = refl
alg_of-alg_name xc20p = refl

module _ (b : Base64) (j : EnvelopeJson) (x : X25519) (h : Aead) where
  open b use {encode, decode, decode-encode}
  open x use {public_of, ecdh, length-public_of, ecdh_comm}
  open h use {nonce_size, seal, open_sealed, open-seal, other_data}

  -- The keys, and what a client seals with one of them: the key is the only one of its ID, and the
  -- exchange and the nonce are good.
  pub record IsSealed (keys : List KexKey) (k : KexKey) (eph shared : Text) (alg : Alg)
      (nonce : Text) : Type 0 where
    pub named : is_empty k.kid ≡ false
    pub only : with_kid k.kid keys ≡ k ∷ []
    pub exchange : ecdh eph (public_of k.priv) ≡ some shared
    pub size : (length nonce == nonce_size alg) ≡ true

  -- the key that both sides derive
  abbrev secret : KexKey → Text → Text → Text
  secret k eph shared = derive_envelope_key b j x h shared (public_of eph) (public_of k.priv)

  abbrev sealed_text : KexKey → Text → Text → Alg → Text → Text → Text → Text
  sealed_text k eph shared alg nonce pt purpose =
      seal alg (secret k eph shared) nonce pt
        (envelope_aad k.kid (alg_name alg) (aad_context purpose))

  abbrev envelope_of : KexKey → Text → Text → Alg → Text → Text → Text → Envelope
  envelope_of k eph shared alg nonce pt purpose = record {
    kid = k.kid;
    alg = alg_name alg;
    epk = encode (public_of eph);
    nonce = encode nonce;
    ct = encode (sealed_text k eph shared alg nonce pt purpose);
  }

  -- with the only candidate, the AEAD decides
  tried :
      (keys : List KexKey) (k : KexKey) (eph shared : Text) (alg : Alg) (nonce ct context : Text)
      → IsSealed keys k eph shared alg nonce
      → try_keys b j x h alg (public_of eph) nonce ct context not_decrypted (k ∷ [])
        ≡ elim (open_sealed alg
            (secret k eph shared)
            nonce
            ct
            (envelope_aad k.kid (alg_name alg) context)) [
              | some pt ↦ plain pt
              | none ↦ failed not_decrypted
            ]
  unfolding try_keys
  tried keys k eph shared alg nonce ct context can =
      ground (arith, can.size, sym (ecdh_comm eph k.priv) ∙ can.exchange)

  -- the decoding of an envelope
  decoded :
      (keys : List KexKey) (k : KexKey) (eph shared : Text) (alg : Alg)
      (nonce pt purpose context : Text)
      → IsSealed keys k eph shared alg nonce
      → open_envelope b j x h
          (j.marshal (envelope_of k eph shared alg nonce pt purpose))
          []
          keys
          context
        ≡ try_keys b j x h alg
            (public_of eph)
            nonce
            (sealed_text k eph shared alg nonce pt purpose)
            context
            not_decrypted
            (k ∷ [])
  unfolding open_envelope open_parts candidates
  decoded keys k eph shared alg nonce pt purpose context can = ground (
    arith,
    j.unmarshal-marshal (envelope_of k eph shared alg nonce pt purpose),
    alg_of-alg_name alg,
    can.named,
    can.only,
    decode-encode (public_of eph),
    length-public_of eph,
    decode-encode nonce,
    decode-encode (sealed_text k eph shared alg nonce pt purpose),
  )

  -- What a client seals with a key of the server for a purpose is opened under that purpose, and is
  -- what was sealed. Under another purpose the same envelope is not decrypted.
  pub open-seal_envelope :
      (keys : List KexKey) (k : KexKey) (eph shared : Text) (alg : Alg)
      (nonce pt purpose other : Text)
      → IsSealed keys k eph shared alg nonce
      → text_eq purpose other ≡ false
      → (json : Text) × (seal_envelope b j x h k.kid eph
            (public_of k.priv)
            alg
            nonce
            pt
            (aad_context purpose)
          ≡ some json)
        × (open_envelope b j x h json [] keys (aad_context purpose) ≡ plain pt)
        × (open_envelope b j x h json [] keys (aad_context other) ≡ failed not_decrypted)
  unfolding seal_envelope
  open-seal_envelope keys k eph shared alg nonce pt purpose other can differ =
      let ct = sealed_text k eph shared alg nonce pt purpose in
      let aad = λ (p : Text). envelope_aad k.kid (alg_name alg) (aad_context p) in
      let opens = open-seal alg (secret k eph shared) nonce pt (aad purpose) in
      let closed =
        other_data alg (secret k eph shared) nonce pt (aad purpose) (aad other)
          (aad_differs k.kid (alg_name alg) purpose other differ) in
      (
        j.marshal (envelope_of k eph shared alg nonce pt purpose),
        ground (arith, can.exchange),
        decoded keys k eph shared alg nonce pt purpose (aad_context purpose) can
            ∙ tried keys k eph shared alg nonce ct (aad_context purpose) can
            ∙ ground (arith, opens),
        decoded keys k eph shared alg nonce pt purpose (aad_context other) can
            ∙ tried keys k eph shared alg nonce ct (aad_context other) can
            ∙ ground (arith, closed),
      )
