-- ===== src/Envelope.antt =====
-- The envelope that hides a client's payload: `sealEnvelopeWithEphemeral` and `OpenEnvelope` of
-- apps/license-api/internal/crypto/envelope.go. Keys and messages are lists of bytes; JSON, X25519,
-- HKDF and the two AEADs are interfaces.
pub mod Opened
use vertify_license_platform.Prelude.{
  ℕ, ◌≡◌, Bool, true, false, ◌&&◌, ◌||◌, not, Option, none, some, List, [], ◌∷◌, is_empty, ◌==◌,
  length, Text, codes, text_eq, concat, if◌then◌else◌, ◌++◌,
}
use vertify_license_platform.Base64.{Base64}

pub record Envelope : Type 0 where
  pub kid : Text
  pub alg : Text
  pub epk : Text
  pub nonce : Text
  pub ct : Text

-- a server's key: its ID and its private half
pub record KexKey : Type 0 where
  pub kid : Text
  pub priv : Text

pub data Alg : Type 0 where
  aes_gcm xc20p : Alg

-- the two names that `alg` may have
abbrev pub alg_name : Alg → Text
alg_name aes_gcm = codes "A256GCM"
alg_name xc20p = codes "XC20P"

pub record EnvelopeJson : Type 0 where
  pub marshal : Envelope → Text
  pub unmarshal : Text → Option Envelope
  pub unmarshal-marshal : (e : Envelope) → unmarshal (marshal e) ≡ some e

-- X25519: both sides of an exchange get the same secret, or an error.
pub record X25519 : Type 0 where
  pub public_of : Text → Text
  pub ecdh : Text → Text → Option Text
  pub length-public_of : (priv : Text) → length (public_of priv) ≡ 32
  pub ecdh_comm : (a b : Text) → ecdh a (public_of b) ≡ ecdh b (public_of a)

-- HKDF-SHA256, and the AEADs with their keys first: what is sealed opens with the same additional
-- data, and with no other.
pub record Aead : Type 0 where
  pub hkdf : Text → Text → Text → Text
  pub nonce_size : Alg → ℕ
  pub seal : Alg → Text → Text → Text → Text → Text
  pub open_sealed : Alg → Text → Text → Text → Text → Option Text
  pub open-seal :
      (a : Alg) (key nonce pt aad : Text)
      → open_sealed a key nonce (seal a key nonce pt aad) aad ≡ some pt
  pub other_data :
      (a : Alg) (key nonce pt aad aad' : Text)
      → text_eq aad aad' ≡ false
      → open_sealed a key nonce (seal a key nonce pt aad) aad' ≡ none

pub data EnvelopeError : Type 0 where
  bad_format bad_alg unknown_kid not_decrypted : EnvelopeError

pub data Opening : Type 0 where
  plain : Text → Opening
  failed : EnvelopeError → Opening

abbrev pub alg_of : Text → Option Alg
alg_of s =
    if text_eq s (alg_name aes_gcm)
    then some aes_gcm
    else if text_eq s (alg_name xc20p)
    then some xc20p
    else none

-- `EnvelopeInfo`
abbrev pub envelope_info : Text
envelope_info = codes "vertify-envelope-v1"

-- `AADContext`
abbrev pub aad_context : Text → Text
aad_context purpose = codes "purpose=" ++ purpose

-- `envelopeAAD`
unfoldable pub envelope_aad : Text → Text → Text → Text
envelope_aad kid alg [] = concat (envelope_info ∷ codes "|" ∷ kid ∷ codes "|" ∷ alg ∷ [])
envelope_aad kid alg (c ∷ context) =
    concat (envelope_info ∷ codes "|" ∷ kid ∷ codes "|" ∷ alg ∷ codes "|" ∷ (c ∷ context) ∷ [])

-- the keys of an ID, in their order
unfoldable pub with_kid : Text → List KexKey → List KexKey
with_kid want [] = []
with_kid want (k ∷ ks) =
    let rest = with_kid want ks in if text_eq k.kid want then k ∷ rest else rest

-- The candidates: those of the ID that is asked for, and all keys where none is.
unfoldable pub candidates : Text → Text → List KexKey → Option (List KexKey)
unfolding with_kid
candidates kid env_kid keys =
    if is_empty kid && is_empty env_kid
    then some keys
    else elim (with_kid (if is_empty kid then env_kid else kid) keys) [
      | [] ↦ none
      | k ∷ ks ↦ some (k ∷ ks)
    ]

module _ (b : Base64) (j : EnvelopeJson) (x : X25519) (h : Aead) where
  open b use {encode, decode}
  open x use {public_of, ecdh}
  open h use {hkdf, nonce_size, seal, open_sealed}

  -- `deriveEnvelopeKey`
  abbrev pub derive_envelope_key : Text → Text → Text → Text
  derive_envelope_key shared epk spk = hkdf shared (epk ++ spk) envelope_info

  -- `sealEnvelopeWithEphemeral`, whose nonce is drawn: the client's side
  unfoldable pub seal_envelope : Text → Text → Text → Alg → Text → Text → Text → Option Text
  unfolding envelope_aad
  seal_envelope kid eph server_pub alg nonce plaintext context = elim (ecdh eph server_pub) [
    | none ↦ none
    | some shared ↦
        let key = derive_envelope_key shared (public_of eph) server_pub in
        some (
          j.marshal (record {
            kid = kid;
            alg = alg_name alg;
            epk = encode (public_of eph);
            nonce = encode nonce;
            ct = encode (seal alg key nonce plaintext (envelope_aad kid (alg_name alg) context));
          }))
  ]

  -- The loop over the candidates: the first that opens the text ends it; the error is the last one's.
  unfoldable pub try_keys : Alg → Text → Text → Text → Text → EnvelopeError → List KexKey → Opening
  unfolding envelope_aad
  try_keys alg epk nonce ct context last [] = failed last
  try_keys alg epk nonce ct context last (k ∷ ks) = elim (ecdh k.priv epk) [
    | none ↦ try_keys alg epk nonce ct context last ks
    | some shared ↦
        let key = derive_envelope_key shared epk (public_of k.priv) in
        elim (length nonce == nonce_size alg) [
          | false ↦ try_keys alg epk nonce ct context bad_format ks
          | true ↦ elim (open_sealed alg key nonce ct (envelope_aad k.kid (alg_name alg) context)) [
            | some pt ↦ plain pt
            | none ↦ try_keys alg epk nonce ct context not_decrypted ks
          ]
        ]
  ]

  -- the decoded parts
  unfoldable pub open_parts : Alg → Envelope → List KexKey → Text → Opening
  unfolding try_keys
  open_parts alg env keys context = elim (decode env.epk) [
    | none ↦ failed bad_format
    | some epk ↦ if not (length epk == 32) then failed bad_format else elim (decode env.nonce) [
      | none ↦ failed bad_format
      | some nonce ↦ elim (decode env.ct) [
        | none ↦ failed bad_format
        | some ct ↦ try_keys alg epk nonce ct context not_decrypted keys
      ]
    ]
  ]

  -- `OpenEnvelope`; `NewPublicKey` takes every text of 32 bytes, so its error does not occur.
  unfoldable pub open_envelope : Text → Text → List KexKey → Text → Opening
  unfolding candidates open_parts
  open_envelope envelope_json kid keys context = elim (j.unmarshal envelope_json) [
    | none ↦ failed bad_format
    | some env ↦ elim (alg_of env.alg) [
      | none ↦ failed bad_alg
      | some alg ↦ elim (candidates kid env.kid keys) [
        | none ↦ failed unknown_kid
        | some ks ↦ open_parts alg env ks context
      ]
    ]
  ]
