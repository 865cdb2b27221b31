-- ===== src/Keys.antt =====
-- The keys that sign tokens: `LocalSigner` and `validateKID` of
-- apps/license-api/internal/crypto/keys.go, with ed25519 as an interface. A map is an association list.
use vertify_license_platform.Prelude.{
  ℕ, ◌≡◌, Bool, true, ◌&&◌, ◌||◌, not, Option, none, some, List, [], ◌∷◌, is_some, is_empty, leb,
  ◌==◌, length, all_of, Text, byte_len, text_eq, if◌then◌else◌, inl, inr, Option-cases, Bool-cases,
  arith,
}
use vertify_license_platform.Base64.{Base64}

-- `crypto/ed25519`, with a private key as its seed: a signature of 64 bytes is verified by the key's
-- public key.
pub record Ed25519 : Type 0 where
  pub public_of : Text → Text
  pub sign : Text → Text → Text
  pub verify : Text → Text → Text → Bool
  pub verify-sign : (seed msg : Text) → verify (public_of seed) msg (sign seed msg) ≡ true
  pub length-sign : (seed msg : Text) → length (sign seed msg) ≡ 64

abbrev kid_rune : ℕ → Bool
kid_rune c = (leb b'a' c && leb c b'z') || (leb b'0' c && leb c b'9') || c == b'-'

-- `validateKID`
unfoldable pub validate_kid : Text → Bool
validate_kid kid = not (is_empty kid) && leb (byte_len kid) 32 && all_of kid_rune kid

-- `m[k]`
abbrev pub lookup : Text → List (Text × Text) → Option Text
lookup k [] = none
lookup k ((j, v) ∷ m) = if text_eq j k then some v else lookup k m

pub record LocalSigner : Type 0 where
  pub keys : List (Text × Text)
  pub active : Text

-- the methods of a `Signer` that tokens use
pub record Signer : Type 0 where
  pub active_kid : Text
  pub sign_active : Text → Option (Text × Text)
  pub public_key : Text → Option Text

module _ (b : Base64) where
  open b use {decode}

  -- the loop of `NewLocalSigner`
  unfoldable pub load_keys : List (Text × Text) → Option (List (Text × Text))
  unfolding validate_kid
  load_keys [] = some []
  load_keys ((kid, seed_b64) ∷ ks) =
      let rest = load_keys ks in
      if not (validate_kid kid) then none else elim (decode seed_b64) [
        | none ↦ none
        | some seed ↦
            if length seed == 32
            then elim rest [ none ↦ none | some m ↦ some ((kid, seed) ∷ m) ]
            else none
      ]

  -- `NewLocalSigner`
  unfoldable pub new_local_signer : List (Text × Text) → Text → Option LocalSigner
  unfolding load_keys
  new_local_signer ks active_kid =
      if is_some (lookup active_kid ks)
      then elim (load_keys ks) [
        | none ↦ none
        | some m ↦ some (record { keys = m; active = active_kid })
      ]
      else none

  -- a key that is given is loaded
  loaded :
      (kid : Text) (ks m : List (Text × Text))
      → is_some (lookup kid ks) ≡ true
      → load_keys ks ≡ some m
      → is_some (lookup kid m) ≡ true
  unfolding load_keys
  loaded kid [] m given done = ground (arith, given)
  loaded kid ((j, v) ∷ ks) m given done = elim (Option-cases (decode v)) [
    | inl e ↦ absurd (grind (arith, e, done))
    | inr (seed, e) ↦ elim (Option-cases (load_keys ks)) [
      | inl e' ↦ absurd (grind (arith, e, e', done))
      | inr (m', e') ↦ ground (arith, e, e', done, given, loaded kid ks m', e')
    ]
  ]

  pub active_loaded :
      (ks : List (Text × Text)) (kid : Text) (l : LocalSigner)
      → new_local_signer ks kid ≡ some l
      → (l.active ≡ kid) × (is_some (lookup l.active l.keys) ≡ true)
  unfolding new_local_signer
  active_loaded ks kid l made = elim (Option-cases (load_keys ks)) [
    | inl e ↦ absurd (grind (arith, e, made))
    | inr (m, e) ↦ elim (Bool-cases (is_some (lookup kid ks))) [
      | inr e' ↦ absurd (grind (arith, e', made))
      | inl e' ↦ ground (arith, e, e', made, loaded kid ks m e' e)
    ]
  ]

abbrev public_of_seed : Ed25519 → Option Text → Option Text
public_of_seed ed none = none
public_of_seed ed (some seed) = some (ed.public_of seed)

-- the methods of `LocalSigner`
unfoldable pub signer_of : Ed25519 → LocalSigner → Signer
signer_of ed l = record {
  active_kid = l.active;
  sign_active = λ msg. elim (lookup l.active l.keys) [
    | none ↦ none
    | some seed ↦ some (ed.sign seed msg, l.active)
  ];
  public_key = λ kid. public_of_seed ed (lookup kid l.keys);
}
