-- ===== src/Tests/Codecs.antt =====
-- Concrete codecs and signature schemes, for the tests of what is signed and sealed. They stand in
-- for the libraries.
use vertify_license_platform.Prelude.{
  ℕ, zero, suc, ◌+◌, ◌≡◌, refl, ap, true, false, Option, none, some, [], ◌∷◌, ◌++◌, length, take,
  drop, replicate, all_of, all_of-append, ◌==◌, Text, text_eq, text_eq_self, if◌then◌else◌, arith,
}
use vertify_license_platform.Base64.{b64url_rune, Base64}
use vertify_license_platform.Keys.{Ed25519}
use vertify_license_platform.Envelope.{Envelope, EnvelopeJson, X25519, Aead}

-- a number n is n letters and a dash
abbrev pub unary : Text → Text
unary [] = []
unary (c ∷ s) = replicate c b'a' ++ b'-' ∷ unary s

abbrev onto : ℕ → Option Text → Option Text
onto n none = none
onto n (some s) = some (n ∷ s)

abbrev of_unary : ℕ → Text → Option Text
of_unary n [] = some []
of_unary n (c ∷ s) = elim (c == b'-') [ true ↦ onto n (of_unary 0 s) | false ↦ of_unary (suc n) s ]

of_unary-letters :
    (k n : ℕ) (s : Text) → of_unary n (replicate k b'a' ++ b'-' ∷ s) ≡ onto (k + n) (of_unary 0 s)
of_unary-letters zero n s = ground arith
of_unary-letters (suc k) n s = ground (arith, of_unary-letters k (suc n) s)

pub of_unary-unary : (s : Text) → of_unary 0 (unary s) ≡ some s
of_unary-unary [] = refl
of_unary-unary (c ∷ s) = ground (arith, of_unary-letters c 0 (unary s), of_unary-unary s)

letters : (k : ℕ) → all_of b64url_rune (replicate k b'a') ≡ true
letters zero = refl
letters (suc k) = letters k

pub unary_runes : (s : Text) → all_of b64url_rune (unary s) ≡ true
unary_runes [] = refl
unary_runes (c ∷ s) =
    ground (
      arith,
      all_of-append b64url_rune (replicate c b'a') (b'-' ∷ unary s),
      letters c,
      unary_runes s,
    )

abbrev pub base64 : Base64
base64 = record {
  encode = unary;
  decode = of_unary 0;
  decode-encode = of_unary-unary;
  encode_runes = unary_runes;
}

-- a signature tells the message's length
abbrev sign_length : Text → Text → Text
sign_length seed msg = replicate 64 (length msg)

abbrev pub ed25519 : Ed25519
ed25519 = record {
  public_of = λ seed. seed;
  sign = sign_length;
  verify = λ pk msg sig. text_eq sig (sign_length pk msg);
  verify-sign = λ seed msg. text_eq_self (sign_length seed msg);
  length-sign = λ seed msg. refl;
}

abbrev pub field : Text → Text → Text
field s t = length s ∷ (s ++ t)

take-append : (s t : Text) → take (length s) (s ++ t) ≡ s
take-append [] t = refl
take-append (c ∷ s) t = ap (λ u. c ∷ u) (take-append s t)

drop-append : (s t : Text) → drop (length s) (s ++ t) ≡ t
drop-append [] t = refl
drop-append (c ∷ s) t = drop-append s t

abbrev read_field : Text → Text × Text
read_field [] = ([], [])
read_field (n ∷ s) = (take n s, drop n s)

read-field : (s t : Text) → read_field (field s t) ≡ (s, t)
read-field s t = ground (take-append s t, drop-append s t, arith)

abbrev write_envelope : Envelope → Text
write_envelope e = field e.kid (field e.alg (field e.epk (field e.nonce (field e.ct []))))

abbrev read_envelope : Text → Option Envelope
read_envelope s =
    let (kid, s₁) = read_field s in
    let (alg, s₂) = read_field s₁ in
    let (epk, s₃) = read_field s₂ in
    let (nonce, s₄) = read_field s₃ in
    let (ct, s₅) = read_field s₄ in
    some (record { kid = kid; alg = alg; epk = epk; nonce = nonce; ct = ct })

pub read-write : (e : Envelope) → read_envelope (write_envelope e) ≡ some e
read-write e = simp (take-append, drop-append) refl

abbrev pub envelope_json : EnvelopeJson
envelope_json = record {
  marshal = write_envelope;
  unmarshal = read_envelope;
  unmarshal-marshal = read-write;
}

-- an exchange gives the sum of the lengths of the two private keys
abbrev shared_of : Text → Text → Option Text
shared_of a [] = none
shared_of a (c ∷ p) = some ((length a + c) ∷ [])

pub shared_comm :
    (a b : Text) → shared_of a (replicate 32 (length b)) ≡ shared_of b (replicate 32 (length a))
shared_comm a b = ground arith

abbrev pub x25519 : X25519
x25519 = record {
  public_of = λ p. replicate 32 (length p);
  ecdh = shared_of;
  length-public_of = λ p. refl;
  ecdh_comm = shared_comm;
}

-- the additional data stands before the text
abbrev unseal : Text → Text → Option Text
unseal ct aad = let (bound, pt) = read_field ct in if text_eq bound aad then some pt else none

pub unseal-field : (aad pt : Text) → unseal (field aad pt) aad ≡ some pt
unseal-field aad pt = simp (take-append, drop-append, text_eq_self aad) refl

pub unseal_other :
    (aad aad' pt : Text) → text_eq aad aad' ≡ false → unseal (field aad pt) aad' ≡ none
unseal_other aad aad' pt differ = simp (take-append, drop-append, differ) refl

abbrev pub aead : Aead
aead = record {
  hkdf = λ shared salt info. shared ++ salt ++ info;
  nonce_size = λ a. 12;
  seal = λ a key nonce pt aad. field aad pt;
  open_sealed = λ a key nonce ct aad. unseal ct aad;
  open-seal = λ a key nonce pt aad. unseal-field aad pt;
  other_data = λ a key nonce pt aad aad' differ. unseal_other aad aad' pt differ;
}
