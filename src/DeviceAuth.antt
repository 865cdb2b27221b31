-- ===== src/DeviceAuth.antt =====
-- The signed header of a device: `ParseDeviceSignature`, `Header` and `VerifyPub` of
-- apps/license-api/internal/service/httpsig.go, and `DeviceAuthMessage` of crypto/sigtoken.go. Keys,
-- signatures, hashes and messages are lists of bytes; base64, hashes and signature schemes are
-- interfaces.
pub mod Fields
pub mod RoundTrip
use vertify_license_platform.Prelude.{
  ℕ, ◌+◌, ◌≡◌, Bool, true, false, ◌&&◌, ◌||◌, not, Option, none, some, List, [], ◌∷◌, ◌++◌,
  is_empty, ltb, ◌==◌, length, take, drop, all_of, Text, codes, text_eq, concat, to_upper,
  trim_space, ℤ, pos, negsuc, parse_int, print_int, if◌then◌else◌,
}
use vertify_license_platform.Store.Rows.{Kty}
use vertify_license_platform.Base64.{Base64}
use vertify_license_platform.DeviceAuth.Fields.{fields, cut}

pub record DeviceSignature : Type 0 where
  pub pub_key : Text
  pub ts : ℤ
  pub nonce : Text
  pub seq : ℤ
  pub sig : Text

abbrev pub is_negative : ℤ → Bool
is_negative (pos n) = false
is_negative (negsuc n) = true

abbrev pub is_zero_int : ℤ → Bool
is_zero_int (pos n) = n == 0
is_zero_int (negsuc n) = false

-- `&DeviceSignature{}`
abbrev unsigned_header : DeviceSignature
unsigned_header = record { pub_key = []; ts = pos 0; nonce = []; seq = pos 0; sig = [] }

-- the last check of the header
abbrev pub is_complete : DeviceSignature → Bool
is_complete ds =
    not (is_empty ds.pub_key || is_zero_int ds.ts || is_empty ds.nonce || is_empty ds.sig)

-- `elliptic.Unmarshal`, `ecdsa.Verify` on the numbers r and s, `ecdsa.VerifyASN1` and
-- `ed25519.Verify`, each with the key first
pub record Schemes : Type 0 where
  pub sha256 : Text → Text
  pub on_curve : Text → Bool
  pub ecdsa_verify : Text → Text → Text → Text → Bool
  pub ecdsa_verify_asn1 : Text → Text → Text → Bool
  pub ed25519_verify : Text → Text → Text → Bool

-- `DeviceAuthMessage`; the hash closes the message as its bytes.
unfoldable pub device_auth_message : Schemes → Text → Text → ℤ → Text → ℤ → Text → Text
unfolding print_int
device_auth_message h method path ts nonce seq body = concat (
    codes "v1|"
    ∷ to_upper method
    ∷ codes "|"
    ∷ path
    ∷ codes "|"
    ∷ print_int ts
    ∷ codes "|"
    ∷ nonce
    ∷ codes "|"
    ∷ print_int seq
    ∷ codes "|"
    ∷ h.sha256 body
    ∷ [])

module _ (b : Base64) where
  open b use {encode, decode}

  -- one entry `k=v` of the header
  unfoldable pub set_field : DeviceSignature → Text → Text → Option DeviceSignature
  unfolding parse_int
  set_field ds k v =
      if text_eq k (codes "pub")
      then some (record ds { pub_key = v })
      else if text_eq k (codes "ts")
      then elim (parse_int v) [ none ↦ none | some n ↦ some (record ds { ts = n }) ]
      else if text_eq k (codes "nonce")
      then some (record ds { nonce = v })
      else if text_eq k (codes "seq")
      then elim (parse_int v) [
        | none ↦ none
        | some n ↦ if is_negative n then none else some (record ds { seq = n })
      ]
      else if text_eq k (codes "sig")
      then elim (decode v) [
        | none ↦ none
        | some s ↦ if ltb (length s) 8 then none else some (record ds { sig = s })
      ]
      else none

  -- the loop over the entries
  unfoldable pub set_fields : DeviceSignature → List Text → Option DeviceSignature
  unfolding set_field cut
  set_fields ds [] = some ds
  set_fields ds (p ∷ ps) = elim (cut p) [
    | none ↦ none
    | some (k, v) ↦ elim (set_field ds k v) [ none ↦ none | some ds' ↦ set_fields ds' ps ]
  ]

  abbrev finish : Option DeviceSignature → Option DeviceSignature
  finish none = none
  finish (some ds) = if is_complete ds then some ds else none

  abbrev pub parse_fields : List Text → Option DeviceSignature
  parse_fields [] = none
  parse_fields (p ∷ ps) =
      if text_eq p (codes "v1") then finish (set_fields unsigned_header ps) else none

  -- `ParseDeviceSignature`; it has one error.
  unfoldable pub parse_device_signature : Text → Option DeviceSignature
  unfolding set_fields fields trim_space
  parse_device_signature header = parse_fields (fields (trim_space header))

  -- `Header`
  unfoldable pub header : DeviceSignature → Text
  unfolding print_int
  header ds = concat (
      codes "v1 pub="
      ∷ ds.pub_key
      ∷ codes " ts="
      ∷ print_int ds.ts
      ∷ codes " nonce="
      ∷ ds.nonce
      ∷ codes " seq="
      ∷ print_int ds.seq
      ∷ codes " sig="
      ∷ encode ds.sig
      ∷ [])

  -- `len(raw) != 65 || raw[0] != 0x04`, negated
  abbrev uncompressed : Text → Bool
  uncompressed [] = false
  uncompressed (c ∷ raw) = length raw == 64 && c == 4

  -- `VerifyPub`: 64 bytes are the numbers r and s, and others a DER encoding.
  unfoldable pub verify_pub : Schemes → DeviceSignature → Text → Kty → Text → Bool
  verify_pub h ds pub_b64 kty msg = elim (decode pub_b64) [
    | none ↦ false
    | some raw ↦ elim kty [
      | Kty.p256 ↦
          uncompressed raw
          && h.on_curve raw
          && (if length ds.sig == 64
              then h.ecdsa_verify raw (h.sha256 msg) (take 32 ds.sig) (drop 32 ds.sig)
              else h.ecdsa_verify_asn1 raw (h.sha256 msg) ds.sig)
      | Kty.ed25519 ↦ length raw == 32 && h.ed25519_verify raw msg ds.sig
    ]
  ]
