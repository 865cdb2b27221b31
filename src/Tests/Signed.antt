-- ===== src/Tests/Signed.antt =====
-- What is signed and sealed, with the codecs of the tests.
use vertify_license_platform.Prelude.{
  ◌+◌, ◌≡◌, refl, true, none, some, List, [], ◌∷◌, replicate, length, concat, Text, codes, text_eq,
  pos, if◌then◌else◌, is_space, arith, byte_len, trim_space, contains_rune,
}
use vertify_license_platform.Domain.{is_ok}
use vertify_license_platform.Cache.Keys.{key_eq}
use vertify_license_platform.CardCode.{normalize_card, seen}
use vertify_license_platform.Store.Tx.{with_tx}
use vertify_license_platform.Store.Cards.{set_card_activated}
use vertify_license_platform.Store.Licenses.{create_license}
use vertify_license_platform.Store.Devices.{create_device}
use vertify_license_platform.Store.Catalog.{is_banned}
use vertify_license_platform.Keys.{
  LocalSigner, signer_of, new_local_signer, load_keys, validate_kid,
}
use vertify_license_platform.Token.{
  TokenClaims, Json, valid, invalid, expired, not_yet_valid, after, before, mint_token,
  verify_token, verify_token_with_type,
}
use vertify_license_platform.Token.RoundTrip.{IsSigned, verify-mint, verify_token_with_type_sound}
use vertify_license_platform.DeviceAuth.{DeviceSignature, header, parse_device_signature}
use vertify_license_platform.DeviceAuth.RoundTrip.{IsPrintable, parse_device_signature-header}
use vertify_license_platform.Envelope.{
  KexKey, aes_gcm, plain, failed, not_decrypted, aad_context, with_kid, seal_envelope,
  open_envelope,
}
use vertify_license_platform.Envelope.Opened.{IsSealed, open-seal_envelope}
use vertify_license_platform.Activation.Request.{
  ActivatePayload, payload, ActivateRequest, activate_of,
}
use vertify_license_platform.Activation.Guarded.{AsAdmitted, admitted, activation_guarded}
use vertify_license_platform.Heartbeat.Lease.Answered.{answering}
use vertify_license_platform.Tests.Redis.{list_redis}
use vertify_license_platform.Tests.Cards.{shop}
use vertify_license_platform.Tests.Beats.{trusting, windows, world, beat}
use vertify_license_platform.Tests.Codecs.{base64, ed25519, envelope_json, x25519, aead}

abbrev header_fields : DeviceSignature
header_fields = record {
  pub_key = codes "abc";
  ts = pos 1700000000;
  nonce = codes "n=1";
  seq = pos 7;
  sig = replicate 8 1;
}

printable : IsPrintable header_fields
unfolding is_space
printable = record {
  pub_word = refl;
  nonce_word = refl;
  complete = refl;
  ts_fits = omega arith;
  seq_fits = omega arith;
  seq_sign = refl;
  sig_length = refl;
}

parse_device_signature-header_example :
    parse_device_signature base64 (header base64 header_fields) ≡ some header_fields
parse_device_signature-header_example = parse_device_signature-header base64 header_fields printable

abbrev claims : TokenClaims
claims = record {
  typ = codes "lease";
  kid = codes "k1";
  jti = codes "j";
  lic = codes "20";
  prod = codes "APP";
  dev = codes "30";
  feat = [];
  iss = pos 100;
  exp = pos 400;
  lic_exp = pos 0;
  pol = pos 1;
  hbi = pos 60;
  grace = pos 0;
  status = codes "active";
  min_ver = [];
  nonce = [];
}

-- JSON of these claims alone
abbrev one_json : Json
one_json = record {
  marshal = λ c. c.lic;
  unmarshal = λ s. if text_eq s (codes "20") then some claims else none;
}

abbrev seeds : List (Text × Text)
seeds = (codes "k1", base64.encode (replicate 32 1)) ∷ []

abbrev signer : LocalSigner
signer = record { keys = (codes "k1", replicate 32 1) ∷ []; active = codes "k1" }

signer_made : new_local_signer base64 seeds (codes "k1") ≡ some signer
unfolding new_local_signer load_keys validate_kid text_eq byte_len
signer_made = refl

verify-mint_example :
    (token : Text) × (mint_token base64 one_json ed25519 (signer_of ed25519 signer) claims
      ≡ some token)
    × (verify_token base64 one_json ed25519 (signer_of ed25519 signer) token 200 ≡ (
        if after 200 claims.exp
        then invalid expired
        else if before (200 + 60) claims.iss
        then invalid not_yet_valid
        else valid claims))
unfolding text_eq
verify-mint_example =
    verify-mint base64 one_json ed25519 seeds (codes "k1") signer claims 200 signer_made refl

abbrev lease_payload : Text
lease_payload = base64.encode (codes "20")

abbrev lease_token : Text
lease_token = concat (
    codes "VLT1"
    ∷ codes "."
    ∷ lease_payload
    ∷ codes "."
    ∷ base64.encode (replicate 64 (length lease_payload))
    ∷ [])

accepted :
    verify_token_with_type base64 one_json ed25519
      (signer_of ed25519 signer)
      lease_token
      (codes "lease")
      200
    ≡ valid claims
unfolding verify_token_with_type text_eq signer_of
accepted = refl

verify_token_with_type_sound_example :
    IsSigned base64 one_json ed25519 (signer_of ed25519 signer) lease_token 200 claims
    × (codes "lease" ≡ codes "lease")
verify_token_with_type_sound_example =
    verify_token_with_type_sound base64 one_json ed25519 (signer_of ed25519 signer) lease_token
      (codes "lease") 200 claims accepted

abbrev kex : KexKey
kex = record { kid = codes "kex"; priv = replicate 32 5 }

sealed :
    IsSealed base64 envelope_json x25519 aead
      (kex ∷ [])
      kex
      (replicate 32 6)
      (64 ∷ [])
      aes_gcm
      (replicate 12 9)
unfolding with_kid text_eq
sealed = record { named = refl; only = refl; exchange = refl; size = refl }

open-seal_envelope_example :
    (json : Text) × (seal_envelope base64 envelope_json x25519 aead
        (codes "kex")
        (replicate 32 6)
        (x25519.public_of kex.priv)
        aes_gcm
        (replicate 12 9)
        (codes "{}")
        (aad_context (codes "activate"))
      ≡ some json)
    × (open_envelope base64 envelope_json x25519 aead json []
          (kex ∷ [])
          (aad_context (codes "activate"))
        ≡ plain (codes "{}"))
    × (open_envelope base64 envelope_json x25519 aead json []
          (kex ∷ [])
          (aad_context (codes "redeem"))
        ≡ failed not_decrypted)
unfolding text_eq
open-seal_envelope_example =
    open-seal_envelope base64 envelope_json x25519 aead (kex ∷ []) kex (replicate 32 6) (64 ∷ [])
      aes_gcm (replicate 12 9) (codes "{}") (codes "activate") (codes "redeem") sealed refl

abbrev form : ActivatePayload
form = record {
  card = codes "ABCDEFGHJKLMNPQRSTUVWXYZ23";
  components = replicate 64 b'a' ∷ [];
  device_pub = replicate 43 b'k';
  pub_kty = codes "ed25519";
  trust_level = codes "tpm";
  client_version = codes "1.0";
}

abbrev activation : ActivateRequest
activation = record {
  opened = payload form;
  signed = some beat.signed;
  header_pub = beat.pub_key;
  new_license = 22;
  new_device = 32;
}

-- every code is that of the shop's first card
abbrev as_first : Text → Text
as_first code = codes "k10"

abbrev first_print : List Text → Text
first_print [] = []
first_print (d ∷ ds) = d

activation_answered :
    is_ok
      (activate_of list_redis trusting as_first first_print windows answering activation 1000
        (world shop)).0
    ≡ true
unfolding activate_of text_eq trim_space seen key_eq normalize_card contains_rune is_banned with_tx
    create_license create_device set_card_activated
activation_answered = refl

activation_guarded_example :
    AsAdmitted list_redis trusting as_first first_print true
      (admitted list_redis trusting as_first first_print windows answering activation 1000
        (world shop))
      shop
      (activate_of list_redis trusting as_first first_print windows answering activation 1000
        (world shop))
activation_guarded_example =
    activation_guarded list_redis trusting as_first first_print windows answering activation 1000
      (world shop)
