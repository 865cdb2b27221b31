-- ===== src/Claims.antt =====
-- What the services share: the claims of a lease, the errors that a card or a licence in a wrong state
-- gives, and expiry (apps/license-api/internal/crypto/sigtoken.go and service/service.go).
use vertify_license_platform.Prelude.{ℕ, Bool, true, false, Option, none, some, List, ltb, Text}
use vertify_license_platform.Domain.{
  CardStatus, LicenseStatus, Error, card_not_usable, card_frozen, card_revoked, card_voided,
  card_depleted, license_frozen, license_revoked, license_voided,
}
use vertify_license_platform.Store.Rows.{License, CardKind, unix}

-- `crypto.LeaseClaims`, but for its random ID
pub record LeaseClaims : Type 0 where
  pub lic : ℕ
  pub prod : Text
  pub dev : ℕ
  pub feat : List Text
  pub iss : ℕ
  pub exp : ℕ
  pub lic_exp : ℕ
  pub pol : ℕ
  pub hbi : ℕ
  pub grace : ℕ
  pub min_ver : Text

-- `if lic.ExpiresAt != nil { claims.LicExp = lic.ExpiresAt.Unix() }`
abbrev pub expiry_claim : Option ℕ → ℕ
expiry_claim none = 0
expiry_claim (some t) = unix t

-- `mapCardErr`
abbrev pub map_card_err : CardStatus → Error
map_card_err CardStatus.frozen = card_frozen
map_card_err CardStatus.revoked = card_revoked
map_card_err CardStatus.voided = card_voided
map_card_err CardStatus.depleted = card_depleted
map_card_err _ = card_not_usable

-- `mapLicenseErr`
abbrev pub map_license_err : LicenseStatus → Error
map_license_err LicenseStatus.frozen = license_frozen
map_license_err LicenseStatus.voided = license_voided
map_license_err _ = license_revoked

-- `lic.ExpiresAt != nil && lic.ExpiresAt.Before(now)`
abbrev pub has_expired : ℕ → License → Bool
has_expired now lic = elim lic.expires_at [ none ↦ false | some t ↦ ltb t now ]

-- `card.Kind == "license"`
abbrev pub is_license_card : CardKind → Bool
is_license_card CardKind.license = true
is_license_card CardKind.renewal = false
