-- ===== src/Domain/Roles.antt =====
-- The role table of apps/license-api/internal/domain/domain.go, and who holds which permission.
use vertify_license_platform.Prelude.{ℕ, ◌≡◌, Bool, true, false, ◌||◌, List, [], ◌∷◌, ◌==◌, arith}
use vertify_license_platform.Domain.{
  AdminRole, superadmin, admin, agent, auditor, viewer, Permission, products_read, products_write,
  cards_read, cards_export, cards_manage, licenses_read, licenses_manage, devices_manage,
  admins_manage, agents_manage, audit_read, risk_manage, stats_read, users_manage,
}

abbrev permission_index : Permission → ℕ
permission_index products_read = 0
permission_index products_write = 1
permission_index cards_read = 2
permission_index cards_export = 3
permission_index cards_manage = 4
permission_index licenses_read = 5
permission_index licenses_manage = 6
permission_index devices_manage = 7
permission_index admins_manage = 8
permission_index agents_manage = 9
permission_index audit_read = 10
permission_index risk_manage = 11
permission_index stats_read = 12
permission_index users_manage = 13

all_permissions : List Permission
all_permissions =
    products_read ∷ products_write ∷ cards_read ∷ cards_export ∷ cards_manage ∷ licenses_read
    ∷ licenses_manage ∷ devices_manage ∷ admins_manage ∷ agents_manage ∷ audit_read ∷ risk_manage
    ∷ stats_read ∷ users_manage ∷ []

role_permissions : AdminRole → List Permission
unfolding all_permissions
role_permissions superadmin = all_permissions
role_permissions admin =
    products_read ∷ products_write ∷ cards_read ∷ cards_export ∷ cards_manage ∷ licenses_read
    ∷ licenses_manage ∷ devices_manage ∷ audit_read ∷ risk_manage ∷ stats_read ∷ []
role_permissions agent = cards_read ∷ cards_export ∷ cards_manage ∷ licenses_read ∷ []
role_permissions auditor = audit_read ∷ stats_read ∷ cards_read ∷ licenses_read ∷ []
role_permissions viewer = cards_read ∷ licenses_read ∷ stats_read ∷ products_read ∷ []

-- the loop of `RoleHas`
has_permission : List Permission → Permission → Bool
has_permission [] p = false
has_permission (q ∷ qs) p = permission_index q == permission_index p || has_permission qs p

unfoldable pub role_has : AdminRole → Permission → Bool
unfolding role_permissions has_permission
role_has r p = has_permission (role_permissions r) p

-- What is not named `…:read`: it changes state, or reveals cards in the clear.
abbrev pub is_privileged : Permission → Bool
is_privileged products_read = false
is_privileged cards_read = false
is_privileged licenses_read = false
is_privileged audit_read = false
is_privileged stats_read = false
is_privileged _ = true

abbrev pub is_card_permission : Permission → Bool
is_card_permission cards_export = true
is_card_permission cards_manage = true
is_card_permission _ = false

-- A superadmin holds every permission, and is the only role that holds one to manage
-- administrators, agents or end users. Of the permissions that are not to read, an auditor and a
-- viewer hold none, and an agent holds the two over cards and no other.
role_separation :
    ((p : Permission) → role_has superadmin p ≡ true)
    × ((r : AdminRole) → role_has r admins_manage ≡ true → r ≡ superadmin)
    × ((r : AdminRole) → role_has r agents_manage ≡ true → r ≡ superadmin)
    × ((r : AdminRole) → role_has r users_manage ≡ true → r ≡ superadmin)
    × ((p : Permission) → role_has auditor p ≡ true → is_privileged p ≡ false)
    × ((p : Permission) → role_has viewer p ≡ true → is_privileged p ≡ false)
    × ((p : Permission) → is_privileged p ≡ true → role_has agent p ≡ is_card_permission p)
unfolding role_has
role_separation = (
  λ p. ground arith,
  λ r h. ground arith,
  λ r h. ground arith,
  λ r h. ground arith,
  λ p h. ground arith,
  λ p h. ground arith,
  λ p h. ground arith,
)
