-- ===== src/Store/Catalog.antt =====
-- The statements on products, plans and bans of apps/license-api/internal/store/catalog.go and
-- adminstore.go.
use vertify_license_platform.Prelude.{
  ℕ, Bool, true, ◌&&◌, Option, none, some, ltb, ◌==◌, Text, text_eq, [], ◌∷◌, ◌++◌, if◌then◌else◌,
}
use vertify_license_platform.Domain.{ok}
use vertify_license_platform.Store.Table.{find, first, exists, delete, update_where}
use vertify_license_platform.Store.Rows.{
  Product, Plan, Ban, BanKind, ip, device, card_prefix, client_version, asn, Db,
}
use vertify_license_platform.Store.Tx.{Tx, selects}

-- `GetProduct`
abbrev pub get_product : ℕ → Tx Product
get_product id = selects (λ db. find (λ (p : Product). p.id) id db.products)

-- `GetProductByCode`
abbrev pub get_product_by_code : Text → Tx Product
get_product_by_code code = selects (λ db. first (λ (p : Product). text_eq p.code code) db.products)

-- `GetPlan`
abbrev pub get_plan : ℕ → Tx Plan
get_plan id = selects (λ db. find (λ (p : Plan). p.id) id db.plans)

abbrev pub ban_index : BanKind → ℕ
ban_index ip = 0
ban_index device = 1
ban_index card_prefix = 2
ban_index client_version = 3
ban_index asn = 4

-- `until IS NULL OR until > now()`
abbrev pub in_force : ℕ → Option ℕ → Bool
in_force now none = true
in_force now (some t) = ltb now t

-- `WHERE kind=$1 AND value=$2`
abbrev pub is_ban : BanKind → Text → Ban → Bool
is_ban kind value b = ban_index b.kind == ban_index kind && text_eq b.value value

-- `CreateBan`
unfoldable pub create_ban_row : BanKind → Text → Option ℕ → Tx (Unit {0})
create_ban_row kind value until db =
    let known = exists (is_ban kind value) db.bans in
    let changed = update_where (is_ban kind value) (λ b. record b { until = until }) db.bans in
    let added = db.bans ++ record { kind = kind; value = value; until = until } ∷ [] in
    (ok tt, record db { bans = if known then changed else added })

-- `DeleteBan`
unfoldable pub delete_ban_row : BanKind → Text → Tx (Unit {0})
delete_ban_row kind value db = (ok tt, record db { bans = delete (is_ban kind value) db.bans })

-- `IsBanned`
unfoldable pub is_banned : ℕ → BanKind → Text → Db → Bool
is_banned now kind value db =
    exists
      (λ (b : Ban).
        ban_index b.kind == ban_index kind && text_eq b.value value && in_force now b.until)
      db.bans
