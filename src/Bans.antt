-- ===== src/Bans.antt =====
-- The bans of apps/license-api/internal/service/adminsvc.go: `CreateBan` and `DeleteBan`.
use vertify_license_platform.Prelude.{
  ℕ, ◌≡◌, refl, Bool, false, ◌&&◌, Option, none, some, inl, inr, Bool-cases, List, [], ◌∷◌, ◌++◌,
  ◌==◌, Text, codes, text_eq, text_eq_self, to_upper, trim_space, if◌then◌else◌, arith,
}
use vertify_license_platform.Domain.{bad_argument}
use vertify_license_platform.Store.Table.{exists, delete, update_where}
use vertify_license_platform.Store.Rows.{
  Ban, BanKind, ip, device, card_prefix, client_version, asn, Db,
}
use vertify_license_platform.Store.Tx.{Tx, raise, pure}
use vertify_license_platform.Store.Catalog.{
  ban_index, in_force, is_ban, create_ban_row, delete_ban_row, is_banned,
}

-- a kind by its name
unfoldable pub ban_kind : Text → Option BanKind
ban_kind s =
    if text_eq s (codes "ip")
    then some ip
    else if text_eq s (codes "device")
    then some device
    else if text_eq s (codes "card_prefix")
    then some card_prefix
    else if text_eq s (codes "client_version")
    then some client_version
    else if text_eq s (codes "asn")
    then some asn
    else none

-- the value of a new ban: prefixes are stored in capitals
unfoldable pub ban_value : BanKind → Text → Text
ban_value kind value = elim kind [ card_prefix ↦ to_upper (trim_space value) | _ ↦ value ]

-- `CreateBan`
unfoldable pub create_ban : Text → Text → Option ℕ → Tx (Unit {0})
unfolding create_ban_row ban_kind ban_value
create_ban name value until = elim (ban_kind name) [
  | none ↦ raise bad_argument
  | some kind ↦ create_ban_row kind (ban_value kind value) until
]

-- `DeleteBan`, whose statement finds nothing for an unknown kind
unfoldable pub delete_ban : Text → Text → Tx (Unit {0})
unfolding delete_ban_row ban_kind
delete_ban name value = elim (ban_kind name) [
  | none ↦ pure tt
  | some kind ↦ delete_ban_row kind value
]

-- a ban that `IsBanned` counts
abbrev counts : ℕ → BanKind → Text → Ban → Bool
counts now kind value b =
    ban_index b.kind == ban_index kind && text_eq b.value value && in_force now b.until

deleted :
    (now : ℕ) (kind : BanKind) (value : Text) (bs : List Ban)
    → exists (counts now kind value) (delete (is_ban kind value) bs) ≡ false
deleted now kind value [] = refl
deleted now kind value (b ∷ bs) = ground (arith, deleted now kind value bs)

updated :
    (now : ℕ) (kind : BanKind) (value : Text) (until : Option ℕ) (bs : List Ban)
    → exists
        (counts now kind value)
        (update_where (is_ban kind value) (λ b. record b { until = until }) bs)
      ≡ (exists (is_ban kind value) bs && in_force now until)
updated now kind value until [] = refl
updated now kind value until (b ∷ bs) = ground (arith, updated now kind value until bs)

added :
    (now : ℕ) (kind : BanKind) (value : Text) (until : Option ℕ) (bs : List Ban)
    → exists (is_ban kind value) bs ≡ false
    → exists
        (counts now kind value)
        (bs ++ record { kind = kind; value = value; until = until } ∷ [])
      ≡ in_force now until
added now kind value until [] h = ground (arith, text_eq_self value)
added now kind value until (b ∷ bs) h = ground (arith, h, added now kind value until bs)

-- After a ban is made, and until it ends, `IsBanned` finds it, whatever ban of this value there was.
created :
    (name value : Text) (until : Option ℕ) (kind : BanKind) (now : ℕ) (db : Db)
    → ban_kind name ≡ some kind
    → is_banned now kind (ban_value kind value) (create_ban name value until db).1
      ≡ in_force now until
unfolding create_ban create_ban_row is_banned
created name value until kind now db named =
    let v = ban_value kind value in
    elim (Bool-cases (exists (is_ban kind v) db.bans)) [
      | inl e ↦ ground (arith, named, e, updated now kind v until db.bans)
      | inr e ↦ ground (arith, named, e, added now kind v until db.bans e)
    ]

-- A deleted ban is gone; the value is taken as it is given, so that a prefix that `CreateBan` stored
-- in capitals is found in capitals only.
lifted :
    (name value : Text) (kind : BanKind) (now : ℕ) (db : Db)
    → ban_kind name ≡ some kind
    → is_banned now kind value (delete_ban name value db).1 ≡ false
unfolding delete_ban delete_ban_row is_banned
lifted name value kind now db named = ground (arith, named, deleted now kind value db.bans)
