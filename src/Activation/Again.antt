-- ===== src/Activation/Again.antt =====
-- Activating an active card again (`case "active"` of `Activate` in
-- apps/license-api/internal/service/service.go): the device limit, and a machine that was unbound.
use vertify_license_platform.Prelude.{
  ℕ, suc, ◌≤◌, ◌≡◌, refl, Bool, true, ◌&&◌, some, leb, inl, inr, Bool-cases, Option-cases, Text,
  text_eq, arith,
}
use vertify_license_platform.Store.Table.{find, first, count, find-key, count-update, count-append}
use vertify_license_platform.Store.Rows.{Plan, Product, Card, License, Device, Kty, TrustLevel, Db}
use vertify_license_platform.Store.Licenses.{consume_license_use}
use vertify_license_platform.Store.Devices.{
  create_device, same_machine, active_on, rotate_device_pub, get_device_by_fingerprint,
}
use vertify_license_platform.Activation.{
  Activating, bound_device, kty_eq, reactivate, bind_device, by_machine, activate_active,
}

abbrev pub devices_on : ℕ → Db → ℕ
devices_on id db = count (active_on id) db.devices

rotate_keeps :
    (k id : ℕ) (key : Text) (kty : Kty) (trust : TrustLevel) (db : Db)
    → devices_on id (rotate_device_pub k key kty trust db).1 ≡ devices_on id db
unfolding rotate_device_pub
rotate_keeps k id key kty trust db = ground (
  arith,
  count-update (λ (d : Device). d.id) (active_on id) k (λ d. true)
      (λ d. record d { device_pub = key; pub_kty = kty; trust_level = trust }) db.devices
      (λ d. refl),
)

reactivate_keeps :
    (a : Activating) (card : Card) (lic : License) (dev : Device) (plan : Plan) (prod : Product)
    (id : ℕ) (db : Db)
    → devices_on id (reactivate a card lic dev plan prod db).1 ≡ devices_on id db
unfolding reactivate
reactivate_keeps a card lic dev plan prod id db =
    ground (arith, rotate_keeps dev.id id a.device_pub a.pub_kty a.trust_level db)

create_adds :
    (d : Device) (id : ℕ) (db : Db) → devices_on id (create_device d db).1 ≤ suc (devices_on id db)
unfolding create_device
create_adds d id db = ground (arith, count-append (active_on id) db.devices d)

bind_within :
    (a : Activating) (card : Card) (lic : License) (plan : Plan) (prod : Product) (db : Db)
    → devices_on lic.id db ≤ plan.device_limit
    → devices_on lic.id (bind_device a card lic plan prod db).1 ≤ plan.device_limit
unfolding bind_device consume_license_use
bind_within a card lic plan prod db h =
    elim (Bool-cases (leb plan.device_limit (devices_on lic.id db))) [
      | inl e ↦ ground (arith, e)
      | inr e ↦ ground (
        arith,
        e,
        create_adds (bound_device a lic.id) lic.id db,
        create_adds (bound_device a lic.id) lic.id (consume_license_use lic.id db).1,
      )
    ]

by_machine_within :
    (a : Activating) (card : Card) (lic : License) (plan : Plan) (prod : Product) (db : Db)
    → devices_on lic.id db ≤ plan.device_limit
    → devices_on lic.id (by_machine a card lic plan prod db).1 ≤ plan.device_limit
unfolding get_device_by_fingerprint
by_machine_within a card lic plan prod db h =
    elim (Option-cases (first (same_machine lic.id a.fp_hash) db.devices)) [
      | inl e ↦ ground (arith, e, bind_within a card lic plan prod db h)
      | inr (dev, e) ↦ ground (arith, e, reactivate_keeps a card lic dev plan prod lic.id db)
    ]

-- An active card never takes its licence over the device limit of the card's plan, with whatever
-- result the request ends: a licence within the limit is within it afterwards.
pub active_within_limit :
    (a : Activating) (card : Card) (plan : Plan) (prod : Product) (id : ℕ) (db : Db)
    → card.license_id ≡ some id
    → devices_on id db ≤ plan.device_limit
    → devices_on id (activate_active a card plan prod db).1 ≤ plan.device_limit
unfolding activate_active
active_within_limit a card plan prod id db linked h =
    elim (Option-cases (find (λ (l : License). l.id) id db.licenses)) [
      | inl e ↦ ground (arith, linked, e)
      | inr (lic, e) ↦
          let key : lic.id ≡ id = find-key (λ (l : License). l.id) id db.licenses lic e in
          ground (arith, linked, e, key, by_machine_within a card lic plan prod db)
    ]

-- whether the machine offers the key that its row has
abbrev pub same_key : Activating → Device → Bool
same_key a dev = text_eq dev.device_pub a.device_pub && kty_eq dev.pub_kty a.pub_kty
