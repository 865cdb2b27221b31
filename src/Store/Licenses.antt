-- ===== src/Store/Licenses.antt =====
-- The statements on licences, their events and their records of
-- apps/license-api/internal/store/licenses.go.
use vertify_license_platform.Prelude.{
  ℕ, ◌+◌, ◌-◌, ◌*◌, Bool, true, false, ◌||◌, not, Option, none, some, [], ◌∷◌, ◌++◌, ltb,
  if◌then◌else◌, is_some,
}
use vertify_license_platform.Domain.{LicenseStatus, license_is, ok, err, no_rows, unique_violation}
use vertify_license_platform.Store.Table.{find, update, reaches}
use vertify_license_platform.Store.Rows.{License, day, EventKind, Activation, Renewal}
use vertify_license_platform.Store.Tx.{Tx, selects}

-- `GetLicense`, with or without the lock
abbrev pub get_license : ℕ → Tx License
get_license id = selects (λ db. find (λ (l : License). l.id) id db.licenses)

-- `CreateLicense`: `l` has the key and the defaults that the schema gives, and the key must be free.
unfoldable pub create_license : License → Tx License
create_license l db =
    if is_some (find (λ (m : License). m.id) l.id db.licenses)
    then (err unique_violation, db)
    else (ok l, record db { licenses = db.licenses ++ l ∷ [] })

abbrev pub update_license : ℕ → (License → Bool) → (License → License) → Tx (Unit {0})
update_license id p f db = (
  if reaches (λ (l : License). l.id) id p db.licenses then ok tt else err no_rows,
  record db { licenses = update (λ (l : License). l.id) id p f db.licenses },
)

-- `TransitionLicense`
unfoldable pub transition_license : ℕ → LicenseStatus → LicenseStatus → Tx (Unit {0})
transition_license id from to =
    update_license id (λ l. license_is l.status from) (λ l. record l { status = to })

-- `TransitionLicenseTerminal`
unfoldable pub transition_license_terminal : ℕ → LicenseStatus → Tx (Unit {0})
transition_license_terminal id to =
    update_license id
      (λ l.
        not (license_is l.status LicenseStatus.revoked || license_is l.status LicenseStatus.voided))
      (λ l. record l { status = to })

-- `uses_left > 0`, which NULL does not satisfy
abbrev pub has_uses : License → Bool
has_uses l = elim l.uses_left [ none ↦ false | some n ↦ ltb 0 n ]

abbrev pub one_less : Option ℕ → Option ℕ
one_less none = none
one_less (some n) = some (n - 1)

-- the `RETURNING uses_left` of the row
abbrev pub uses_of : Option License → ℕ
uses_of none = 0
uses_of (some l) = elim l.uses_left [ none ↦ 0 | some n ↦ n ]

-- `ConsumeLicenseUse`
unfoldable pub consume_license_use : ℕ → Tx ℕ
consume_license_use id db = (
  if reaches (λ (l : License). l.id) id has_uses db.licenses
      then ok (uses_of (find (λ (l : License). l.id) id db.licenses) - 1)
      else err no_rows,
  record db {
    licenses =
        update (λ (l : License). l.id) id has_uses
          (λ l. record l { uses_left = one_less l.uses_left }) db.licenses;
  },
)

-- the CASE of `ExtendLicense` and `ExtendEndUser`
unfoldable pub extended : ℕ → ℕ → Option ℕ → ℕ
extended now days none = now + days * day
extended now days (some t) = if ltb t now then now + days * day else t + days * day

-- `ExtendLicense`: the row's new expiry
unfoldable pub extend_license : ℕ → ℕ → ℕ → Tx ℕ
unfolding extended
extend_license now id days db = elim (find (λ (l : License). l.id) id db.licenses) [
  | none ↦ (err no_rows, db)
  | some l ↦ (
    ok (extended now days l.expires_at),
    record db {
      licenses =
          update (λ (m : License). m.id) id (λ m. true)
            (λ m. record m { expires_at = some (extended now days m.expires_at) }) db.licenses;
    },
  )
]

-- `InsertLicenseEvent`
abbrev pub insert_event : ℕ → EventKind → Tx (Unit {0})
insert_event id kind db =
    (ok tt, record db { events = record { license_id = id; kind = kind } ∷ db.events })

-- `InsertActivation`
abbrev pub insert_activation : Activation → Tx (Unit {0})
insert_activation a db = (ok tt, record db { activations = a ∷ db.activations })

-- `InsertRenewal`
abbrev pub insert_renewal : Renewal → Tx (Unit {0})
insert_renewal a db = (ok tt, record db { renewals = a ∷ db.renewals })
