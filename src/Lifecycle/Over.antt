-- ===== src/Lifecycle/Over.antt =====
-- A revoked or voided licence stays so, whatever is asked of the service.
use vertify_license_platform.Prelude.{
  ℕ, ◌≡◌, refl, Bool, true, false, not, some, inl, inr, Option-cases, List, arith,
}
use vertify_license_platform.Domain.{LicenseStatus, license_is}
use vertify_license_platform.Store.Table.{find, holds, find-update, find-append}
use vertify_license_platform.Store.Rows.{License, Db}
use vertify_license_platform.Store.Cards.{
  set_card_status, set_card_activated, transition_card_status, transition_card_to_terminal,
}
use vertify_license_platform.Store.Licenses.{
  create_license, consume_license_use, extend_license, extended, has_uses, one_less,
  transition_license, transition_license_terminal, update_license,
}
use vertify_license_platform.Store.Keeps.{Keeps}
use vertify_license_platform.Admin.Cards.{license_over}
use vertify_license_platform.Lifecycle.{Request, serve_all}
use vertify_license_platform.Lifecycle.Statements.{AreKept}
use vertify_license_platform.Lifecycle.Serves.{serve_all-Keeps}

-- the licence is in the table, with the status `s`
abbrev pub has_status : ℕ → LicenseStatus → Db → Bool
has_status k s db =
    holds (λ (l : License). license_is l.status s) (find (λ (l : License). l.id) k db.licenses)

-- the property that the requests keep
abbrev pub Holds : ℕ → LicenseStatus → Db → Type 0
Holds k s db = has_status k s db ≡ true

module _ (k : ℕ) (s : LicenseStatus) (over : license_over s ≡ true) where
  update-Keeps :
      (j : ℕ) (p : License → Bool) (f : License → License)
      → ((l : License) → (f l).id ≡ l.id)
      → ((l : License)
          → license_is l.status s ≡ true
          → p l ≡ true
          → license_is (f l).status s ≡ true)
      → Keeps (Holds k s) (update_license j p f)
  update-Keeps j p f key same db h =
      elim (Option-cases (find (λ (l : License). l.id) k db.licenses)) [
        | inl e ↦ ground (arith, e)
        | inr (l, e) ↦
            ground (arith, e, find-update (λ (l : License). l.id) j p f k db.licenses key, same l)
      ]

  create-Keeps : (l : License) → Keeps (Holds k s) (create_license l)
  unfolding create_license
  create-Keeps l db h = ground (arith, find-append (λ (m : License). m.id) k db.licenses l)

  transition-Keeps :
      (j : ℕ) (from to : LicenseStatus)
      → license_over from ≡ false
      → Keeps (Holds k s) (transition_license j from to)
  unfolding transition_license
  transition-Keeps j from to live =
      update-Keeps j (λ l. license_is l.status from) (λ l. record l { status = to }) (λ l. refl)
        (λ l e e'. ground (arith, over, live))

  terminal-Keeps :
      (j : ℕ) (to : LicenseStatus) → Keeps (Holds k s) (transition_license_terminal j to)
  unfolding transition_license_terminal
  terminal-Keeps j to =
      update-Keeps j (λ l. not (license_over l.status)) (λ l. record l { status = to }) (λ l. refl)
        (λ l e e'. ground (arith, over))

  consume-Keeps : (j : ℕ) → Keeps (Holds k s) (consume_license_use j)
  unfolding consume_license_use
  consume-Keeps j db h =
      update-Keeps j has_uses (λ l. record l { uses_left = one_less l.uses_left }) (λ l. refl)
        (λ l e e'. e) db h

  extend-Keeps : (now j days : ℕ) → Keeps (Holds k s) (extend_license now j days)
  unfolding extend_license
  extend-Keeps now j days db h =
      let kept =
        update-Keeps j (λ l. true)
          (λ l. record l { expires_at = some (extended now days l.expires_at) }) (λ l. refl)
          (λ l e e'. e) db h in
      ground (arith, kept)

  kept : AreKept (λ cards licenses.
      holds (λ (l : License). license_is l.status s) (find (λ (l : License). l.id) k licenses))
  unfolding set_card_status set_card_activated transition_card_status transition_card_to_terminal
  kept = record {
    creates = create-Keeps;
    consumes = consume-Keeps;
    extends = extend-Keeps;
    transitions = transition-Keeps;
    ends = terminal-Keeps;
    depletes = λ id db h. h;
    activates = λ id license_id at db h. h;
    changes_card = λ id from to live db h. h;
    ends_card = λ id to db h. h;
  }

  -- A licence that is revoked, or voided, stays so, whatever requests are served, in whatever order,
  -- and on whatever outdated rows administrators decide.
  pub license_over_stays :
      (qs : List Request) (db : Db)
      → has_status k s db ≡ true
      → has_status k s (serve_all qs db) ≡ true
  license_over_stays =
      serve_all-Keeps
        (λ cards licenses.
          holds (λ (l : License). license_is l.status s) (find (λ (l : License). l.id) k licenses))
        kept
