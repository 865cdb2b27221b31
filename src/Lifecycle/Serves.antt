-- ===== src/Lifecycle/Serves.antt =====
-- That every request keeps what the statements on cards and licences keep.
use vertify_license_platform.Prelude.{
  ℕ, ◌≡◌, refl, Bool, false, Option, none, some, List, [], ◌∷◌, inl, inr, Option-cases, arith,
}
use vertify_license_platform.Domain.{
  device_not_found, CardStatus, terminal, LicenseStatus, ok, Result-cases,
}
use vertify_license_platform.Store.Table.{find, first}
use vertify_license_platform.Store.Rows.{Card, License, Device, Plan, Db}
use vertify_license_platform.Store.Tx.{with_tx, or_raise, raise_if, ◌>>=◌, ◌>>◌}
use vertify_license_platform.Store.Cards.{
  by_lookup, get_card_by_lookup, transition_card_status, transition_card_to_terminal,
}
use vertify_license_platform.Store.Licenses.{
  transition_license_terminal, extend_license, get_license,
}
use vertify_license_platform.Store.Devices.{unbind_device, get_device}
use vertify_license_platform.Store.Keeps.{select-Keeps, bind-Keeps, Keeps, with_tx-Keeps}
use vertify_license_platform.Activation.{activate_body}
use vertify_license_platform.Redeem.{
  Redeeming, renew, redeem_planned, redeem_body, redeem, redeemable,
}
use vertify_license_platform.Admin.{
  Action, freeze, unfreeze, revoke, void, other, follow, card_action_tx, license_change,
  license_action_tx, card_change, Actor, admin_unbind_device, unbind_tx, agent_denied,
  admin_extend_license,
}
use vertify_license_platform.Lifecycle.{
  Request, activates, redeems, acts_on_card, acts_on_license, unbinds, extends, serve, serve_all,
}
use vertify_license_platform.Lifecycle.Statements.{Kept, AreKept}
use vertify_license_platform.Lifecycle.Activates.{activate-Keeps}

module _ (Q : List Card → List License → Bool) (st : AreKept Q) where
  renew-Keeps :
      (q : Redeeming) (lic : License) (card : Card) (days : ℕ) (plan : Plan)
      → Keeps (Kept Q) (renew q lic card days plan)
  unfolding renew
  renew-Keeps q lic card days plan db h = ground (
    arith,
    h,
    st.extends q.tx_now lic.id days db h,
    st.depletes card.id (extend_license q.tx_now lic.id days db).1
        (st.extends q.tx_now lic.id days db h),
  )

  follow-Keeps : (action : Action) (j : ℕ) → Keeps (Kept Q) (follow action j)
  follow-Keeps freeze j db h =
      ground (arith, st.transitions j LicenseStatus.active LicenseStatus.frozen refl db h)
  follow-Keeps unfreeze j db h =
      ground (arith, st.transitions j LicenseStatus.frozen LicenseStatus.active refl db h)
  follow-Keeps revoke j db h = ground (arith, st.ends j LicenseStatus.revoked db h)
  follow-Keeps void j db h = ground (arith, st.ends j LicenseStatus.voided db h)
  follow-Keeps other j db h = h

  -- a transition that is no end starts from a status that is no end
  live_from :
      (action : Action) (card : Card) (t target : CardStatus)
      → card_change action card ≡ ok (some t, target)
      → terminal t ≡ false
  unfolding card_change
  live_from freeze card t target can = ground (arith, can)
  live_from unfreeze card t target can = ground (arith, can)
  live_from revoke card t target can = absurd (grind (arith, can))
  live_from void card t target can = absurd (grind (arith, can))
  live_from other card t target can = absurd (grind (arith, can))

  card_tx-Keeps :
      (action : Action) (card : Card) (from : Option CardStatus) (target : CardStatus)
      → card_change action card ≡ ok (from, target)
      → Keeps (Kept Q) (card_action_tx action card from target)
  unfolding card_action_tx card_change
  card_tx-Keeps action card none target can db h =
      let db₁ = (transition_card_to_terminal card.id target db).1 in
      let h₁ = st.ends_card card.id target db h in
      elim (Option-cases card.license_id) [
        | inl e ↦ ground (arith, e, h₁)
        | inr (j, e) ↦ ground (arith, e, h₁, follow-Keeps action j db₁ h₁)
      ]
  card_tx-Keeps action card (some t) target can db h =
      let db₁ = (transition_card_status card.id t target db).1 in
      let h₁ = st.changes_card card.id t target (live_from action card t target can) db h in
      elim (Option-cases card.license_id) [
        | inl e ↦ ground (arith, e, h₁)
        | inr (j, e) ↦ ground (arith, e, h₁, follow-Keeps action j db₁ h₁)
      ]

  license_tx-Keeps :
      (action : Action) (seen : License) (target : LicenseStatus)
      → license_change action seen ≡ ok target
      → Keeps (Kept Q) (license_action_tx action seen target)
  unfolding license_change license_action_tx
  license_tx-Keeps freeze seen target can db h =
      ground (arith, st.transitions seen.id seen.status target (ground (arith, can)) db h)
  license_tx-Keeps unfreeze seen target can db h =
      ground (arith, st.transitions seen.id seen.status target (ground (arith, can)) db h)
  license_tx-Keeps revoke seen target can db h =
      let db₁ = (transition_license_terminal seen.id LicenseStatus.revoked db).1 in
      let h₁ = st.ends seen.id LicenseStatus.revoked db h in
      ground (arith, h₁, st.ends_card seen.origin_card_id CardStatus.revoked db₁ h₁)
  license_tx-Keeps void seen target can db h =
      let db₁ = (transition_license_terminal seen.id LicenseStatus.voided db).1 in
      let h₁ = st.ends seen.id LicenseStatus.voided db h in
      ground (arith, h₁, st.ends_card seen.origin_card_id CardStatus.voided db₁ h₁)
  license_tx-Keeps other seen target can db h = h

  unbind_tx-Keeps : (now j : ℕ) → Keeps (Kept Q) (unbind_tx now j)
  unfolding unbind_tx unbind_device
  unbind_tx-Keeps now j db h = elim (Option-cases (find (λ (d : Device). d.id) j db.devices)) [
    | inl e ↦ ground (arith, e, h)
    | inr (d, e) ↦ ground (arith, e, h)
  ]

  unbind-Keeps : (ac : Actor) (now j : ℕ) → Keeps (Kept Q) (admin_unbind_device ac now j)
  unfolding admin_unbind_device
  unbind-Keeps ac now j =
      bind-Keeps (Kept Q) (or_raise (get_device j) device_not_found)
        (λ seen. get_license seen.license_id >>= λ lic.
          raise_if (agent_denied ac lic.agent_id) device_not_found >> unbind_tx now j)
        (λ db h. ground (arith, h))
        (λ seen.
          bind-Keeps (Kept Q) (get_license seen.license_id)
            (λ lic. raise_if (agent_denied ac lic.agent_id) device_not_found >> unbind_tx now j)
            (select-Keeps (Kept Q) (λ db. find (λ (l : License). l.id) seen.license_id db.licenses))
            (λ lic.
              bind-Keeps (Kept Q) (raise_if (agent_denied ac lic.agent_id) device_not_found)
                (λ _. unbind_tx now j) (λ db h. h) (λ _. unbind_tx-Keeps now j)))

  admin_extend-Keeps :
      (ac : Actor) (now j days : ℕ) → Keeps (Kept Q) (admin_extend_license ac now j days)
  unfolding admin_extend_license with_tx
  admin_extend-Keeps ac now j days db h = ground (arith, h, st.extends now j days db h)

  planned-Keeps :
      (q : Redeeming) (lic : License) (card : Card) → Keeps (Kept Q) (redeem_planned q lic card)
  unfolding redeem_planned
  planned-Keeps q lic card db h =
      elim (Option-cases (find (λ (p : Plan). p.id) card.plan_id db.plans)) [
        | inl e ↦ ground (arith, e, h)
        | inr (plan, e) ↦ elim (Option-cases (find (λ (p : Plan). p.id) lic.plan_id db.plans)) [
          | inl e' ↦ ground (arith, e, e', h)
          | inr (license_plan, e') ↦
              ground (arith, e, e', h, renew-Keeps q lic card plan.duration_days license_plan db h)
        ]
      ]

  redeem-Keeps : (q : Redeeming) → Keeps (Kept Q) (redeem_body q)
  unfolding redeem_body redeemable get_card_by_lookup
  redeem-Keeps q db h =
      elim (Option-cases (find (λ (l : License). l.id) q.license_id db.licenses)) [
        | inl e ↦ ground (arith, e, h)
        | inr (lic, e) ↦ elim (Option-cases (first (by_lookup q.lookup) db.cards)) [
          | inl e' ↦ ground (arith, e, e', h)
          | inr (card, e') ↦ ground (arith, e, e', h, planned-Keeps q lic card db h)
        ]
      ]

  serve-Keeps : (q : Request) (db : Db) → (Kept Q) db → (Kept Q) (serve q db)
  unfolding serve redeem
  serve-Keeps (activates a) db h =
      with_tx-Keeps (Kept Q) (activate_body a) (activate-Keeps Q st a) db h
  serve-Keeps (redeems q) db h = with_tx-Keeps (Kept Q) (redeem_body q) (redeem-Keeps q) db h
  serve-Keeps (acts_on_card action seen) db h = elim (Result-cases (card_change action seen)) [
    | inr (e, c) ↦ ground (arith, c, h)
    | inl ((from, target), c) ↦ ground (
      arith,
      c,
      h,
      with_tx-Keeps (Kept Q) (card_action_tx action seen from target)
          (card_tx-Keeps action seen from target c) db h,
    )
  ]
  serve-Keeps (acts_on_license action seen) db h =
      elim (Result-cases (license_change action seen)) [
        | inr (e, c) ↦ ground (arith, c, h)
        | inl (target, c) ↦ ground (
          arith,
          c,
          h,
          with_tx-Keeps (Kept Q) (license_action_tx action seen target)
              (license_tx-Keeps action seen target c) db h,
        )
      ]
  serve-Keeps (unbinds ac now j) db h = unbind-Keeps ac now j db h
  serve-Keeps (extends ac now j days) db h = admin_extend-Keeps ac now j days db h

  pub serve_all-Keeps : (qs : List Request) (db : Db) → Kept Q db → Kept Q (serve_all qs db)
  unfolding serve_all
  serve_all-Keeps [] db h = h
  serve_all-Keeps (q ∷ qs) db h = serve_all-Keeps qs (serve q db) (serve-Keeps q db h)
