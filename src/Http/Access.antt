-- ===== src/Http/Access.antt =====
-- Which requests pass the gate of the administration API, and with which roles.
use vertify_license_platform.Prelude.{
  ℕ, ◌≡◌, refl, ◌↔◌, ◌⊎◌, Bool, true, false, not, ◌&&◌, ◌||◌, none, some, inl, inr, Option-cases,
  Bool-cases, is_empty, Text, text_eq, arith,
}
use vertify_license_platform.Domain.{
  ok, Result-cases, AdminRole, superadmin, agent, auditor, viewer,
}
use vertify_license_platform.Domain.Roles.{role_has}
use vertify_license_platform.Passwords.{Passwords}
use vertify_license_platform.Store.Table.{find, first}
use vertify_license_platform.Store.Accounts.{Admin}
use vertify_license_platform.Store.Rows.{Db}
use vertify_license_platform.Store.Admins.{live_session, get_session_by_token_hash}
use vertify_license_platform.SignIn.{AdminContext, resolve_session, check_csrf}
use vertify_license_platform.Http.{Answer}
use vertify_license_platform.Http.Routes.{
  Route, method, permission, path, is_auth, create_batch, import_cards, card_action, set_card_note,
  reveal_card, bulk_card_action,
}
use vertify_license_platform.Http.Gate.{
  Request, Gated, refused, passed, is_get, allowed, require_perm, check_session,
  require_admin_session, gate,
}

-- the paths that are open before the first change of the password are those under `/auth`
allowed-path : (r : Route) (id : Text) → allowed (path r id) ≡ is_auth r
unfolding path text_eq
allowed-path r id = ground arith

-- the role may use the route
abbrev pub may_use : AdminRole → Route → Bool
may_use role r = elim (permission r) [ none ↦ true | some p ↦ role_has role p ]

Gated-cases :
    (g : Gated) → ((a : Answer) × (g ≡ refused a)) ⊎ ((ac : AdminContext) × (g ≡ passed ac))
Gated-cases (refused a) = inl (a, refl)
Gated-cases (passed ac) = inr (ac, refl)

-- what the checks of a live session ask
abbrev pub is_cleared : Request → AdminContext → Bool
is_cleared req ac =
    (is_get (method req.route)
      || (not (is_empty req.csrf_header) && text_eq req.csrf_header ac.session.csrf_token))
    && (not ac.admin.must_change_password || is_auth req.route)

check_session_iff :
    (req : Request) (ac ac' : AdminContext) (db : Db)
    → (check_session req ac db ≡ passed ac') ↔ ((ac ≡ ac') × (is_cleared req ac ≡ true))
unfolding check_session check_csrf
check_session_iff req ac ac' db = ground (arith, allowed-path req.route req.id)

require_perm_iff :
    (r : Route) (ac ac' : AdminContext)
    → (require_perm (permission r) ac ≡ passed ac')
      ↔ ((ac ≡ ac') × (may_use ac.admin.role r ≡ true))
unfolding require_perm
require_perm_iff r ac ac' = elim (Option-cases (permission r)) [
  | inl e ↦ ground (arith, e)
  | inr (p, e) ↦ ground (arith, e)
]

module _ (pw : Passwords) (digest : Text → Text) (verify_totp : Text → Text → ℕ → Bool)
    (ttl : ℕ) where
  -- a token that opens a session, in terms of the tables
  resolve_session_iff :
      (now : ℕ) (token : Text) (ac : AdminContext) (db : Db)
      → ((resolve_session pw digest verify_totp ttl now token db).0 ≡ ok ac) ↔ (
          (first (live_session now (digest token)) db.sessions ≡ some ac.session)
          × (find (λ (a : Admin). a.id) ac.session.admin_id db.admins ≡ some ac.admin)
          × (ac.admin.is_active ≡ true))
  unfolding resolve_session get_session_by_token_hash
  resolve_session_iff now token ac db =
      elim (Option-cases (first (live_session now (digest token)) db.sessions)) [
        | inl e ↦ ground (arith, e)
        | inr (s, e) ↦ elim (Option-cases (find (λ (a : Admin). a.id) s.admin_id db.admins)) [
          | inl e' ↦ ground (arith, e, e')
          | inr (a, e') ↦ elim (Bool-cases a.is_active) [
            | inl e'' ↦ ground (arith, e, e', e'')
            | inr e'' ↦ ground (arith, e, e', e'')
          ]
        ]
      ]

  -- Who shall reach the handler: the administrator of a session that is live, in the tables.
  pub record IsAdmitted (req : Request) (ac : AdminContext) (db : Db) : Type 0 where
    pub token : Text
    pub cookie : req.cookie ≡ some token
    pub proper : is_empty token ≡ false
    pub live : first (live_session req.now (digest token)) db.sessions ≡ some ac.session
    pub holder : find (λ (a : Admin). a.id) ac.session.admin_id db.admins ≡ some ac.admin
    pub active : ac.admin.is_active ≡ true
    pub cleared : is_cleared req ac ≡ true
    pub granted : may_use ac.admin.role req.route ≡ true

  require_admin_session_iff :
      (req : Request) (ac : AdminContext) (db : Db)
      → (require_admin_session pw digest verify_totp ttl req db ≡ passed ac) ↔ (
          (token : Text) × (req.cookie ≡ some token)
          × (is_empty token ≡ false)
          × ((resolve_session pw digest verify_totp ttl req.now token db).0 ≡ ok ac)
          × (is_cleared req ac ≡ true))
  unfolding require_admin_session
  require_admin_session_iff req ac db = elim (Option-cases req.cookie) [
    | inl e ↦ (λ h. absurd (grind (arith, e, h)), λ (t, c, _, _, _). absurd (grind (arith, e, c)))
    | inr (token, e) ↦ elim (Bool-cases (is_empty token)) [
      | inl e' ↦ (
        λ h. absurd (grind (arith, e, e', h)),
        λ (t, c, p, _, _). absurd (grind (arith, e, e', c, p)),
      )
      | inr e' ↦
          elim (Result-cases (resolve_session pw digest verify_totp ttl req.now token db).0) [
            | inr (x, f) ↦ (
              λ h. absurd (grind (arith, e, e', f, h)),
              λ (t, c, p, o, _). absurd (grind (arith, e, f, c, o)),
            )
            | inl (a, f) ↦ (
              (λ h.
                  let done = (check_session_iff req a ac db).0 (ground (arith, e, e', f, h)) in
                  (token, e, e', ground (arith, f, done), ground (arith, done))),
              λ (t, c, p, o, k).
                  let same : a ≡ ac = grind (arith, e, c, f, o) in
                  let done = (check_session_iff req a ac db).1 (same, grind (arith, same, k)) in
                  grind (arith, e, e', f, done),
            )
          ]
    ]
  ]

  -- A request reaches the handler of its route exactly if its cookie opens a live session of an
  -- active administrator, its CSRF token is the session's unless the method is GET, the route is one
  -- of those under `/auth` while the administrator has to change the password, and their role has
  -- the permission of the route.
  pub gate_iff :
      (req : Request) (ac : AdminContext) (db : Db)
      → (gate pw digest verify_totp ttl req db ≡ passed ac) ↔ IsAdmitted req ac db
  unfolding gate
  gate_iff req ac db = (
    λ h. elim (Gated-cases (require_admin_session pw digest verify_totp ttl req db)) [
      | inl (a, e) ↦ absurd (grind (arith, e, h))
      | inr (x, e) ↦
          let (same, may) = (require_perm_iff req.route x ac).0 (ground (arith, e, h)) in
          let (token, c, p, o, k) =
            (require_admin_session_iff req ac db).0 (grind (arith, e, same)) in
          let (live, holder, active) = (resolve_session_iff req.now token ac db).0 o in
          record {
            token = token;
            cookie = c;
            proper = p;
            live = live;
            holder = holder;
            active = active;
            cleared = k;
            granted = grind (arith, same, may);
          }
    ],
    λ a.
        let open_session =
          (resolve_session_iff req.now a.token ac db).1 (a.live, a.holder, a.active) in
        let e =
          (require_admin_session_iff req ac db).1
            (a.token, a.cookie, a.proper, open_session, a.cleared) in
        let f = (require_perm_iff req.route ac ac).1 (refl, a.granted) in ground (arith, e, f),
  )

-- the routes that sell cards or act on them
abbrev pub is_card_route : Route → Bool
is_card_route create_batch = true
is_card_route import_cards = true
is_card_route card_action = true
is_card_route set_card_note = true
is_card_route reveal_card = true
is_card_route bulk_card_action = true
is_card_route _ = false

writers :
    (role : AdminRole) (r : Route)
    → may_use role r ≡ true
    → is_get (method r) ≡ false
    → is_auth r ≡ false
    → (role ≡ superadmin) ⊎ (role ≡ AdminRole.admin) ⊎ ((role ≡ agent) × (is_card_route r ≡ true))
unfolding permission method role_has
writers superadmin r may post other = inl refl
writers AdminRole.admin r may post other = inr (inl refl)
writers agent r may post other = inr (inr (refl, ground (arith, may, post, other)))
writers auditor r may post other = absurd (ground (arith, may, post, other))
writers viewer r may post other = absurd (ground (arith, may, post, other))

module _ (pw : Passwords) (digest : Text → Text) (verify_totp : Text → Text → ℕ → Bool)
    (ttl : ℕ) where
  -- A request that is not GET reaches a handler outside `/auth` only if its administrator is a
  -- superadmin or an admin, or else an agent, and the route creates, imports, changes or reveals
  -- cards: auditors and viewers change nothing there.
  pub readers_change_nothing :
      (req : Request) (ac : AdminContext) (db : Db)
      → gate pw digest verify_totp ttl req db ≡ passed ac
      → is_get (method req.route) ≡ false
      → is_auth req.route ≡ false
      → (ac.admin.role ≡ superadmin)
        ⊎ (ac.admin.role ≡ AdminRole.admin)
        ⊎ ((ac.admin.role ≡ agent) × (is_card_route req.route ≡ true))
  readers_change_nothing req ac db through post other =
      let admitted = (gate_iff pw digest verify_totp ttl req ac db).0 through in
      writers ac.admin.role req.route admitted.granted post other
