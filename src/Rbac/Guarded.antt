-- ===== src/Rbac/Guarded.antt =====
-- Who may change memberships, and what the guard of a route and the service's decision have in common.
use ko_finance.Common.{
  http_error, ℕ, Text, codes, text_eq, strip, lstrip, rstrip, is_space, lower, member, leb_ℤ,
  Option, none, some, Bool, true, false, ◌&&◌, ◌∷◌, ◌==◌, ◌≡◌, refl, sym, ap, ◌∙◌, ◌↔◌, ◌⊎◌, arith,
  Bool-cases, Option-cases, inl, inr,
}
use ko_finance.Rbac.{
  MembershipRecord, MembershipDecision, Tables, roles, role_rank, normalize_role, get_membership,
}
use ko_finance.Rbac.Service.{judged, decided, evaluate}
use ko_finance.Rbac.Access.{
  RbacState, Guard, passes, denies, unknown_role, Headers, resolve_rbac_state, member_guard,
  role_guard, require_org_role,
}
use ko_finance.Rbac.Routes.{MemberRequest, upserts, patches, same_org, member_body, change_members}

-- The member whom a request speaks for, with an active membership of a rank that is high enough.
abbrev pub Ranked : Text → Headers → Tables → Type 0
Ranked required h db =
    (org : ℕ) × (user : ℕ) × (m : MembershipRecord) × (h.org ≡ some org)
    × (h.user ≡ some user)
    × (get_membership org user db ≡ some m)
    × (text_eq m.status (codes "active") ≡ true)
    × (leb_ℤ (role_rank required) (role_rank m.role) ≡ true)

module _ (enforce : Bool) (required : Text) (db : Tables) where
  guard : Option ℕ → Option ℕ → Guard
  guard user org =
      role_guard true required (resolve_rbac_state enforce (record { user = user; org = org }) db)

  member_guard-passes :
      (m : MembershipRecord)
      → member_guard true required m ≡ passes
      → (text_eq m.status (codes "active") ≡ true)
        × (leb_ℤ (role_rank required) (role_rank m.role) ≡ true)
  member_guard-passes m h = elim (Bool-cases (text_eq m.status (codes "active"))) [
    | inr e ↦ absurd (ground (arith, rw e at h))
    | inl e ↦ elim (Bool-cases (leb_ℤ (role_rank required) (role_rank m.role))) [
      | inl f ↦ (e, f)
      | inr f ↦ absurd (ground (arith, rw (e, f) at h))
    ]
  ]

  guard-Ranked :
      (user org : Option ℕ)
      → guard user org ≡ passes
      → Ranked required (record { user = user; org = org }) db
  unfolding guard resolve_rbac_state
  guard-Ranked user none h = absurd (ground (arith, h))
  guard-Ranked none (some org) h = absurd (ground (arith, h))
  guard-Ranked (some user) (some org) h = elim (Option-cases (get_membership org user db)) [
    | inl e ↦ absurd (ground (arith, rw e at h))
    | inr (m, e) ↦
        let (active, rank) = member_guard-passes m (rw e at h) in
        (org, user, m, refl, refl, e, active, rank)
  ]

  -- The guard passes those.
  Ranked-guard :
      (user org : Option ℕ)
      → Ranked required (record { user = user; org = org }) db
      → guard user org ≡ passes
  unfolding guard resolve_rbac_state
  Ranked-guard user org (o, u, m, eo, eu, em, active, rank) =
      rw (eo, eu) (rw em (rw (active, rank) refl))

-- The guard of a known role, enforced.
pub enforced :
    (role : Text) (s : RbacState)
    → member (lower (strip role)) roles ≡ true
    → require_org_role role (some true) s ≡ role_guard true (lower (strip role)) s
unfolding require_org_role
enforced role s known = rw (require_org_role, known) refl

admin_enforced :
    (s : RbacState)
    → require_org_role (codes "admin") (some true) s ≡ role_guard true (codes "admin") s
unfolding require_org_role lower strip lstrip rstrip is_space text_eq
admin_enforced s = refl

known_role :
    (c : ℕ) (role : Text)
    → member (lower (strip (c ∷ role))) roles ≡ true
    → normalize_role (c ∷ role) ≡ some (lower (strip (c ∷ role)))
unfolding normalize_role
known_role c role known = rw (normalize_role, known) refl

module _ (c : ℕ) (role required : Text) (db : Tables)
    (known : normalize_role (c ∷ role) ≡ some required) where
  Allows : Option ℕ → Option ℕ → Type 0
  Allows user org =
      (d : MembershipDecision) × (evaluate org user (c ∷ role) db ≡ some d) × (d.allowed ≡ true)

  judged_lem :
      (m : MembershipRecord)
      → judged (c ∷ role) m ≡ some (decided (leb_ℤ (role_rank required) (role_rank m.role)) m)
  judged_lem m = rw (judged, known) refl

  Allows-Ranked :
      (user org : Option ℕ)
      → Allows user org
      → Ranked required (record { user = user; org = org }) db
  unfolding Allows evaluate
  Allows-Ranked user none (d, e, ok) = absurd (ground (arith, e, ok))
  Allows-Ranked none (some org) (d, e, ok) = absurd (ground (arith, e, ok))
  Allows-Ranked (some user) (some org) (d, e, ok) =
      elim (Option-cases (get_membership org user db)) [
        | inl f ↦ absurd (ground (arith, rw f at e, ok))
        | inr (m, f) ↦
            let decision = sym (judged_lem m) ∙ rw f at e in
            let sufficient = leb_ℤ (role_rank required) (role_rank m.role) in
            let both : (sufficient && text_eq m.status (codes "active")) ≡ true =
              ap (λ (o : Option MembershipDecision). elim o [ none ↦ false | some d ↦ d.allowed ])
                decision
              ∙ ok in
            (org, user, m, refl, refl, f, ground (arith, both), ground (arith, both))
      ]

  Ranked-Allows :
      (user org : Option ℕ)
      → Ranked required (record { user = user; org = org }) db
      → Allows user org
  unfolding Allows evaluate
  Ranked-Allows user org (o, u, m, eo, eu, em, active, rank) =
      (decided true m, rw (eo, eu) (rw em (judged_lem m ∙ rw rank refl)), rw active refl)

-- The guard and the service's decision agree: for the role of a route that is enforced, whatever the
-- headers and the tables, `require_org_role` lets the request pass if and only if `evaluate` allows it.
pub require_org_role-evaluate :
    (enforce : Bool) (c : ℕ) (role : Text) (h : Headers) (db : Tables)
    → member (lower (strip (c ∷ role))) roles ≡ true
    → (require_org_role (c ∷ role) (some true) (resolve_rbac_state enforce h db) ≡ passes) ↔ (
        (d : MembershipDecision) × (evaluate h.org h.user (c ∷ role) db ≡ some d)
        × (d.allowed ≡ true))
unfolding Allows guard
require_org_role-evaluate enforce c role h db known =
    let required = lower (strip (c ∷ role)) in
    let eq = enforced (c ∷ role) (resolve_rbac_state enforce h db) known in
    (
      (λ passed.
          Ranked-Allows c role required db (known_role c role known) h.user h.org
            (guard-Ranked enforce required db h.user h.org (sym eq ∙ passed))),
      (λ allows.
          eq
          ∙ Ranked-guard enforce required db h.user h.org
              (Allows-Ranked c role required db (known_role c role known) h.user h.org allows)),
    )

resolve_org :
    (enforce : Bool) (user org : Option ℕ) (db : Tables)
    → (resolve_rbac_state enforce (record { user = user; org = org }) db).org_id ≡ org
unfolding resolve_rbac_state
resolve_org enforce user none db = refl
resolve_org enforce none (some org) db = refl
resolve_org enforce (some user) (some org) db = refl

other_org :
    (up : Bool) (now org : ℕ) (request : MemberRequest) (s : RbacState) (db : Tables)
    → same_org org s ≡ false
    → member_body up now org request s db ≡ (http_error 400, db)
other_org up now org (upserts p) s db h = rw h refl
other_org up now org (patches user p) s db h = rw h refl

-- The memberships of an organization are changed by its admins alone: whatever the request, either its
-- headers name a user with an active membership as admin of the organization of the path, or the answer
-- is an HTTP error and the tables are as before.
pub change_members-Ranked :
    (enforce up : Bool) (now org : ℕ) (request : MemberRequest) (h : Headers) (db : Tables)
    → ((h.org ≡ some org) × Ranked (codes "admin") h db)
      ⊎ ((code : ℕ) × (change_members enforce up now org request h db ≡ (http_error code, db)))
unfolding change_members guard
change_members-Ranked enforce up now org request h db =
    by_guard (require_org_role (codes "admin") (some true) s) refl
  where
    s : RbacState
    s = resolve_rbac_state enforce h db

    Decided : Type 0
    Decided =
        ((h.org ≡ some org) × Ranked (codes "admin") h db)
        ⊎ ((code : ℕ) × (change_members enforce up now org request h db ≡ (http_error code, db)))

    by_guard : (g : Guard) → require_org_role (codes "admin") (some true) s ≡ g → Decided
    by_guard (denies code) e = inr (code, rw (change_members, e) refl)
    by_guard unknown_role e = inr (500, rw (change_members, e) refl)
    by_guard passes e =
        let ranked =
          guard-Ranked enforce (codes "admin") db h.user h.org (sym (admin_enforced s) ∙ e) in
        let named : s.org_id ≡ some ranked.0 = resolve_org enforce h.user h.org db ∙ ranked.3 in
        elim (Bool-cases (ranked.0 == org)) [
          | inl same ↦ inl (ranked.3 ∙ ap (λ (o : ℕ). some o) (ground (arith, same)), ranked)
          | inr other ↦
              inr (400, rw (change_members, e) (other_org up now org request s db (rw named other)))
        ]
