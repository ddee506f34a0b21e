-- ===== src/Rbac/Revoked.antt =====
-- A member whose membership is no longer active is shut out at once.
use ko_finance.Common.{
  Response, responds, ℕ, Text, codes, text_eq, strip, lower, member, Option, none, some, is_some,
  Bool, true, false, ◌&&◌, ◌||◌, find-updated, ◌≡◌, refl, sym, ap, ◌∙◌, arith, Bool-cases,
  Option-cases, inl, inr,
}
use ko_finance.Rbac.{
  MembershipRecord, Tables, roles, normalize_role, normalize_status, is_member, get_membership,
}
use ko_finance.Rbac.Service.{given, set_fields, update_row, updated, update_membership_fields}
use ko_finance.Rbac.Access.{
  RbacState, Guard, passes, denies, unknown_role, Headers, resolve_rbac_state, role_guard,
  require_org_role,
}
use ko_finance.Rbac.Routes.{OrgMemberUpdateRequest, patches, same_org, answered, change_members}
use ko_finance.Rbac.Guarded.{enforced}

module _ (org user : ℕ) where
  -- The membership, if there is one, is not active.
  Inactive : Tables → Type 0
  Inactive db =
      (m : MembershipRecord)
      → get_membership org user db ≡ some m
      → text_eq m.status (codes "active") ≡ false

  Inactive-denied :
      (later : Bool) (required : Text) (db : Tables)
      → Inactive db
      → role_guard true required
          (resolve_rbac_state later (record { user = some user; org = some org }) db)
        ≡ denies 403
  unfolding Inactive resolve_rbac_state
  Inactive-denied later required db h = elim (Option-cases (get_membership org user db)) [
    | inl e ↦ rw e refl
    | inr (m, e) ↦ rw e (rw (h m e) refl)
  ]

  update_row-Inactive :
      (now : ℕ) (role : Option Text) (status : Text) (db : Tables)
      → text_eq status (codes "active") ≡ false
      → Inactive (update_row now org user role (some status) db)
  unfolding Inactive
  update_row-Inactive now role status db h m found =
      let (old, _, e) =
        find-updated (is_member org user) (set_fields now role (some status)) (λ x. refl)
          db.user_orgs m found in
      ap (λ (x : MembershipRecord). text_eq x.status (codes "active")) e ∙ h

  updated-Inactive :
      (up : Bool) (now : ℕ) (role : Option Text) (status : Text) (db : Tables)
      (m : MembershipRecord)
      → text_eq status (codes "active") ≡ false
      → (updated up now org user role (some status) db).0 ≡ some m
      → Inactive (updated up now org user role (some status) db).1
  updated-Inactive true now none status db m h done = update_row-Inactive now none status db h
  updated-Inactive true now (some r) status db m h done =
      update_row-Inactive now (some r) status db h
  updated-Inactive false now none status db m h done = absurd (ground (arith, done))
  updated-Inactive false now (some r) status db m h done = absurd (ground (arith, done))

  update_membership_fields-Inactive :
      (up : Bool) (now : ℕ) (role status : Option Text) (s : Text) (db : Tables)
      (m : MembershipRecord)
      → given normalize_status status ≡ some (some s)
      → text_eq s (codes "active") ≡ false
      → (update_membership_fields up now org user role status db).0 ≡ some m
      → Inactive (update_membership_fields up now org user role status db).1
  unfolding update_membership_fields
  update_membership_fields-Inactive up now role status s db m named h done =
      elim (Option-cases (given normalize_role role)) [
        | inl e ↦ absurd (ground (arith, rw (update_membership_fields, e) at done))
        | inr (r, e) ↦
            rw (update_membership_fields, e, named)
              (updated-Inactive up now r s db m h (rw (update_membership_fields, e, named) at done))
      ]

  -- An answer that is no error is the service's.
  responded :
      (enforce up : Bool) (now : ℕ) (p : OrgMemberUpdateRequest) (h : Headers) (db : Tables)
      (m : MembershipRecord)
      → (change_members enforce up now org (patches user p) h db).0 ≡ responds m
      → change_members enforce up now org (patches user p) h db
        ≡ answered (update_membership_fields up now org user p.role p.status db)
  unfolding change_members
  responded enforce up now p h db m done =
      by_guard (require_org_role (codes "admin") (some true) s) refl
    where
      s : RbacState
      s = resolve_rbac_state enforce h db

      Answers : Type 0
      Answers =
          change_members enforce up now org (patches user p) h db
          ≡ answered (update_membership_fields up now org user p.role p.status db)

      by_guard : (g : Guard) → require_org_role (codes "admin") (some true) s ≡ g → Answers
      by_guard (denies code) e = absurd (ground (arith, rw (change_members, e) at done))
      by_guard unknown_role e = absurd (ground (arith, rw (change_members, e) at done))
      by_guard passes e =
          elim (Bool-cases (same_org org s && (is_some p.role || is_some p.status))) [
            | inl f ↦ rw (change_members, e) (rw f refl)
            | inr f ↦ absurd (ground (arith, rw f at (rw (change_members, e) at done)))
          ]

  answered-some :
      (w : Option MembershipRecord × Tables) (m : MembershipRecord)
      → (answered w).0 ≡ responds m
      → (w.0 ≡ some m) × ((answered w).1 ≡ w.1)
  answered-some (none, db) m h = absurd (ground (arith, h))
  answered-some (some n, db) m h = (ground (arith, h), refl)

  -- A membership that an admin has set to a status that is not active, and to which the route has
  -- answered without an error, opens no route of the organization any more: on the state that the
  -- answer leaves every enforced role of a route, whichever it is, denies the user's requests with 403.
  pub patched_member_denied :
      (enforce up later : Bool) (now : ℕ) (p : OrgMemberUpdateRequest) (s min_role : Text)
      (h : Headers) (db : Tables) (m : MembershipRecord)
      → given normalize_status p.status ≡ some (some s)
      → text_eq s (codes "active") ≡ false
      → member (lower (strip min_role)) roles ≡ true
      → (change_members enforce up now org (patches user p) h db).0 ≡ responds m
      → require_org_role min_role (some true) (
          resolve_rbac_state later
            (record { user = some user; org = some org })
            (change_members enforce up now org (patches user p) h db).1)
        ≡ denies 403
  patched_member_denied enforce up later now p s min_role h db m named inactive known done =
      let w = update_membership_fields up now org user p.role p.status db in
      let eq = responded enforce up now p h db m done in
      let (kept, left) =
        answered-some w m (ap (λ (v : Response MembershipRecord × Tables). v.0) (sym eq) ∙ done) in
      let tables : (change_members enforce up now org (patches user p) h db).1 ≡ w.1 =
        ap (λ (v : Response MembershipRecord × Tables). v.1) eq ∙ left in
      let headers : Headers = record { user = some user; org = some org } in
      enforced min_role
        (resolve_rbac_state later headers
          (change_members enforce up now org (patches user p) h db).1)
        known
      ∙ ap
          (λ (d : Tables).
            role_guard true (lower (strip min_role)) (resolve_rbac_state later headers d))
          tables
      ∙ Inactive-denied later (lower (strip min_role)) w.1
          (update_membership_fields-Inactive up now p.role p.status s db m named inactive kept)
