-- ===== src/Rbac/Calls.antt =====
-- Any calls of the service keep the tables of organizations and memberships sound.
use ko_finance.Common.{
  ℕ, Text, text_eq, Fields, Option, is_some, Bool, true, ◌&&◌, List, [], ◌∷◌, ◌++◌, find, exists,
  ◌==◌, All-imply, find-append_none, ◌≡◌, refl, ap, ◌∙◌, arith, Bool-cases, Option-cases, inl, inr,
}
use ko_finance.Rbac.{
  OrgRecord, MembershipRecord, Tables, get_org, get_membership, has_user, joined_orgs,
  list_memberships,
}
use ko_finance.Rbac.Service.{
  insert_org, insert_membership, personal_org, admin_of, bootstrap_org, first_or_new,
  ensure_personal_org, upsert_membership, update_membership_fields,
}
use ko_finance.Rbac.Sound.{
  Sound, SoundRow, append-Sound, update_membership_fields-Sound, upsert_membership-Sound,
}

-- A new organization leaves the rows sound.
insert_org-Sound : (o : OrgRecord) (db : Tables) → Sound db → Sound (insert_org o db)
insert_org-Sound o db (rows, once) = elim (Option-cases (get_org o.id db)) [
  | inr (p, e) ↦ rw (insert_org, e) (rows, once)
  | inl e ↦
      rw (insert_org, e)
        (
          All-imply (SoundRow db.orgs db.users) (SoundRow (db.orgs ++ o ∷ []) db.users) db.user_orgs
              (λ m h. (found_in m.org_id db.orgs h.0, h.1, h.2, h.3)) rows,
          once,
        )
]
  where
    found_in :
        (org : ℕ) (orgs : List OrgRecord)
        → is_some (find (λ (p : OrgRecord). p.id == org) orgs) ≡ true
        → is_some (find (λ (p : OrgRecord). p.id == org) (orgs ++ o ∷ [])) ≡ true
    found_in org [] h = absurd (ground (arith, h))
    found_in org (p ∷ orgs) h = elim (Bool-cases (p.id == org)) [
      | inl e ↦ rw e refl
      | inr e ↦ rw e (found_in org orgs (ground (arith, h, e)))
    ]

insert_membership-Sound :
    (m : MembershipRecord) (db : Tables)
    → SoundRow db.orgs db.users m
    → Sound db
    → Sound (insert_membership m db)
insert_membership-Sound m db row h = elim (Option-cases (get_membership m.org_id m.user_id db)) [
  | inl e ↦ rw (insert_membership, e) (append-Sound m db row e h)
  | inr (n, e) ↦ rw (insert_membership, e) h
]

-- The organization that is inserted is there.
insert_org-found : (o : OrgRecord) (db : Tables) → is_some (get_org o.id (insert_org o db)) ≡ true
insert_org-found o db = elim (Option-cases (get_org o.id db)) [
  | inr (p, e) ↦ rw (insert_org, e) (rw e refl)
  | inl e ↦
      let self : (o.id == o.id) ≡ true = ground arith in
      rw (insert_org, e)
        (rw (find-append_none (λ (p : OrgRecord). p.id == o.id) db.orgs (o ∷ []) e) (rw self refl))
]

insert_org-users : (o : OrgRecord) (db : Tables) → (insert_org o db).users ≡ db.users
insert_org-users o db = elim (Option-cases (get_org o.id db)) [
  | inl e ↦ rw (insert_org, e) refl
  | inr (p, e) ↦ rw (insert_org, e) refl
]

bootstrap_org-Sound :
    (up : Bool) (now org : ℕ) (name : Text) (user : ℕ) (db : Tables)
    → Sound db
    → Sound (bootstrap_org up now org name user db).1
unfolding text_eq
bootstrap_org-Sound up now org name user db h = elim (Bool-cases (up && has_user user db)) [
  | inr e ↦ rw e h
  | inl e ↦
      let o = personal_org now org name in
      rw e (
        insert_membership-Sound (admin_of now org user) (insert_org o db)
          (
            insert_org-found o db,
            ap (λ us. exists (λ u. u == user) us) (insert_org-users o db) ∙ ground (arith, e),
            refl,
            refl,
          )
          (insert_org-Sound o db h))
]

ensure_personal_org-Sound :
    (up : Bool) (now org : ℕ) (name : Text) (user : ℕ) (db : Tables)
    → Sound db
    → Sound (ensure_personal_org up now org name user db).1
unfolding ensure_personal_org
ensure_personal_org-Sound up now org name user db h =
    by_orgs (joined_orgs (list_memberships user db) db)
  where
    by_orgs : (os : List OrgRecord) → Sound (first_or_new up now org name user db os).1
    by_orgs [] = bootstrap_org-Sound up now org name user db h
    by_orgs (o ∷ more) = h

-- A call of the service at an instant, and whether its statements succeed.
pub data RbacCall : Type 0 where
  ensures : Bool → ℕ → ℕ → Text → ℕ → RbacCall
  upserts : Bool → ℕ → ℕ → ℕ → Text → Text → Option ℕ → Option Fields → RbacCall
  updates : Bool → ℕ → ℕ → ℕ → Option Text → Option Text → RbacCall

abbrev pub after_call : RbacCall → Tables → Tables
after_call (ensures up now org name user) db = (ensure_personal_org up now org name user db).1
after_call (upserts up now org user role status by metadata) db =
    (upsert_membership up now org user role status by metadata db).1
after_call (updates up now org user role status) db =
    (update_membership_fields up now org user role status db).1

abbrev pub after_calls : List RbacCall → Tables → Tables
after_calls [] db = db
after_calls (call ∷ calls) db = after_calls calls (after_call call db)

-- Whatever calls the service takes, and whichever of them fail: from sound tables, every membership
-- names a user and an organization that exist, has one of the three roles and one of the three
-- statuses, and no user is a member of an organization twice.
pub after_calls-Sound :
    (calls : List RbacCall) (db : Tables) → Sound db → Sound (after_calls calls db)
after_calls-Sound [] db h = h
after_calls-Sound (ensures up now org name user ∷ calls) db h =
    after_calls-Sound calls _ (ensure_personal_org-Sound up now org name user db h)
after_calls-Sound (upserts up now org user role status by metadata ∷ calls) db h =
    after_calls-Sound calls _ (upsert_membership-Sound up now org user role status by metadata db h)
after_calls-Sound (updates up now org user role status ∷ calls) db h =
    after_calls-Sound calls _ (update_membership_fields-Sound up now org user role status db h)
