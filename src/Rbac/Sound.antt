-- ===== src/Rbac/Sound.antt =====
-- The tables of organizations and memberships stay sound.
use ko_finance.Common.{
  ℕ, Text, member, Fields, Option, none, some, is_some, Bool, true, false, ◌&&◌, List, [], ◌∷◌,
  ◌++◌, find, exists, ◌==◌, All, All-append, All-update_where, Unique, Unique-append_one,
  Unique-update_where, ◌≡◌, refl, arith, Bool-cases, Option-cases, inl, inr,
}
use ko_finance.Rbac.{
  OrgRecord, MembershipRecord, Tables, roles, valid_statuses, normalize_role, normalize_status,
  is_member, get_membership, has_refs,
}
use ko_finance.Rbac.Service.{
  new_membership, on_conflict, upsert_row, upserted, upsert_membership, given, set_fields,
  update_row, updated, update_membership_fields,
}

-- A membership of a user and an organization that exist, with a role and a status of the lists.
abbrev pub SoundRow : List OrgRecord → List ℕ → MembershipRecord → Type 0
SoundRow orgs users m =
    (is_some (find (λ (o : OrgRecord). o.id == m.org_id) orgs) ≡ true)
    × (exists (λ u. u == m.user_id) users ≡ true)
    × (member m.role roles ≡ true)
    × (member m.status valid_statuses ≡ true)

abbrev pub same_member : MembershipRecord → MembershipRecord → Bool
same_member m = is_member m.org_id m.user_id

-- All memberships are sound, and a user is a member of an organization once.
abbrev pub Sound : Tables → Type 0
Sound db = All (SoundRow db.orgs db.users) db.user_orgs × Unique same_member db.user_orgs

same_member_comm : (m n : MembershipRecord) → same_member m n ≡ same_member n m
same_member_comm m n = ground arith

normalize_role-member : (role r : Text) → normalize_role role ≡ some r → member r roles ≡ true
unfolding normalize_role
normalize_role-member role r h = ground (arith, h)

normalize_status-member :
    (status s : Text) → normalize_status status ≡ some s → member s valid_statuses ≡ true
unfolding normalize_status
normalize_status-member status s h = ground (arith, h)

-- Rows with statuses and roles of the lists keep them under an update.
set_fields-SoundRow :
    (orgs : List OrgRecord) (users : List ℕ) (now : ℕ) (role status : Option Text)
    (m : MembershipRecord)
    → (elim role [ none ↦ true | some r ↦ member r roles ] ≡ true)
    → (elim status [ none ↦ true | some s ↦ member s valid_statuses ] ≡ true)
    → SoundRow orgs users m
    → SoundRow orgs users (set_fields now role status m)
set_fields-SoundRow orgs users now none none m hr hs h = h
set_fields-SoundRow orgs users now none (some s) m hr hs (a, b, c, d) = (a, b, c, hs)
set_fields-SoundRow orgs users now (some r) none m hr hs (a, b, c, d) = (a, b, hr, d)
set_fields-SoundRow orgs users now (some r) (some s) m hr hs (a, b, c, d) = (a, b, hr, hs)

update_row-Sound :
    (now org user : ℕ) (role status : Option Text) (db : Tables)
    → (elim role [ none ↦ true | some r ↦ member r roles ] ≡ true)
    → (elim status [ none ↦ true | some s ↦ member s valid_statuses ] ≡ true)
    → Sound db
    → Sound (update_row now org user role status db)
update_row-Sound now org user role status db hr hs (rows, once) = (
  All-update_where (SoundRow db.orgs db.users) (is_member org user) (set_fields now role status)
      (λ m h. set_fields-SoundRow db.orgs db.users now role status m hr hs h) db.user_orgs rows,
  Unique-update_where same_member (is_member org user) (set_fields now role status) (λ m n. refl)
      (λ m. refl) db.user_orgs once,
)

pub append-Sound :
    (m : MembershipRecord) (db : Tables)
    → SoundRow db.orgs db.users m
    → get_membership m.org_id m.user_id db ≡ none
    → Sound db
    → Sound (record db { user_orgs = db.user_orgs ++ m ∷ [] })
append-Sound m db row new (rows, once) = (
  All-append (SoundRow db.orgs db.users) db.user_orgs (m ∷ []) rows (row, tt),
  Unique-append_one same_member same_member_comm db.user_orgs m once new,
)

upsert_row-Sound :
    (now : ℕ) (m : MembershipRecord) (db : Tables)
    → SoundRow db.orgs db.users m
    → Sound db
    → Sound (upsert_row now m db)
upsert_row-Sound now m db row (rows, once) =
    elim (Option-cases (get_membership m.org_id m.user_id db)) [
      | inl absent ↦ rw (upsert_row, absent) (append-Sound m db row absent (rows, once))
      | inr (old, found) ↦
          rw (upsert_row, found)
            (
              All-update_where (SoundRow db.orgs db.users) (is_member m.org_id m.user_id)
                  (on_conflict now m) (λ n h. (h.0, h.1, row.2, row.3)) db.user_orgs rows,
              Unique-update_where same_member (is_member m.org_id m.user_id) (on_conflict now m)
                  (λ n p. refl) (λ n. refl) db.user_orgs once,
            )
    ]

refs-SoundRow :
    (m : MembershipRecord) (db : Tables)
    → has_refs m db ≡ true
    → member m.status valid_statuses ≡ true
    → SoundRow db.orgs db.users m
refs-SoundRow m db h status = (ground (arith, h), ground (arith, h), ground (arith, h), status)

upserted-Sound :
    (up : Bool) (now : ℕ) (m : MembershipRecord) (db : Tables)
    → member m.status valid_statuses ≡ true
    → Sound db
    → Sound (upserted up now m db).1
upserted-Sound up now m db status h = elim (Bool-cases (up && has_refs m db)) [
  | inr e ↦ rw e h
  | inl e ↦ rw e (upsert_row-Sound now m db (refs-SoundRow m db (ground (arith, e)) status) h)
]

pub upsert_membership-Sound :
    (up : Bool) (now org user : ℕ) (role status : Text) (by : Option ℕ) (metadata : Option Fields)
    (db : Tables)
    → Sound db
    → Sound (upsert_membership up now org user role status by metadata db).1
unfolding upsert_membership
upsert_membership-Sound up now org user role status by metadata db h =
    elim (Option-cases (normalize_role role)) [
      | inl e ↦ rw (upsert_membership, e) h
      | inr (r, e) ↦ elim (Option-cases (normalize_status status)) [
        | inl f ↦ rw (upsert_membership, e, f) h
        | inr (s, f) ↦
            rw (upsert_membership, e, f)
              (upserted-Sound up now (new_membership now org user r s by metadata) db
                (normalize_status-member status s f) h)
      ]
    ]

given-member :
    (normalize : Text → Option Text) (ts : List Text) (o u : Option Text)
    → ((t w : Text) → normalize t ≡ some w → member w ts ≡ true)
    → given normalize o ≡ some u
    → elim u [ none ↦ true | some w ↦ member w ts ] ≡ true
given-member normalize ts none u within h = ground (arith, h)
given-member normalize ts (some []) u within h = ground (arith, h)
given-member normalize ts (some (c ∷ t)) u within h = elim (Option-cases (normalize (c ∷ t))) [
  | inl e ↦ absurd (ground (arith, e, h))
  | inr (w, e) ↦ ground (arith, e, h, within (c ∷ t) w e)
]

updated-Sound :
    (up : Bool) (now org user : ℕ) (role status : Option Text) (db : Tables)
    → (elim role [ none ↦ true | some r ↦ member r roles ] ≡ true)
    → (elim status [ none ↦ true | some s ↦ member s valid_statuses ] ≡ true)
    → Sound db
    → Sound (updated up now org user role status db).1
updated-Sound up now org user none none db hr hs h = h
updated-Sound true now org user none (some s) db hr hs h =
    update_row-Sound now org user none (some s) db hr hs h
updated-Sound true now org user (some r) none db hr hs h =
    update_row-Sound now org user (some r) none db hr hs h
updated-Sound true now org user (some r) (some s) db hr hs h =
    update_row-Sound now org user (some r) (some s) db hr hs h
updated-Sound false now org user none (some s) db hr hs h = h
updated-Sound false now org user (some r) none db hr hs h = h
updated-Sound false now org user (some r) (some s) db hr hs h = h

pub update_membership_fields-Sound :
    (up : Bool) (now org user : ℕ) (role status : Option Text) (db : Tables)
    → Sound db
    → Sound (update_membership_fields up now org user role status db).1
unfolding update_membership_fields
update_membership_fields-Sound up now org user role status db h =
    elim (Option-cases (given normalize_role role)) [
      | inl e ↦ rw (update_membership_fields, e) h
      | inr (r, e) ↦ elim (Option-cases (given normalize_status status)) [
        | inl f ↦ rw (update_membership_fields, e, f) h
        | inr (s, f) ↦
            rw (update_membership_fields, e, f)
              (updated-Sound up now org user r s db
                (given-member normalize_role roles role r normalize_role-member e)
                (given-member normalize_status valid_statuses status s normalize_status-member f) h)
      ]
    ]
