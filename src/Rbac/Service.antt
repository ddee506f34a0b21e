-- ===== src/Rbac/Service.antt =====
-- services/rbac_service.py: the calls that write memberships, and the decision on a required role.
use ko_finance.Common.{
  ℕ, Text, codes, text_eq, Fields, end, leb_ℤ, Option, none, some, or_default, or_else, Bool, true,
  false, ◌&&◌, List, [], ◌∷◌, ◌++◌, update_where, if◌then◌else◌,
}
use ko_finance.Rbac.{
  MembershipDecision, MembershipRecord, OrgRecord, Tables, get_membership, get_org, has_refs,
  has_user, is_member, joined_orgs, list_memberships, normalize_role, normalize_status, role_rank,
}

abbrev pub personal_org : ℕ → ℕ → Text → OrgRecord
personal_org now org name = record {
  id = org;
  name = name;
  slug = none;
  status = codes "active";
  default_role = codes "viewer";
  metadata = end;
  created_at = now;
  updated_at = now;
}

abbrev pub admin_of : ℕ → ℕ → ℕ → MembershipRecord
admin_of now org user = record {
  org_id = org;
  user_id = user;
  role = codes "admin";
  status = codes "active";
  invited_by = some user;
  invited_at = some now;
  accepted_at = some now;
  metadata = end;
  created_at = now;
  updated_at = now;
}

-- `INSERT … ON CONFLICT DO NOTHING`
abbrev pub insert_org : OrgRecord → Tables → Tables
insert_org o db = elim (get_org o.id db) [
  | none ↦ record db { orgs = db.orgs ++ o ∷ [] }
  | some _ ↦ db
]

abbrev pub insert_membership : MembershipRecord → Tables → Tables
insert_membership m db = elim (get_membership m.org_id m.user_id db) [
  | none ↦ record db { user_orgs = db.user_orgs ++ m ∷ [] }
  | some _ ↦ db
]

-- The organization of a user who has none, under the id `org` and the name `name`, which is made of the
-- user's id; without the user's row a foreign key fails.
abbrev pub bootstrap_org : Bool → ℕ → ℕ → Text → ℕ → Tables → Option OrgRecord × Tables
bootstrap_org up now org name user db =
    if up && has_user user db
    then (
      some (personal_org now org name),
      insert_membership (admin_of now org user) (insert_org (personal_org now org name) db),
    )
    else (none, db)

-- The first of the user's organizations, or a new one.
abbrev pub first_or_new :
    Bool → ℕ → ℕ → Text → ℕ → Tables → List OrgRecord → Option OrgRecord × Tables
first_or_new up now org name user db [] = bootstrap_org up now org name user db
first_or_new up now org name user db (o ∷ os) = (some o, db)

-- `ensure_personal_org`
unfoldable pub ensure_personal_org : Bool → ℕ → ℕ → Text → ℕ → Tables → Option OrgRecord × Tables
ensure_personal_org up now org name user db =
    first_or_new up now org name user db (joined_orgs (list_memberships user db) db)

-- The row that `upsert_membership` inserts.
abbrev pub new_membership : ℕ → ℕ → ℕ → Text → Text → Option ℕ → Option Fields → MembershipRecord
new_membership now org user role status invited_by metadata = record {
  org_id = org;
  user_id = user;
  role = role;
  status = status;
  invited_by = invited_by;
  invited_at = some now;
  accepted_at = if text_eq status (codes "active") then some now else none;
  metadata = or_default metadata end;
  created_at = now;
  updated_at = now;
}

-- `ON CONFLICT (org_id, user_id) DO UPDATE SET …`; the metadata that are given are never NULL.
abbrev pub on_conflict : ℕ → MembershipRecord → MembershipRecord → MembershipRecord
on_conflict now new m = record m {
  role = new.role;
  status = new.status;
  invited_by = or_else new.invited_by m.invited_by;
  invited_at = or_else m.invited_at new.invited_at;
  accepted_at =
      if text_eq new.status (codes "active")
      then or_else m.accepted_at new.accepted_at
      else m.accepted_at;
  metadata = new.metadata;
  updated_at = now;
}

abbrev pub upsert_row : ℕ → MembershipRecord → Tables → Tables
upsert_row now new db = elim (get_membership new.org_id new.user_id db) [
  | none ↦ record db { user_orgs = db.user_orgs ++ new ∷ [] }
  | some _ ↦ record db {
    user_orgs = update_where (is_member new.org_id new.user_id) (on_conflict now new) db.user_orgs;
  }
]

abbrev pub upserted : Bool → ℕ → MembershipRecord → Tables → Option MembershipRecord × Tables
upserted up now new db =
    let after = upsert_row now new db in
    if up && has_refs new db
    then (get_membership new.org_id new.user_id after, after)
    else (none, db)

-- `upsert_membership`; `none` is an RbacServiceError.
unfoldable pub upsert_membership :
    Bool
    → ℕ
    → ℕ
    → ℕ
    → Text
    → Text
    → Option ℕ
    → Option Fields
    → Tables
    → Option MembershipRecord × Tables
upsert_membership up now org user role status invited_by metadata db = elim (normalize_role role) [
  | none ↦ (none, db)
  | some r ↦ elim (normalize_status status) [
    | none ↦ (none, db)
    | some s ↦ upserted up now (new_membership now org user r s invited_by metadata) db
  ]
]

-- A field that is normalized if it is given and not empty; the outer `none` is the RbacServiceError.
abbrev pub given : (Text → Option Text) → Option Text → Option (Option Text)
given normalize none = some none
given normalize (some []) = some none
given normalize (some (c ∷ t)) = elim (normalize (c ∷ t)) [ none ↦ none | some u ↦ some (some u) ]

abbrev pub is_active_status : Option Text → Bool
is_active_status none = false
is_active_status (some s) = text_eq s (codes "active")

-- The SET clause of `update_membership_fields`.
abbrev pub set_fields : ℕ → Option Text → Option Text → MembershipRecord → MembershipRecord
set_fields now role status m = record m {
  role = or_default role m.role;
  status = or_default status m.status;
  accepted_at = if is_active_status status then or_else m.accepted_at (some now) else m.accepted_at;
  updated_at = now;
}

abbrev pub update_row : ℕ → ℕ → ℕ → Option Text → Option Text → Tables → Tables
update_row now org user role status db = record db {
  user_orgs = update_where (is_member org user) (set_fields now role status) db.user_orgs;
}

abbrev pub updated :
    Bool → ℕ → ℕ → ℕ → Option Text → Option Text → Tables → Option MembershipRecord × Tables
updated up now org user none none db = (get_membership org user db, db)
updated up now org user role status db =
    let after = update_row now org user role status db in
    if up then (get_membership org user after, after) else (none, db)

-- `update_membership_fields`; `none` is an RbacServiceError.
unfoldable pub update_membership_fields :
    Bool → ℕ → ℕ → ℕ → Option Text → Option Text → Tables → Option MembershipRecord × Tables
update_membership_fields up now org user role status db = elim (given normalize_role role) [
  | none ↦ (none, db)
  | some r ↦ elim (given normalize_status status) [
    | none ↦ (none, db)
    | some s ↦ updated up now org user r s db
  ]
]

abbrev refused : Text → MembershipDecision
refused reason = record {
  allowed = false;
  role = none;
  status = none;
  membership = none;
  reason = some reason;
}

abbrev pub decided : Bool → MembershipRecord → MembershipDecision
decided sufficient m =
    let active = text_eq m.status (codes "active") in
    record {
      allowed = sufficient && active;
      role = some m.role;
      status = some m.status;
      membership = some m;
      reason =
          if active
          then (if sufficient then none else some (codes "role_insufficient"))
          else some (codes "membership_inactive");
    }

abbrev pub judged : Text → MembershipRecord → Option MembershipDecision
judged [] m = some (decided true m)
judged (c ∷ required) m = elim (normalize_role (c ∷ required)) [
  | none ↦ none
  | some r ↦ some (decided (leb_ℤ (role_rank r) (role_rank m.role)) m)
]

abbrev pub evaluate_member : Text → Option MembershipRecord → Option MembershipDecision
evaluate_member required none = some (refused (codes "membership_not_found"))
evaluate_member required (some m) = judged required m

-- `evaluate`, with an empty text for no required role; `none` is the RbacServiceError of an unknown one.
unfoldable pub evaluate : Option ℕ → Option ℕ → Text → Tables → Option MembershipDecision
evaluate (some org) (some user) required db = evaluate_member required (get_membership org user db)
evaluate none user required db = some (refused (codes "missing_org_or_user"))
evaluate (some org) none required db = some (refused (codes "missing_org_or_user"))
