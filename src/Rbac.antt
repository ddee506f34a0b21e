-- ===== src/Rbac.antt =====
-- services/rbac_service.py: organizations, memberships, and the decision on a required role, over the
-- tables of ops/migrations/add_light_rbac.sql. Reads succeed; `up` says whether the statements of a call
-- that writes succeed. The column defaults NOW() are the instant of the call.
use ko_finance.Common.{
  ℕ, Text, codes, text_eq, nonempty, or_text, strip, lower, member, Fields, end, ℤ, pos, negsuc,
  leb_ℤ, Option, none, some, or_default, or_else, is_some, Bool, true, false, ◌&&◌, List, [], ◌∷◌,
  ◌++◌, find, keep, exists, update_where, ◌==◌, leb, if◌then◌else◌,
}
pub mod Access
pub mod Routes
pub mod Sound
pub mod Guarded
pub mod Revoked
pub mod Service
pub mod Calls
mod Tests

pub record OrgRecord : Type 0 where
  pub id : ℕ
  pub name : Text
  pub slug : Option Text
  pub status : Text
  pub default_role : Text
  pub metadata : Fields
  pub created_at : ℕ
  pub updated_at : ℕ

-- A row of `user_orgs`; the records that are returned leave out the metadata.
pub record MembershipRecord : Type 0 where
  pub org_id : ℕ
  pub user_id : ℕ
  pub role : Text
  pub status : Text
  pub invited_by : Option ℕ
  pub invited_at : Option ℕ
  pub accepted_at : Option ℕ
  pub metadata : Fields
  pub created_at : ℕ
  pub updated_at : ℕ

pub record MembershipDecision : Type 0 where
  pub allowed : Bool
  pub role : Option Text
  pub status : Option Text
  pub membership : Option MembershipRecord
  pub reason : Option Text

-- The tables; of `users` the ids.
pub record Tables : Type 0 where
  pub orgs : List OrgRecord
  pub user_orgs : List MembershipRecord
  pub users : List ℕ

-- The keys of ROLE_ORDER.
abbrev pub roles : List Text
roles = codes "viewer" ∷ codes "editor" ∷ codes "admin" ∷ []

abbrev pub valid_statuses : List Text
valid_statuses = codes "active" ∷ codes "pending" ∷ codes "revoked" ∷ []

-- `ROLE_ORDER.get(role, -1)`
unfoldable pub role_rank : Text → ℤ
role_rank role =
    if text_eq role (codes "viewer")
    then pos 10
    else (if text_eq role (codes "editor")
        then pos 20
        else (if text_eq role (codes "admin") then pos 30 else negsuc 0))

abbrev among : List Text → Text → Option Text
among ts t = if member t ts then some t else none

-- `_normalize_role`; `none` is the RbacServiceError.
unfoldable pub normalize_role : Text → Option Text
normalize_role role = among roles (lower (strip (or_text role (codes "viewer"))))

-- `_normalize_status`
unfoldable pub normalize_status : Text → Option Text
normalize_status status = among valid_statuses (lower (strip (or_text status (codes "active"))))

abbrev pub is_member : ℕ → ℕ → MembershipRecord → Bool
is_member org user m = m.org_id == org && m.user_id == user

-- `get_org`
abbrev pub get_org : ℕ → Tables → Option OrgRecord
get_org org db = find (λ (o : OrgRecord). o.id == org) db.orgs

-- `get_membership`
abbrev pub get_membership : ℕ → ℕ → Tables → Option MembershipRecord
get_membership org user db = find (is_member org user) db.user_orgs

abbrev created_first : MembershipRecord → List MembershipRecord → List MembershipRecord
created_first m [] = m ∷ []
created_first m (n ∷ ns) =
    let rest = created_first m ns in if leb m.created_at n.created_at then m ∷ n ∷ ns else n ∷ rest

-- `ORDER BY created_at ASC`, in the order of insertion for one instant.
abbrev pub by_creation : List MembershipRecord → List MembershipRecord
by_creation [] = []
by_creation (m ∷ ms) = created_first m (by_creation ms)

-- `list_memberships`
unfoldable pub list_memberships : ℕ → Tables → List MembershipRecord
list_memberships user db =
    by_creation (keep (λ (m : MembershipRecord). m.user_id == user) db.user_orgs)

-- The organizations of memberships, for those that exist.
abbrev pub joined_orgs : List MembershipRecord → Tables → List OrgRecord
joined_orgs [] db = []
joined_orgs (m ∷ ms) db =
    let rest = joined_orgs ms db in elim (get_org m.org_id db) [ none ↦ rest | some o ↦ o ∷ rest ]

abbrev pub has_user : ℕ → Tables → Bool
has_user user db = exists (λ u. u == user) db.users

-- The foreign keys of a membership.
abbrev pub has_refs : MembershipRecord → Tables → Bool
has_refs m db =
    is_some (get_org m.org_id db)
    && has_user m.user_id db
    && member m.role roles
    && elim m.invited_by [ none ↦ true | some u ↦ has_user u db ]
