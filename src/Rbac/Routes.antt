-- ===== src/Rbac/Routes.antt =====
-- web/routers/orgs.py: the routes by which admins change memberships.
use ko_finance.Common.{
  Response, responds, http_error, ℕ, Text, codes, Option, none, some, Bool, true, ◌&&◌, is_some,
  List, ◌==◌, if◌then◌else◌, ◌||◌,
}
use ko_finance.Rbac.{Tables, MembershipRecord, list_memberships}
use ko_finance.Rbac.Service.{upsert_membership, update_membership_fields}
use ko_finance.Rbac.Access.{
  RbacState, passes, denies, unknown_role, Headers, resolve_rbac_state, require_org_role,
}

pub record OrgMemberUpsertRequest : Type 0 where
  pub user_id : ℕ
  pub role : Text
  pub status : Text

pub record OrgMemberUpdateRequest : Type 0 where
  pub role : Option Text
  pub status : Option Text

-- A request that changes the members of an organization.
pub data MemberRequest : Type 0 where
  upserts : OrgMemberUpsertRequest → MemberRequest
  patches : ℕ → OrgMemberUpdateRequest → MemberRequest

-- `GET /orgs/me/memberships`
unfoldable pub my_memberships : RbacState → Tables → Response (List MembershipRecord)
my_memberships s db = elim s.user_id [
  | none ↦ http_error 401
  | some user ↦ responds (list_memberships user db)
]

-- `_ensure_same_org` lets the request pass.
abbrev pub same_org : ℕ → RbacState → Bool
same_org org s = elim s.org_id [ none ↦ true | some o ↦ o == org ]

-- A service error is answered with 400.
abbrev pub answered : Option MembershipRecord × Tables → Response MembershipRecord × Tables
answered (none, db) = (http_error 400, db)
answered (some m, db) = (responds m, db)

-- The body of `upsert_member`.
abbrev pub upsert_member :
    Bool → ℕ → ℕ → OrgMemberUpsertRequest → RbacState → Tables → Response MembershipRecord × Tables
upsert_member up now org p s db =
    if same_org org s
    then answered (upsert_membership up now org p.user_id p.role p.status s.user_id none db)
    else (http_error 400, db)

-- The body of `patch_member`.
abbrev pub patch_member :
    Bool
    → ℕ
    → ℕ
    → ℕ
    → OrgMemberUpdateRequest
    → RbacState
    → Tables
    → Response MembershipRecord × Tables
patch_member up now org user p s db =
    if same_org org s && (is_some p.role || is_some p.status)
    then answered (update_membership_fields up now org user p.role p.status db)
    else (http_error 400, db)

abbrev pub member_body :
    Bool → ℕ → ℕ → MemberRequest → RbacState → Tables → Response MembershipRecord × Tables
member_body up now org (upserts p) s db = upsert_member up now org p s db
member_body up now org (patches user p) s db = patch_member up now org user p s db

-- A request with its dependency `require_org_role("admin", enforce=True)`.
unfoldable pub change_members :
    Bool → Bool → ℕ → ℕ → MemberRequest → Headers → Tables → Response MembershipRecord × Tables
change_members enforce up now org request h db =
    let s = resolve_rbac_state enforce h db in
    elim (require_org_role (codes "admin") (some true) s) [
      | passes ↦ member_body up now org request s db
      | denies code ↦ (http_error code, db)
      | unknown_role ↦ (http_error 500, db)
    ]
