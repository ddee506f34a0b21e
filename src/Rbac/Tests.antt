-- ===== src/Rbac/Tests.antt =====
-- One organization with an admin and an editor, whose membership is revoked.
use ko_finance.Common.{
  Response, http_error, ℕ, codes, text_eq, strip, lstrip, rstrip, is_space, lower, none, some, true,
  false, List, [], ◌∷◌, ◌≡◌, refl, ◌↔◌, ◌⊎◌,
}
use ko_finance.Rbac.{
  MembershipRecord, MembershipDecision, Tables, normalize_role, normalize_status, list_memberships,
  role_rank,
}
use ko_finance.Rbac.Service.{
  personal_org, admin_of, new_membership, evaluate, upsert_membership, update_membership_fields,
  ensure_personal_org,
}
use ko_finance.Rbac.Access.{
  passes, denies, Headers, resolve_rbac_state, require_org_role, rbac_context_middleware,
}
use ko_finance.Rbac.Routes.{
  OrgMemberUpdateRequest, OrgMemberUpsertRequest, upserts, patches, my_memberships, change_members,
}
use ko_finance.Rbac.Sound.{Sound}
use ko_finance.Rbac.Calls.{RbacCall, after_calls, after_calls-Sound}
use ko_finance.Rbac.Guarded.{Ranked, require_org_role-evaluate, change_members-Ranked}
use ko_finance.Rbac.Revoked.{patched_member_denied}

abbrev editor : MembershipRecord
editor = new_membership 5 1 11 (codes "editor") (codes "active") (some 10) none

abbrev tables : Tables
tables = record {
  orgs = personal_org 4 1 (codes "Workspace") ∷ [];
  user_orgs = admin_of 4 1 10 ∷ editor ∷ [];
  users = 10 ∷ 11 ∷ 12 ∷ [];
}

abbrev by_admin : Headers
by_admin = record { user = some 10; org = some 1 }

abbrev by_editor : Headers
by_editor = record { user = some 11; org = some 1 }

abbrev revoking : OrgMemberUpdateRequest
revoking = record { role = none; status = some (codes "Revoked ") }

abbrev inviting : OrgMemberUpsertRequest
inviting = record { user_id = 12; role = codes "viewer"; status = codes "pending" }

abbrev flows : Unit {0}
unfolding normalize_role normalize_status text_eq strip lstrip rstrip is_space lower
    upsert_membership update_membership_fields ensure_personal_org list_memberships role_rank
    resolve_rbac_state require_org_role change_members evaluate rbac_context_middleware
    my_memberships
flows = tt

tables-Sound : Sound tables
unfolding flows
tables-Sound = (((refl, refl, refl, refl), ((refl, refl, refl, refl), tt)), (refl, (refl, tt)))

abbrev calls : List RbacCall
calls =
    RbacCall.upserts true 6 1 12 (codes "viewer") (codes "pending") (some 10) none
    ∷ RbacCall.upserts true 6 1 13 (codes "viewer") (codes "pending") (some 10) none
    ∷ RbacCall.updates true 7 1 12 none (some (codes "active"))
    ∷ RbacCall.ensures true 8 2 (codes "Workspace 2") 12
    ∷ []

after_calls-Sound_example : Sound (after_calls calls tables)
after_calls-Sound_example = after_calls-Sound calls tables tables-Sound

require_org_role-evaluate_example :
    (require_org_role (codes "Editor ") (some true) (resolve_rbac_state false by_editor tables)
      ≡ passes)
    ↔ ((d : MembershipDecision) × (evaluate (some 1) (some 11) (codes "Editor ") tables ≡ some d)
        × (d.allowed ≡ true))
unfolding flows
require_org_role-evaluate_example =
    require_org_role-evaluate false b'E' (codes "ditor ") by_editor tables refl

change_members-Ranked_example :
    ((by_admin.org ≡ some 1) × Ranked (codes "admin") by_admin tables)
    ⊎ ((code : ℕ) × (change_members false true 9 1 (upserts inviting) by_admin tables
          ≡ (http_error code, tables)))
change_members-Ranked_example =
    change_members-Ranked false true 9 1 (upserts inviting) by_admin tables

abbrev revoked : Response MembershipRecord × Tables
revoked = change_members false true 9 1 (patches 11 revoking) by_admin tables

patched_member_denied_example :
    require_org_role (codes "viewer") (some true) (resolve_rbac_state false by_editor revoked.1)
    ≡ denies 403
unfolding flows
patched_member_denied_example =
    patched_member_denied 1 11 false true false 9 revoking (codes "revoked") (codes "viewer")
      by_admin tables (record editor { status = codes "revoked"; updated_at = 9 }) refl refl refl
      refl

-- An editor changes no membership, and an admin of one organization none of another.
editor_denied :
    change_members false true 9 1 (patches 10 revoking) by_editor tables ≡ (http_error 403, tables)
unfolding flows
editor_denied = refl

other_denied :
    change_members false true 9 2 (upserts inviting) by_admin tables ≡ (http_error 400, tables)
unfolding flows
other_denied = refl

blocked :
    rbac_context_middleware (codes "/api/v1/feed") (resolve_rbac_state true by_editor revoked.1)
    ≡ true
unfolding flows
blocked = refl
