-- ===== src/Rbac/Access.antt =====
-- web/deps_rbac.py and web/middleware/rbac.py: the state of a request, and what a route demands of it.
-- A request resolves its state once.
use ko_finance.Common.{
  ℕ, Text, codes, text_eq, strip, lower, member, leb_ℤ, Option, none, some, is_some, Bool, true,
  false, not, ◌&&◌, List, [], ◌∷◌, ◌==◌, exists, if◌then◌else◌,
}
use ko_finance.Rbac.{Tables, MembershipRecord, roles, role_rank, get_membership}

-- `enforce_default` is RBAC_ENFORCE_DEFAULT.
pub record RbacState : Type 0 where
  pub user_id : Option ℕ
  pub org_id : Option ℕ
  pub membership : Option MembershipRecord
  pub issue : Option Text
  pub enforce_default : Bool

-- What a dependency does: it lets the request pass, or it raises an HTTP error, or its role is unknown,
-- a ValueError when the route is made.
pub data Guard : Type 0 where
  passes : Guard
  denies : ℕ → Guard
  unknown_role : Guard

-- The headers X-User-Id and X-Org-Id, after `parse_uuid`, whose errors are `none`.
pub record Headers : Type 0 where
  pub user : Option ℕ
  pub org : Option ℕ

abbrev pub membership_issue : Option MembershipRecord → Option Text
membership_issue none = some (codes "membership_not_found")
membership_issue (some m) =
    if text_eq m.status (codes "active") then none else some (codes "membership_inactive")

-- `resolve_rbac_state`
unfoldable pub resolve_rbac_state : Bool → Headers → Tables → RbacState
resolve_rbac_state enforce h db = resolved h.user h.org
  where
    resolved : Option ℕ → Option ℕ → RbacState
    resolved (some user) (some org) = record {
      user_id = some user;
      org_id = some org;
      membership = get_membership org user db;
      issue = membership_issue (get_membership org user db);
      enforce_default = enforce;
    }
    resolved none (some org) = record {
      user_id = none;
      org_id = some org;
      membership = none;
      issue = some (codes "user_missing");
      enforce_default = enforce;
    }
    resolved user none = record {
      user_id = user;
      org_id = none;
      membership = none;
      issue = none;
      enforce_default = enforce;
    }

abbrev pub demand : Bool → ℕ → Guard
demand enforce code = if enforce then denies code else passes

abbrev pub member_guard : Bool → Text → MembershipRecord → Guard
member_guard enforce required m =
    if text_eq m.status (codes "active")
    then (if leb_ℤ (role_rank required) (role_rank m.role) then passes else demand enforce 403)
    else demand enforce 403

-- The dependency of a role, in its normal form.
abbrev pub role_guard : Bool → Text → RbacState → Guard
role_guard enforce required s = elim s.org_id [
  | none ↦ demand enforce 400
  | some org ↦ elim s.user_id [
    | none ↦ demand enforce 401
    | some user ↦ elim s.membership [
      | none ↦ demand enforce 403
      | some m ↦ member_guard enforce required m
    ]
  ]
]

-- `require_org_role`; `enforce` overrides the state's default.
unfoldable pub require_org_role : Text → Option Bool → RbacState → Guard
require_org_role min_role enforce s =
    let normalized = lower (strip min_role) in
    if member normalized roles
    then role_guard (elim enforce [ none ↦ s.enforce_default | some b ↦ b ]) normalized s
    else unknown_role

abbrev pub starts_with : Text → Text → Bool
starts_with [] s = true
starts_with (c ∷ p) [] = false
starts_with (c ∷ p) (d ∷ s) = c == d && starts_with p s

abbrev pub bypass_prefixes : List Text
bypass_prefixes = codes "/api/v1/auth" ∷ codes "/api/v1/public" ∷ codes "/ops/" ∷ []

abbrev pub is_active : Option MembershipRecord → Bool
is_active none = false
is_active (some m) = text_eq m.status (codes "active")

-- `rbac_context_middleware`: whether it answers 403 in place of the route.
unfoldable pub rbac_context_middleware : Text → RbacState → Bool
rbac_context_middleware path s =
    s.enforce_default
    && not (exists (λ p. starts_with p path) bypass_prefixes)
    && is_some s.org_id
    && is_some s.user_id
    && not (is_active s.membership)
