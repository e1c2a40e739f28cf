-- ===== src/Access.antt =====
-- What a caller may do: the caller of a request (auth.service.ts and jwt.strategy.ts under
-- modules/auth), the fine permissions (common/permissions/permission.service.ts), and the four
-- global guards in the order of app.module.ts. The verification of the JWT is passport's: a request
-- comes with the account of its token, if it verifies. The rows of the role defaults that the
-- service reads are an argument here; `Cache` says which they are.
pub mod Catalog
pub mod Scope
pub mod Isolation
pub mod Effective
pub mod Cache
pub mod Admin
mod Tests
use sports_erp.Prelude.{
  ℕ, Option, none, some, List, [], ◌∷◌, ◌++◌, map, String, Bool, true, false, not, ◌&&◌, ◌||◌, ◌==◌,
  if◌then◌else◌, find, select, exists, is_set, is_id, passes, or_else,
}
use sports_erp.Store.{Db, Action, pure, throw, gets, require, require_row, ◌>>=◌, ◌>>◌, throw_if}
use sports_erp.Store.Errors.{Code, Result, ok, err}
use sports_erp.Store.Members.{Member}
use sports_erp.Store.Staffing.{Account, Role, Staff}
use sports_erp.Store.Access.{PermissionAction, Feature, RolePermission, AccountPermission}
use Catalog.{is_governed, features, ceiling, within_ceiling, feature_eq, action_eq, role_eq}
use Scope.{ScopedKind, ScopeOwner, not_found, violation, is_shared, find_owner}

pub record RequestUser : Type 0 where
  pub account_id : ℕ
  pub role : Role
  pub branch_id : Option ℕ
  pub staff_id : Option ℕ
  pub member_id : Option ℕ
  pub permissions : List AccountPermission
  pub must_change_password : Bool

abbrev pub profile_branch : Option Staff → Option Member → Option ℕ
profile_branch (some s) m = some s.branch_id
profile_branch none (some m) = some m.branch_id
profile_branch none none = none

abbrev pub staff_id_of : Option Staff → Option ℕ
staff_id_of none = none
staff_id_of (some s) = some s.id

abbrev pub member_id_of : Option Member → Option ℕ
member_id_of none = none
member_id_of (some m) = some m.id

-- `buildRequestUser`, with the profiles of the account that ACCOUNT_PROFILE_INCLUDE reads.
unfoldable pub build_request_user : Db → Account → RequestUser
build_request_user db a =
    let staff = find (λ s. s.account_id == a.id) db.staff in
    let member = find (λ m. is_id m.account_id a.id) db.members in
    record {
      account_id = a.id;
      role = a.role;
      branch_id = profile_branch staff member;
      staff_id = staff_id_of staff;
      member_id = member_id_of member;
      permissions = select (λ p. p.account_id == a.id) db.account_permissions;
      must_change_password = a.must_change_password;
    }

-- `JwtStrategy.validate`
unfoldable pub validate : ℕ → Action RequestUser
unfolding build_request_user
validate sub = do
  account ← require_row (λ db. find (λ a. a.id == sub) db.accounts) Code.account_inactive
  throw_if (not account.is_active) Code.account_inactive
  gets λ db. build_request_user db account

abbrev pub is_role_cell : Role → Feature → PermissionAction → RolePermission → Bool
is_role_cell role feature action r =
    role_eq r.role role && (feature_eq r.feature feature && action_eq r.action action)

abbrev pub is_cell : Feature → PermissionAction → AccountPermission → Bool
is_cell feature action p = feature_eq p.feature feature && action_eq p.action action

abbrev pub allowed_or_true : Option RolePermission → Bool
allowed_or_true none = true
allowed_or_true (some r) = r.allowed

-- What a role may do in a cell: a cell with no row is allowed.
unfoldable pub role_default : List RolePermission → Role → Feature → PermissionAction → Bool
role_default rows role feature action =
    allowed_or_true (find (is_role_cell role feature action) rows)

abbrev pub override_of : Option AccountPermission → Option Bool
override_of none = none
override_of (some p) = some p.allowed

-- The personal exception of a caller.
unfoldable pub personal : RequestUser → Feature → PermissionAction → Option Bool
personal u feature action = override_of (find (is_cell feature action) u.permissions)

-- `PermissionService.allows`
unfoldable pub allows : List RolePermission → RequestUser → Feature → PermissionAction → Bool
unfolding personal role_default
allows rows u feature action =
    if not (within_ceiling u.role feature action)
    then true
    else or_else (personal u feature action) (role_default rows u.role feature action)

pub record PermissionCell : Type 0 where
  pub feature : Feature
  pub action : PermissionAction
  pub allowed : Bool

abbrev pub effective_cell :
    List RolePermission → RequestUser → Feature → PermissionAction → PermissionCell
effective_cell rows u feature action = record {
  feature = feature;
  action = action;
  allowed = or_else (personal u feature action) (role_default rows u.role feature action);
}

unfoldable pub effective_of : List RolePermission → RequestUser → List Feature → List PermissionCell
effective_of rows u [] = []
effective_of rows u (f ∷ fs) =
    map (effective_cell rows u f) (ceiling f u.role) ++ effective_of rows u fs

-- `PermissionService.effective`
unfoldable pub effective : List RolePermission → RequestUser → Option (List PermissionCell)
unfolding effective_of
effective rows u = if is_governed u.role then some (effective_of rows u features) else none

-- What the decorators of a route say.
pub data Source : Type 0 where
  param query body : Source

pub record ScopedResource : Type 0 where
  pub kind : ScopedKind
  pub source : Source
  pub key : String
  pub code : Option Code
  pub skip_for : List Role

pub record Permission : Type 0 where
  pub feature : Feature
  pub action : PermissionAction
  pub exportable : Bool

pub record Route : Type 0 where
  pub is_public : Bool
  pub allow_during_password_change : Bool
  pub roles : List Role
  pub scoped : Option ScopedResource
  pub permission : Option Permission

-- The account of the token, the texts in the parameters, the query and the body that are there
-- and not empty, and whether the query asks for an export.
pub record Request : Type 0 where
  pub subject : Option ℕ
  pub value : Source → String → Option ℕ
  pub export : Bool

-- `JwtAuthGuard`: the caller, who is nobody on a public route.
unfoldable pub jwt_auth_guard : Route → Request → Action (Option RequestUser)
unfolding validate
jwt_auth_guard route req = if route.is_public then pure none else (do
  sub ← require req.subject Code.unauthorized
  user ← validate sub
  throw_if (user.must_change_password && not route.allow_during_password_change)
      Code.password_change_required
  pure (some user))

abbrev pub is_one_of : List Role → Role → Bool
is_one_of roles role = exists (λ r. role_eq r role) roles

abbrev pub is_empty : List Role → Bool
is_empty [] = true
is_empty (r ∷ roles) = false

abbrev role_of : Option RequestUser → Option Role
role_of none = none
role_of (some u) = some u.role

-- `RolesGuard`
unfoldable pub roles_guard : Route → Option RequestUser → Action (Unit {0})
roles_guard route user =
    throw_if (not (is_empty route.roles || passes (is_one_of route.roles) (role_of user)))
      Code.forbidden

abbrev pub is_super_admin : Role → Bool
is_super_admin Role.super_admin = true
is_super_admin _ = false

-- `params.branchId ?? query.branchId`
abbrev pub or_query : Option ℕ → Option ℕ → Option ℕ
or_query none q = q
or_query (some b) q = some b

abbrev pub same_branch : Option ℕ → Option ℕ → Bool
same_branch mine none = true
same_branch mine (some b) = is_id mine b

-- `enforceBranchParam`: the branch in the query afterwards.
unfoldable pub enforce_branch_param : Request → RequestUser → Action (Option ℕ)
enforce_branch_param req u =
    if is_super_admin u.role then pure (req.value Source.query "branchId") else (do
      throw_if
          (not (
            same_branch u.branch_id
              (or_query (req.value Source.param "branchId") (req.value Source.query "branchId"))))
          Code.branch_scope_violation
      pure u.branch_id)

pub data Verdict : Type 0 where
  granted not_self other_branch : Verdict

abbrev judge_branch : Option ℕ → Bool → Option ℕ → Verdict
judge_branch mine shared none = if shared then Verdict.granted else Verdict.other_branch
judge_branch mine shared (some b) = if is_id mine b then Verdict.granted else Verdict.other_branch

abbrev judge_self : Option ℕ → Option ℕ → Verdict → Verdict
judge_self mine none rest = rest
judge_self mine (some owner) rest = if is_id mine owner then Verdict.granted else Verdict.not_self

abbrev judge_as : Role → RequestUser → ScopeOwner → Bool → Verdict
judge_as Role.super_admin u o shared = Verdict.granted
judge_as Role.member u o shared =
    judge_self u.member_id o.member_id (judge_branch u.branch_id shared o.branch_id)
judge_as Role.staff u o shared =
    judge_self u.staff_id o.staff_id (judge_branch u.branch_id shared o.branch_id)
judge_as Role.branch_admin u o shared = judge_branch u.branch_id shared o.branch_id

unfoldable pub judge : RequestUser → ScopeOwner → Bool → Verdict
judge u o shared = judge_as u.role u o shared

abbrev pub is_granted : Verdict → Bool
is_granted Verdict.granted = true
is_granted _ = false

-- `enforceResource`, once the request names a resource.
unfoldable pub enforce_owner : ScopedResource → ℕ → RequestUser → Action (Unit {0})
unfolding judge
enforce_owner s id u = do
  owner ← require_row (find_owner s.kind id) (not_found s.kind)
  throw_if (not (is_granted (judge u owner (is_shared s.kind)))) (or_else s.code (violation s.kind))

abbrev enforce_value : ScopedResource → Option ℕ → RequestUser → Action (Unit {0})
enforce_value s none u = pure tt
enforce_value s (some id) u = enforce_owner s id u

unfoldable pub enforce_resource : Option ScopedResource → Request → RequestUser → Action (Unit {0})
unfolding enforce_owner
enforce_resource none req u = pure tt
enforce_resource (some s) req u =
    if is_one_of s.skip_for u.role then pure tt else enforce_value s (req.value s.source s.key) u

-- `BranchScopeGuard`: the branch in the query, on which the services filter.
unfoldable pub branch_scope_guard : Route → Request → Option RequestUser → Action (Option ℕ)
branch_scope_guard route req user =
    if route.is_public then pure (req.value Source.query "branchId") else (do
      u ← require user Code.forbidden
      branch ← enforce_branch_param req u
      enforce_resource route.scoped req u
      pure branch)

abbrev check_permission : List RolePermission → Permission → Bool → RequestUser → Action (Unit {0})
check_permission rows p export u = do
  throw_if (not (allows rows u p.feature p.action)) Code.permission_denied
  throw_if (p.exportable && (export && not (allows rows u p.feature PermissionAction.export)))
      Code.permission_denied

-- `PermissionGuard`
unfoldable pub permission_guard :
    List RolePermission → Option Permission → Request → Option RequestUser → Action (Unit {0})
unfolding allows
permission_guard rows none req user = pure tt
permission_guard rows (some p) req none = pure tt
permission_guard rows (some p) req (some u) =
    if is_governed u.role then check_permission rows p req.export u else pure tt

-- The guards in the order in which they are registered: the caller and the branch in the query.
unfoldable pub guards :
    List RolePermission → Route → Request → Action (Option RequestUser × Option ℕ)
guards rows route req = do
  user ← jwt_auth_guard route req
  roles_guard route user
  branch ← branch_scope_guard route req user
  permission_guard rows route.permission req user
  pure (user, branch)
