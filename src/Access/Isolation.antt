-- ===== src/Access/Isolation.antt =====
-- What the guards let pass: the branches are isolated from one another.
use sports_erp.Store.Steps.{>>=_inv}
use sports_erp.Prelude.{
  subst, ◌∙◌, ◌||◌, ◌==◌, Bool-cases, ℕ, ◌≡◌, ◌≢◌, ◌↔◌, inl, inr, refl, none, some, Bool, true,
  Option-cases, arith,
}
use sports_erp.Store.Staffing.{Role}
use sports_erp.Access.Scope.{ScopeOwner}
use sports_erp.Access.{
  ◌>>=◌, ◌>>◌, Action, pure, ◌∷◌, is_super_admin, is_empty, guards, enforce_branch_param,
  permission_guard, roles_guard, branch_scope_guard, enforce_resource, build_request_user,
  PermissionAction, allows, is_governed, Permission, false, is_one_of, validate, find, ok, [],
  is_shared, jwt_auth_guard, Option, Account, find_owner, enforce_owner, Db, RolePermission,
  Request, ScopedResource, Route, List, RequestUser, Verdict, judge,
}

-- The rule of the guard: the head office may use everything; a member his own reservations and
-- data; staff their own data, leave and requests; all else is open to its branch, and what is of
-- no branch only if it is shared.
pub data InScope (u : RequestUser) (o : ScopeOwner) (shared : Bool) : Type 0 where
  everywhere : u.role ≡ Role.super_admin → InScope u o shared
  own_member :
      (m : ℕ)
      → u.role ≡ Role.member
      → o.member_id ≡ some m
      → u.member_id ≡ some m
      → InScope u o shared
  own_staff :
      (s : ℕ) → u.role ≡ Role.staff → o.staff_id ≡ some s → u.staff_id ≡ some s → InScope u o shared
  own_branch :
      (b : ℕ)
      → (u.role ≡ Role.member → o.member_id ≡ none)
      → (u.role ≡ Role.staff → o.staff_id ≡ none)
      → o.branch_id ≡ some b
      → u.branch_id ≡ some b
      → InScope u o shared
  all_branches :
      (u.role ≡ Role.member → o.member_id ≡ none)
      → (u.role ≡ Role.staff → o.staff_id ≡ none)
      → o.branch_id ≡ none
      → shared ≡ true
      → InScope u o shared

module _ (u : RequestUser) (o : ScopeOwner) (shared : Bool) where
  InScope-Granted : InScope u o shared → judge u o shared ≡ Verdict.granted
  unfolding judge
  InScope-Granted (InScope.everywhere r) = ground arith
  InScope-Granted (InScope.own_member m r p q) = ground arith
  InScope-Granted (InScope.own_staff s r p q) = ground arith
  InScope-Granted (InScope.own_branch b m s p q) = ground arith
  InScope-Granted (InScope.all_branches m s p q) = ground arith

  by_branch :
      (u.role ≡ Role.member → o.member_id ≡ none)
      → (u.role ≡ Role.staff → o.staff_id ≡ none)
      → u.role ≢ Role.super_admin
      → judge u o shared ≡ Verdict.granted
      → InScope u o shared
  unfolding judge
  by_branch m s r h = elim (Option-cases o.branch_id) [
    | inl e ↦ InScope.all_branches m s e (ground arith)
    | inr (b, e) ↦ InScope.own_branch b m s e (ground arith)
  ]

  granted_by_role :
      (r : Role) → u.role ≡ r → judge u o shared ≡ Verdict.granted → InScope u o shared
  unfolding judge
  granted_by_role Role.super_admin e h = InScope.everywhere e
  granted_by_role Role.branch_admin e h = by_branch (λ f. cc) (λ f. cc) (λ f. cc) h
  granted_by_role Role.member e h = elim (Option-cases o.member_id) [
    | inl n ↦ by_branch (λ _. n) (λ f. cc) (λ f. cc) h
    | inr (m, n) ↦ InScope.own_member m e n (ground arith)
  ]
  granted_by_role Role.staff e h = elim (Option-cases o.staff_id) [
    | inl n ↦ by_branch (λ f. cc) (λ _. n) (λ f. cc) h
    | inr (s, n) ↦ InScope.own_staff s e n (ground arith)
  ]

  pub judge_iff : (judge u o shared ≡ Verdict.granted) ↔ InScope u o shared
  judge_iff = (granted_by_role u.role refl, InScope-Granted)

module _ (s : ScopedResource) (id : ℕ) (u : RequestUser) (db : Db) where
  -- The resource is there and the caller may use it.
  abbrev pub Admits : Type 0
  Admits = (o : ScopeOwner) × (find_owner s.kind id db ≡ some o) × InScope u o (is_shared s.kind)

  -- The check of a resource lets pass exactly who may use it, and writes nothing.
  pub enforce_owner_iff : (enforce_owner s id u db ≡ (ok tt, db)) ↔ Admits
  unfolding enforce_owner
  enforce_owner_iff = (
    (λ h. elim (Option-cases (find_owner s.kind id db)) [
      | inl e ↦ absurd (ground (arith, h))
      | inr (o, e) ↦ (o, e, (judge_iff u o (is_shared s.kind)).0 (ground (arith, h)))
    ]),
    λ (o, e, i). ground (arith, (judge_iff u o (is_shared s.kind)).1 i),
  )

-- The caller is the active account of the token, as the database has it now, and whoever has to
-- change the password gets nowhere else.
abbrev pub Caller : Route → Request → Db → RequestUser → Type 0
Caller route req db u =
    (sub : ℕ) × (a : Account) × (req.subject ≡ some sub)
    × (find (λ a. a.id == sub) db.accounts ≡ some a)
    × (a.is_active ≡ true)
    × (u ≡ build_request_user db a)
    × (u.must_change_password ≡ true → route.allow_during_password_change ≡ true)

-- What is known of a request that the guards have let pass, and of its caller.
pub record IsAdmitted (rows : List RolePermission) (route : Route) (req : Request) (db : Db)
    (u : RequestUser) (query_branch : Option ℕ) : Type 0 where
  pub caller : Caller route req db u
  pub role : route.roles ≢ [] → is_one_of route.roles u.role ≡ true
  -- a list is of the caller's own branch
  pub own_list : u.role ≢ Role.super_admin → query_branch ≡ u.branch_id
  pub resource :
      (s : ScopedResource) (id : ℕ)
      → route.scoped ≡ some s
      → is_one_of s.skip_for u.role ≡ false
      → req.value s.source s.key ≡ some id
      → Admits s id u db
  pub permission :
      (p : Permission)
      → route.permission ≡ some p
      → is_governed u.role ≡ true
      → (allows rows u p.feature p.action ≡ true)
        × (p.exportable ≡ true
            → req.export ≡ true
            → allows rows u p.feature PermissionAction.export ≡ true)

super_admin_role : (r : Role) → is_super_admin r ≡ true → r ≡ Role.super_admin
super_admin_role Role.super_admin h = refl
super_admin_role Role.branch_admin h = absurd (ground arith)
super_admin_role Role.staff h = absurd (ground arith)
super_admin_role Role.member h = absurd (ground arith)

some_role : (roles : List Role) (b : Bool) → roles ≢ [] → (is_empty roles || b) ≡ true → b ≡ true
some_role [] b ne h = absurd (ne refl)
some_role (r ∷ roles) b ne h = h

module _ (rows : List RolePermission) (route : Route) (req : Request) (db : Db) where
  jwt_inv :
      (u : RequestUser) (db1 : Db)
      → jwt_auth_guard route req db ≡ (ok (some u), db1)
      → (db1 ≡ db) × Caller route req db u
  unfolding jwt_auth_guard validate
  jwt_inv u db1 h = elim (Bool-cases route.is_public) [
    | inl p ↦ absurd (ground (arith, h, p))
    | inr p ↦ elim (Option-cases req.subject) [
      | inl n ↦ absurd (ground (arith, h, p, n))
      | inr (sub, n) ↦ elim (Option-cases (find (λ a. a.id == sub) db.accounts)) [
        | inl e ↦ absurd (ground (arith, h, p, n, e))
        | inr (a, e) ↦ (
          ground (arith, h, p, n, e),
          (
            sub,
            a,
            n,
            e,
            ground (arith, h, p, n, e),
            ground (arith, h, p, n, e),
            λ m. ground (arith, h, p, n, e, m),
          ),
        )
      ]
    ]
  ]

  roles_inv :
      (u : RequestUser) (db1 db2 : Db)
      → roles_guard route (some u) db1 ≡ (ok tt, db2)
      → (db2 ≡ db1) × (route.roles ≢ [] → is_one_of route.roles u.role ≡ true)
  unfolding roles_guard
  roles_inv u db1 db2 h = (
    ground (arith, h),
    λ ne. some_role route.roles (is_one_of route.roles u.role) ne (ground (arith, h)),
  )

  owner_keeps :
      (s : ScopedResource) (id : ℕ) (u : RequestUser) (db2 : Db)
      → enforce_owner s id u db ≡ (ok tt, db2)
      → db2 ≡ db
  unfolding enforce_owner
  owner_keeps s id u db2 h = elim (Option-cases (find_owner s.kind id db)) [
    | inl e ↦ absurd (ground (arith, h, e))
    | inr (o, e) ↦ ground (arith, h, e)
  ]

  resource_keeps :
      (scoped : Option ScopedResource) (u : RequestUser) (db2 : Db)
      → enforce_resource scoped req u db ≡ (ok tt, db2)
      → db2 ≡ db
  unfolding enforce_resource
  resource_keeps none u db2 h = ground (arith, h)
  resource_keeps (some s) u db2 h = elim (Option-cases (req.value s.source s.key)) [
    | inl e ↦ ground (arith, h, e)
    | inr (id, e) ↦ elim (Bool-cases (is_one_of s.skip_for u.role)) [
      | inl k ↦ ground (arith, h, e, k)
      | inr k ↦ owner_keeps s id u db2 (ground (arith, h, e, k))
    ]
  ]

  resource_inv :
      (u : RequestUser) (db2 : Db)
      → enforce_resource route.scoped req u db ≡ (ok tt, db2)
      → (db2 ≡ db)
        × ((s : ScopedResource) (id : ℕ)
            → route.scoped ≡ some s
            → is_one_of s.skip_for u.role ≡ false
            → req.value s.source s.key ≡ some id
            → Admits s id u db)
  unfolding enforce_resource
  resource_inv u db2 h = (
    resource_keeps route.scoped u db2 h,
    λ s id e k v.
        let named : enforce_owner s id u db ≡ (ok tt, db2) = ground (arith, h, e, k, v) in
        let kept : db2 ≡ db = resource_keeps route.scoped u db2 h in
        (enforce_owner_iff s id u db).0 (rw kept at named),
  )

  branch_inv :
      (u : RequestUser) (b : Option ℕ) (db2 : Db)
      → route.is_public ≡ false
      → branch_scope_guard route req (some u) db ≡ (ok b, db2)
      → (u.role ≢ Role.super_admin → b ≡ u.branch_id)
        × (enforce_resource route.scoped req u db ≡ (ok tt, db2))
  unfolding branch_scope_guard enforce_branch_param
  branch_inv u b db2 p h = elim (Bool-cases (is_super_admin u.role)) [
    | inl t ↦ (λ ne. absurd (ne (super_admin_role u.role t)), ground (arith, h, p, t))
    | inr t ↦ (λ ne. ground (arith, h, p, t), ground (arith, h, p, t))
  ]

  permission_inv :
      (u : RequestUser) (db1 db2 : Db)
      → permission_guard rows route.permission req (some u) db1 ≡ (ok tt, db2)
      → (db2 ≡ db1)
        × ((p : Permission)
            → route.permission ≡ some p
            → is_governed u.role ≡ true
            → (allows rows u p.feature p.action ≡ true)
              × (p.exportable ≡ true
                  → req.export ≡ true
                  → allows rows u p.feature PermissionAction.export ≡ true))
  unfolding permission_guard
  permission_inv u db1 db2 h = elim (Option-cases route.permission) [
    | inl n ↦ (ground (arith, h, n), λ p e. absurd (ground (arith, e, n)))
    | inr (q, n) ↦ elim (Bool-cases (is_governed u.role)) [
      | inl g ↦ (
        ground (arith, h, n, g),
        λ p e _. (ground (arith, h, e, g), λ x y. ground (arith, h, e, g, x, y)),
      )
      | inr g ↦ (ground (arith, h, n, g), λ p e g'. absurd (ground (arith, g, g')))
    ]
  ]

  public_is_nobody :
      (u : RequestUser) (db1 : Db)
      → jwt_auth_guard route req db ≡ (ok (some u), db1)
      → route.is_public ≡ false
  unfolding jwt_auth_guard
  public_is_nobody u db1 h = elim (Bool-cases route.is_public) [
    | inl p ↦ absurd (ground (arith, h, p))
    | inr p ↦ p
  ]

  abbrev with_branch : Option RequestUser → Option ℕ → Action (Option RequestUser × Option ℕ)
  with_branch user branch = permission_guard rows route.permission req user >> pure (user, branch)

  abbrev with_role : Option RequestUser → Action (Option RequestUser × Option ℕ)
  with_role user = branch_scope_guard route req user >>= with_branch user

  abbrev with_user : Option RequestUser → Action (Option RequestUser × Option ℕ)
  with_user user = roles_guard route user >> with_role user

  -- The guards one by one, for a caller who is known.
  in_turn :
      (u : RequestUser) (b : Option ℕ) (db1 db2 db3 db4 : Db)
      → jwt_auth_guard route req db ≡ (ok (some u), db1)
      → roles_guard route (some u) db1 ≡ (ok tt, db2)
      → branch_scope_guard route req (some u) db2 ≡ (ok b, db3)
      → permission_guard rows route.permission req (some u) db3 ≡ (ok tt, db4)
      → (db4 ≡ db) × IsAdmitted rows route req db u b
  in_turn u b db1 db2 db3 db4 jwt roles scope permission =
      let (e1, caller) = jwt_inv u db1 jwt in
      let (e2, role) = roles_inv u db1 db2 roles in
      let scope' : branch_scope_guard route req (some u) db ≡ (ok b, db3) =
        rw (← (e2 ∙ e1)) scope in
      let (own, named) = branch_inv u b db3 (public_is_nobody u db1 jwt) scope' in
      let (e3, resource) = resource_inv u db3 named in
      let (e4, allowed) = permission_inv u db3 db4 permission in
      (
        e4 ∙ e3,
        record {
          caller = caller;
          role = role;
          own_list = own;
          resource = resource;
          permission = allowed;
        },
      )

  -- If the four guards let a request of a caller pass, they have written nothing, the caller is
  -- the active account of the token as the database has it now, with no password to change unless
  -- the route allows that, and has a role that the route names, if it names any; unless the
  -- caller is the head office, the branch that the services filter by is the caller's own; a
  -- resource that the request names, on a route that checks it for that role, is there and in the
  -- caller's scope: a member's or a staff member's own where it belongs to a person, else of the
  -- caller's branch or open to all; and a governed caller has the permission of the route, and
  -- that to export where an export is asked for.
  pub guards-IsAdmitted :
      (u : RequestUser) (b : Option ℕ) (db' : Db)
      → guards rows route req db ≡ (ok (some u, b), db')
      → (db' ≡ db) × IsAdmitted rows route req db u b
  unfolding guards
  guards-IsAdmitted u b db' h =
      let (user, db1, jwt, h1) =
        >>=_inv (jwt_auth_guard route req) with_user db db' (some u, b) h in
      let (_, db2, roles, h2) =
        >>=_inv (roles_guard route user) (λ _. with_role user) db1 db' (some u, b) h1 in
      let (branch, db3, scope, h3) =
        >>=_inv (branch_scope_guard route req user) (with_branch user) db2 db' (some u, b) h2 in
      let (_, db4, permission, h4) =
        >>=_inv (permission_guard rows route.permission req user) (λ _. pure (user, branch)) db3 db'
          (some u, b) h3 in
      let eu : user ≡ some u = ground (arith, h4) in
      let eb : branch ≡ b = ground (arith, h4) in
      let ed : db' ≡ db4 = ground (arith, h4) in
      let (e, admitted) =
        in_turn u b db1 db2 db3 db4 (subst (λ x. jwt_auth_guard route req db ≡ (ok x, db1)) eu jwt)
          (subst (λ x. roles_guard route x db1 ≡ (ok tt, db2)) eu roles)
          (subst (λ x. branch_scope_guard route req x db2 ≡ (ok b, db3)) eu (rw eb at scope))
          (subst (λ x. permission_guard rows route.permission req x db3 ≡ (ok tt, db4)) eu
            permission) in
      (ed ∙ e, admitted)
