-- ===== src/Access/Catalog.antt =====
-- common/permissions/permission-catalog.ts: the cells that a role may be given, and their keys.
use sports_erp.Prelude.{
  arith, ==_refl, suc, ℕ, zero, ◌≡◌, refl, sym, ap, ◌∙◌, List, [], ◌∷◌, Bool, true, false, ◌&&◌,
  ◌==◌, ==_iff, exists,
}
use sports_erp.Store.Staffing.{Role}
use sports_erp.Store.Access.{PermissionAction, Feature}

-- `GOVERNED_ROLES.includes(role)`
abbrev pub is_governed : Role → Bool
is_governed Role.branch_admin = true
is_governed Role.staff = true
is_governed _ = false

-- PERMISSION_CATALOG[feature].ceiling[role], empty where either is missing.
unfoldable pub ceiling : Feature → Role → List PermissionAction
ceiling Feature.member Role.branch_admin =
    PermissionAction.read ∷ PermissionAction.create ∷ PermissionAction.update
    ∷ PermissionAction.export ∷ []
ceiling Feature.program Role.branch_admin =
    PermissionAction.read ∷ PermissionAction.create ∷ PermissionAction.update
    ∷ PermissionAction.delete ∷ []
ceiling Feature.program Role.staff = PermissionAction.read ∷ []
ceiling Feature.reservation Role.branch_admin = PermissionAction.read ∷ PermissionAction.update ∷ []
ceiling Feature.payment Role.branch_admin = PermissionAction.read ∷ PermissionAction.export ∷ []
ceiling Feature.attendance Role.branch_admin =
    PermissionAction.read ∷ PermissionAction.update ∷ PermissionAction.export ∷ []
ceiling Feature.leave Role.branch_admin = PermissionAction.read ∷ PermissionAction.update ∷ []
ceiling Feature.worklog Role.branch_admin = PermissionAction.read ∷ []
ceiling Feature.staff Role.branch_admin = PermissionAction.read ∷ PermissionAction.update ∷ []
ceiling Feature.branch Role.branch_admin = PermissionAction.read ∷ []
ceiling Feature.post Role.branch_admin =
    PermissionAction.read ∷ PermissionAction.create ∷ PermissionAction.update
    ∷ PermissionAction.delete ∷ []
ceiling Feature.post Role.staff = PermissionAction.read ∷ []
ceiling Feature.facility Role.branch_admin =
    PermissionAction.read ∷ PermissionAction.create ∷ PermissionAction.update ∷ []
ceiling Feature.facility Role.staff = PermissionAction.read ∷ []
ceiling Feature.instructor Role.branch_admin =
    PermissionAction.read ∷ PermissionAction.create ∷ PermissionAction.update
    ∷ PermissionAction.delete ∷ []
ceiling Feature.instructor Role.staff = PermissionAction.read ∷ []
ceiling Feature.asset Role.branch_admin =
    PermissionAction.read ∷ PermissionAction.create ∷ PermissionAction.update ∷ []
ceiling Feature.document Role.branch_admin = PermissionAction.read ∷ PermissionAction.create ∷ []
ceiling Feature.support Role.branch_admin = PermissionAction.read ∷ PermissionAction.create ∷ []
ceiling _ _ = []

-- The keys of PERMISSION_CATALOG in their order.
abbrev pub features : List Feature
features =
    Feature.member ∷ Feature.program ∷ Feature.reservation ∷ Feature.payment ∷ Feature.attendance
    ∷ Feature.leave ∷ Feature.worklog ∷ Feature.staff ∷ Feature.branch ∷ Feature.post
    ∷ Feature.facility ∷ Feature.instructor ∷ Feature.asset ∷ Feature.document ∷ Feature.support
    ∷ []

abbrev feature_index : Feature → ℕ
feature_index Feature.member = 0
feature_index Feature.program = 1
feature_index Feature.reservation = 2
feature_index Feature.payment = 3
feature_index Feature.attendance = 4
feature_index Feature.leave = 5
feature_index Feature.worklog = 6
feature_index Feature.staff = 7
feature_index Feature.branch = 8
feature_index Feature.post = 9
feature_index Feature.facility = 10
feature_index Feature.instructor = 11
feature_index Feature.asset = 12
feature_index Feature.document = 13
feature_index Feature.support = 14
feature_index (Feature.other n) = 15

abbrev action_index : PermissionAction → ℕ
action_index PermissionAction.read = 0
action_index PermissionAction.create = 1
action_index PermissionAction.update = 2
action_index PermissionAction.delete = 3
action_index PermissionAction.export = 4

abbrev pub role_index : Role → ℕ
role_index Role.super_admin = 0
role_index Role.branch_admin = 1
role_index Role.staff = 2
role_index Role.member = 3

abbrev other_text : Feature → ℕ
other_text (Feature.other n) = n
other_text _ = 0

unfoldable pub feature_eq : Feature → Feature → Bool
feature_eq a b = feature_index a == feature_index b && other_text a == other_text b

unfoldable pub action_eq : PermissionAction → PermissionAction → Bool
action_eq a b = action_index a == action_index b

unfoldable pub role_eq : Role → Role → Bool
role_eq a b = role_index a == role_index b

-- `withinCeiling`
unfoldable pub within_ceiling : Role → Feature → PermissionAction → Bool
unfolding ceiling action_eq
within_ceiling role feature action = exists (λ a. action_eq a action) (ceiling feature role)

abbrev action_at : ℕ → PermissionAction
action_at zero = PermissionAction.read
action_at (suc zero) = PermissionAction.create
action_at (suc (suc zero)) = PermissionAction.update
action_at (suc (suc (suc zero))) = PermissionAction.delete
action_at (suc (suc (suc (suc n)))) = PermissionAction.export

abbrev role_at : ℕ → Role
role_at zero = Role.super_admin
role_at (suc zero) = Role.branch_admin
role_at (suc (suc zero)) = Role.staff
role_at (suc (suc (suc n))) = Role.member

abbrev feature_at : List Feature → ℕ → ℕ → Feature
feature_at [] i n = Feature.other n
feature_at (f ∷ fs) zero n = f
feature_at (f ∷ fs) (suc i) n = feature_at fs i n

action_at-index : (a : PermissionAction) → action_at (action_index a) ≡ a
action_at-index PermissionAction.read = refl
action_at-index PermissionAction.create = refl
action_at-index PermissionAction.update = refl
action_at-index PermissionAction.delete = refl
action_at-index PermissionAction.export = refl

role_at-index : (r : Role) → role_at (role_index r) ≡ r
role_at-index Role.super_admin = refl
role_at-index Role.branch_admin = refl
role_at-index Role.staff = refl
role_at-index Role.member = refl

feature_at-index : (f : Feature) → feature_at features (feature_index f) (other_text f) ≡ f
feature_at-index Feature.member = refl
feature_at-index Feature.program = refl
feature_at-index Feature.reservation = refl
feature_at-index Feature.payment = refl
feature_at-index Feature.attendance = refl
feature_at-index Feature.leave = refl
feature_at-index Feature.worklog = refl
feature_at-index Feature.staff = refl
feature_at-index Feature.branch = refl
feature_at-index Feature.post = refl
feature_at-index Feature.facility = refl
feature_at-index Feature.instructor = refl
feature_at-index Feature.asset = refl
feature_at-index Feature.document = refl
feature_at-index Feature.support = refl
feature_at-index (Feature.other n) = refl

pub action_eq→eq : (a b : PermissionAction) → action_eq a b ≡ true → a ≡ b
unfolding action_eq
action_eq→eq a b h = sym (action_at-index a) ∙ ap action_at ((==_iff _ _).0 h) ∙ action_at-index b

pub role_eq→eq : (a b : Role) → role_eq a b ≡ true → a ≡ b
unfolding role_eq
role_eq→eq a b h = sym (role_at-index a) ∙ ap role_at ((==_iff _ _).0 h) ∙ role_at-index b

pub feature_eq→eq : (a b : Feature) → feature_eq a b ≡ true → a ≡ b
unfolding feature_eq
feature_eq→eq a b h =
    let e : feature_index a ≡ feature_index b = ground (arith, h) in
    let t : other_text a ≡ other_text b = ground (arith, h) in
    sym (feature_at-index a) ∙ (λ i. feature_at features (e i) (t i)) ∙ feature_at-index b

pub action_eq_refl : (a : PermissionAction) → action_eq a a ≡ true
unfolding action_eq
action_eq_refl a = ==_refl (action_index a)

pub role_eq_refl : (r : Role) → role_eq r r ≡ true
unfolding role_eq
role_eq_refl r = ==_refl (role_index r)

pub feature_eq_refl : (f : Feature) → feature_eq f f ≡ true
unfolding feature_eq
feature_eq_refl f = rw (==_refl (feature_index f)) (==_refl (other_text f))
