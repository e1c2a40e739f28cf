-- ===== src/Access/Effective.antt =====
-- What the screens are told agrees with what the guard decides.
use sports_erp.Prelude.{
  ◌≡◌, refl, Option, none, some, List, [], ◌∷◌, ◌++◌, map, Bool, true, false, ◌&&◌, if◌then◌else◌,
  inl, inr, Bool-cases, exists, or_else, arith,
}
use sports_erp.Store.Access.{PermissionAction, Feature, RolePermission}
use sports_erp.Access.Catalog.{
  is_governed, within_ceiling, ceiling, features, feature_eq, action_eq, feature_eq→eq,
  action_eq→eq,
}
use sports_erp.Access.{
  RequestUser, PermissionCell, allows, effective, effective_of, effective_cell, personal,
  role_default,
}

-- The entry of a cell among those that the screens are given.
abbrev pub shown : Feature → PermissionAction → List PermissionCell → Option Bool
shown feature action [] = none
shown feature action (c ∷ cells) =
    if feature_eq c.feature feature && action_eq c.action action
    then some c.allowed
    else shown feature action cells

module _ (rows : List RolePermission) (u : RequestUser) (feature : Feature)
    (action : PermissionAction) where
  abbrev decided : Bool
  decided = or_else (personal u feature action) (role_default rows u.role feature action)

  in_block :
      (g : Feature) (actions : List PermissionAction) (rest : List PermissionCell)
      → shown feature action (map (effective_cell rows u g) actions ++ rest) ≡ (
          if feature_eq g feature && exists (λ a. action_eq a action) actions
          then some decided
          else shown feature action rest)
  in_block g [] rest = ground arith
  in_block g (a ∷ actions) rest = elim (Bool-cases (feature_eq g feature)) [
    | inr n ↦ ground (arith, n, in_block g actions rest)
    | inl f ↦ elim (Bool-cases (action_eq a action)) [
      | inr n ↦ ground (arith, f, n, in_block g actions rest)
      | inl e ↦
          let value : or_else (personal u g a) (role_default rows u.role g a) ≡ decided = λ i.
            or_else (personal u (feature_eq→eq g feature f i) (action_eq→eq a action e i)) (
              role_default rows u.role (feature_eq→eq g feature f i) (action_eq→eq a action e i)) in
          ground (arith, f, e, value)
    ]
  ]

  abbrev listed : List Feature → Bool
  listed = exists λ g. feature_eq g feature

  in_features :
      (fs : List Feature)
      → shown feature action (effective_of rows u fs)
        ≡ (if listed fs && within_ceiling u.role feature action then some decided else none)
  unfolding effective_of within_ceiling
  in_features [] = refl
  in_features (g ∷ fs) = elim (Bool-cases (feature_eq g feature)) [
    | inr n ↦
        ground (arith, n, in_block g (ceiling g u.role) (effective_of rows u fs), in_features fs)
    | inl f ↦
        let same : exists (λ a. action_eq a action) (ceiling g u.role)
            ≡ exists (λ a. action_eq a action) (ceiling feature u.role) =
          λ i. exists (λ a. action_eq a action) (ceiling (feature_eq→eq g feature f i) u.role) in
        ground
          (arith, f, same, in_block g (ceiling g u.role) (effective_of rows u fs), in_features fs)
  ]

  unlisted : (f : Feature) → exists (λ g. feature_eq g f) features ≡ false → ceiling f u.role ≡ []
  unfolding feature_eq ceiling
  unlisted (Feature.other n) h = refl
  unlisted _ h = cc

  all_features :
      shown feature action (effective_of rows u features)
      ≡ (if within_ceiling u.role feature action then some decided else none)
  unfolding within_ceiling
  all_features = elim (Bool-cases (listed features)) [
    | inl l ↦ ground (arith, l, in_features features)
    | inr l ↦ ground (arith, l, in_features features, unlisted feature l)
  ]

  -- For a caller of a governed role, the screens are told of a cell exactly if it is within the
  -- ceiling of the role, and then what the guard decides on it.
  pub effective_lem :
      is_governed u.role ≡ true
      → (cells : List PermissionCell) × (effective rows u ≡ some cells)
        × (shown feature action cells ≡ (
            if within_ceiling u.role feature action
            then some (allows rows u feature action)
            else none))
  unfolding effective allows
  effective_lem g =
      (effective_of rows u features, ground (arith, g), ground (arith, g, all_features))
