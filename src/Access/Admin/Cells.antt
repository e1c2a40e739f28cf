-- ===== src/Access/Admin/Cells.antt =====
-- The cells that the calls of the head office write.
use sports_erp.Prelude.{
  subst, ◌≡◌, ◌≢◌, refl, sym, ◌∙◌, none, List, [], ◌∷◌, ◌++◌, Bool, true, false, inl, inr,
  Bool-cases, Option-cases, find, exists, All, All-find, All-append, arith, remove, All-remove,
  find-remove_same, find-remove_other, find-append_none, find-append_skip, exists-eq-false, ℕ,
}
use sports_erp.Store.{Db}
use sports_erp.Store.Errors.{ok}
use sports_erp.Store.Staffing.{Role}
use sports_erp.Store.Access.{PermissionAction, Feature, RolePermission}
use sports_erp.Access.Catalog.{
  is_governed, within_ceiling, role_eq→eq, feature_eq→eq, action_eq→eq, role_eq_refl,
  feature_eq_refl, action_eq_refl,
}
use sports_erp.Access.{is_role_cell, role_default}
use sports_erp.Access.Admin.{new_cell, write_role_cell, set_role_body, set_role_cell}

abbrev pub Cell : Type 0
Cell = Role × Feature × PermissionAction

-- Only cells that are switched off have a row, and only cells that the table governs.
abbrev pub IsMinimal : List RolePermission → Type 0
IsMinimal = All λ r.
    (r.allowed ≡ false)
    × (is_governed r.role ≡ true)
    × (within_ceiling r.role r.feature r.action ≡ true)

module _ (rows : List RolePermission) (role : Role) (feature : Feature) (action : PermissionAction)
    (minimal : IsMinimal rows) where
  allowed-none :
      role_default rows role feature action ≡ true
      → find (is_role_cell role feature action) rows ≡ none
  unfolding role_default
  allowed-none h = elim (Option-cases (find (is_role_cell role feature action) rows)) [
    | inl e ↦ e
    | inr (r, e) ↦
        let off : r.allowed ≡ false =
          (All-find _ (is_role_cell role feature action) rows r minimal e).0 in
        absurd (ground (arith, off, e, h))
  ]

  denied-some :
      role_default rows role feature action ≡ false
      → exists (is_role_cell role feature action) rows ≡ true
  unfolding role_default
  denied-some h = elim (Bool-cases (exists (is_role_cell role feature action) rows)) [
    | inl e ↦ e
    | inr e ↦ absurd (ground (arith, h, none_exists rows e))
  ]
    where
      none_exists :
          (rs : List RolePermission)
          → exists (is_role_cell role feature action) rs ≡ false
          → find (is_role_cell role feature action) rs ≡ none
      none_exists [] e = refl
      none_exists (r ∷ rs) e = ground (arith, none_exists rs)

-- A row of one cell is of no other.
other_cell :
    (role role' : Role) (feature feature' : Feature) (action action' : PermissionAction)
    (r : RolePermission)
    → ◌≢◌ {A = Cell} (role', feature', action') (role, feature, action)
    → is_role_cell role feature action r ≡ true
    → is_role_cell role' feature' action' r ≡ false
other_cell role role' feature feature' action action' r ne h =
    elim (Bool-cases (is_role_cell role' feature' action' r)) [
      | inl t ↦
          let er : role' ≡ role =
            sym (role_eq→eq r.role role' (ground (arith, t)))
            ∙ role_eq→eq r.role role (ground (arith, h)) in
          let ef : feature' ≡ feature =
            sym (feature_eq→eq r.feature feature' (ground (arith, t)))
            ∙ feature_eq→eq r.feature feature (ground (arith, h)) in
          let ea : action' ≡ action =
            sym (action_eq→eq r.action action' (ground (arith, t)))
            ∙ action_eq→eq r.action action (ground (arith, h)) in
          absurd (ne (λ i. (er i, ef i, ea i)))
      | inr f ↦ f
    ]

module _ (actor : ℕ) (role : Role) (feature : Feature) (action : PermissionAction) where
  abbrev cell : RolePermission → Bool
  cell = is_role_cell role feature action

  -- The other cells are as they were.
  abbrev pub KeepsOthers : List RolePermission → List RolePermission → Type 0
  KeepsOthers before after =
      (role' : Role) (feature' : Feature) (action' : PermissionAction)
      → ◌≢◌ {A = Cell} (role', feature', action') (role, feature, action)
      → role_default after role' feature' action' ≡ role_default before role' feature' action'

  cell_refl : is_role_cell role feature action (new_cell actor role feature action) ≡ true
  cell_refl = rw (role_eq_refl role, feature_eq_refl feature) (action_eq_refl action)

  module _ (rows : List RolePermission) where
    removed_default : role_default (remove cell rows) role feature action ≡ true
    unfolding role_default
    removed_default = rw (find-remove_same cell rows) refl

    removed-KeepsOthers : KeepsOthers rows (remove cell rows)
    unfolding role_default
    removed-KeepsOthers role' feature' action' ne =
        rw
          (find-remove_other (is_role_cell role' feature' action') cell rows
            (λ r h. other_cell role role' feature feature' action action' r ne h))
          refl

    abbrev added : List RolePermission
    added = rows ++ new_cell actor role feature action ∷ []

    added_default : find cell rows ≡ none → role_default added role feature action ≡ false
    unfolding role_default
    added_default n = rw (find-append_none cell rows _ n, cell_refl) refl

    added-KeepsOthers : KeepsOthers rows added
    unfolding role_default
    added-KeepsOthers role' feature' action' ne =
        let miss : is_role_cell role' feature' action' (new_cell actor role feature action)
            ≡ false =
          other_cell role role' feature feature' action action' (new_cell actor role feature action)
            ne cell_refl in
        rw
          (find-append_skip (is_role_cell role' feature' action') rows
            (new_cell actor role feature action ∷ []) (rw miss refl))
          refl

  module _ (db : Db) where
    -- What a change of the cell makes of the table.
    abbrev pub Sets : Bool → List RolePermission → Type 0
    Sets allowed rows =
        (role_default rows role feature action ≡ allowed)
        × KeepsOthers db.role_permissions rows
        × IsMinimal rows

    abbrev pub SetsCell : Bool → Type 0
    SetsCell allowed =
        ((set_role_cell actor role feature action allowed db).0 ≡ ok tt)
        × Sets allowed (set_role_cell actor role feature action allowed db).1.role_permissions

  module _ (db : Db) (minimal : IsMinimal db.role_permissions) (governed : is_governed role ≡ true)
      (within : within_ceiling role feature action ≡ true) where
    by_rows :
        (allowed : Bool) (rows : List RolePermission)
        → (set_role_cell actor role feature action allowed db).1.role_permissions ≡ rows
        → Sets db allowed rows
        → Sets db allowed (set_role_cell actor role feature action allowed db).1.role_permissions
    by_rows allowed rows e = subst (Sets db allowed) (sym e)

    unchanged :
        (allowed : Bool)
        → role_default db.role_permissions role feature action ≡ allowed
        → SetsCell db allowed
    unfolding set_role_cell set_role_body
    unchanged true h = (
      ground (arith, governed, within, h),
      by_rows true db.role_permissions (ground (arith, governed, within, h))
          (h, (λ r f a ne. refl), minimal),
    )
    unchanged false h = (
      ground (arith, governed, within, h),
      by_rows false db.role_permissions (ground (arith, governed, within, h))
          (h, (λ r f a ne. refl), minimal),
    )

    allows_again : role_default db.role_permissions role feature action ≡ false → SetsCell db true
    unfolding set_role_cell set_role_body write_role_cell
    allows_again h =
        let found = denied-some db.role_permissions role feature action minimal h in
        (
          ground (arith, governed, within, h, found),
          by_rows true (remove cell db.role_permissions)
              (ground (arith, governed, within, h, found))
              (
                removed_default db.role_permissions,
                removed-KeepsOthers db.role_permissions,
                All-remove _ cell db.role_permissions minimal,
              ),
        )

    denies : role_default db.role_permissions role feature action ≡ true → SetsCell db false
    unfolding set_role_cell set_role_body write_role_cell
    denies h =
        let none_there = allowed-none db.role_permissions role feature action minimal h in
        let free = exists-eq-false cell db.role_permissions none_there in
        (
          ground (arith, governed, within, h, free),
          by_rows false (added db.role_permissions) (ground (arith, governed, within, h, free)) (
            added_default db.role_permissions none_there,
            added-KeepsOthers db.role_permissions,
            All-append _ db.role_permissions _ minimal ((refl, governed, within), tt),
          ),
        )

    pub set_role_cell_sets : (allowed : Bool) → SetsCell db allowed
    set_role_cell_sets true =
        elim (Bool-cases (role_default db.role_permissions role feature action)) [
          | inl t ↦ unchanged true t
          | inr f ↦ allows_again f
        ]
    set_role_cell_sets false =
        elim (Bool-cases (role_default db.role_permissions role feature action)) [
          | inl t ↦ denies t
          | inr f ↦ unchanged false f
        ]
