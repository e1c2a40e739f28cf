-- ===== src/Access/Admin/History.antt =====
-- Any sequence of changes of the permissions.
use sports_erp.Prelude.{◌≡◌, ℕ, Option, Bool, true, false, inl, inr, Bool-cases, arith}
use sports_erp.Store.{Db}
use sports_erp.Store.Errors.{err, Code}
use sports_erp.Store.Staffing.{Role}
use sports_erp.Store.Access.{PermissionAction, Feature}
use sports_erp.Access.Catalog.{is_governed, within_ceiling}
use sports_erp.Access.Admin.{set_role_cell, set_staff_cell, set_staff_body, write_exception}
use sports_erp.Access.Admin.Cells.{IsMinimal, SetsCell, set_role_cell_sets}

pub data Step : Db → Db → Type 0 where
  sets_role :
      (actor : ℕ) (role : Role) (feature : Feature) (action : PermissionAction) (allowed : Bool)
      (db : Db)
      → Step db (set_role_cell actor role feature action allowed db).1
  sets_staff :
      (actor staff : ℕ) (feature : Feature) (action : PermissionAction) (next : Option Bool)
      (db : Db)
      → Step db (set_staff_cell actor staff feature action next db).1

pub data Reach (start : Db) : Db → Type 0 where
  begin : Reach start start
  step : (db db' : Db) → Reach start db → Step db db' → Reach start db'

module _ (actor : ℕ) (role : Role) (feature : Feature) (action : PermissionAction) (allowed : Bool)
    (db : Db) where
  pub ungoverned :
      is_governed role ≡ false
      → set_role_cell actor role feature action allowed db
        ≡ (err Code.permission_role_not_governed, db)
  unfolding set_role_cell
  ungoverned g = ground (arith, g)

  pub outside :
      is_governed role ≡ true
      → within_ceiling role feature action ≡ false
      → set_role_cell actor role feature action allowed db
        ≡ (err Code.permission_outside_ceiling, db)
  unfolding set_role_cell
  outside g w = ground (arith, g, w)

  set_role_cell-IsMinimal :
      IsMinimal db.role_permissions
      → IsMinimal (set_role_cell actor role feature action allowed db).1.role_permissions
  set_role_cell-IsMinimal m = elim (Bool-cases (is_governed role)) [
    | inr g ↦ rw (ungoverned g) m
    | inl g ↦ elim (Bool-cases (within_ceiling role feature action)) [
      | inr w ↦ rw (outside g w) m
      | inl w ↦ (set_role_cell_sets actor role feature action db m g w allowed).1.2
    ]
  ]

set_staff_cell_keeps :
    (actor staff : ℕ) (feature : Feature) (action : PermissionAction) (next : Option Bool) (db : Db)
    → (set_staff_cell actor staff feature action next db).1.role_permissions ≡ db.role_permissions
unfolding set_staff_cell set_staff_body write_exception
set_staff_cell_keeps actor staff feature action next db = ground arith

Step-IsMinimal :
    {db db' : Db} → Step db db' → IsMinimal db.role_permissions → IsMinimal db'.role_permissions
Step-IsMinimal (Step.sets_role actor role feature action allowed db) m =
    set_role_cell-IsMinimal actor role feature action allowed db m
Step-IsMinimal (Step.sets_staff actor staff feature action next db) m =
    rw (set_staff_cell_keeps actor staff feature action next db) m

pub Reach-IsMinimal :
    {start db : Db}
    → IsMinimal start.role_permissions
    → Reach start db
    → IsMinimal db.role_permissions
Reach-IsMinimal m begin = m
Reach-IsMinimal m (step db db' r s) = Step-IsMinimal s (Reach-IsMinimal m r)

-- Where the table of role defaults has begun with rows only for cells of a governed role's
-- ceiling that are switched off, then after any sequence of changes of roles and persons, failed
-- ones included, `setRoleCell` for a cell in the ceiling of a governed role succeeds, the role
-- then has the cell as it was set, every other cell of every role stays as it was, and the table
-- is again of that form; for an ungoverned role, or a cell outside the ceiling, it is refused and
-- changes nothing.
pub set_role_cell_lem :
    (start db : Db) (actor : ℕ) (role : Role) (feature : Feature) (action : PermissionAction)
    (allowed : Bool)
    → IsMinimal start.role_permissions
    → Reach start db
    → (is_governed role ≡ true
        → within_ceiling role feature action ≡ true
        → SetsCell actor role feature action db allowed)
      × (is_governed role ≡ false
          → set_role_cell actor role feature action allowed db
            ≡ (err Code.permission_role_not_governed, db))
      × (is_governed role ≡ true
          → within_ceiling role feature action ≡ false
          → set_role_cell actor role feature action allowed db
            ≡ (err Code.permission_outside_ceiling, db))
set_role_cell_lem start db actor role feature action allowed m r = (
  (λ g w. set_role_cell_sets actor role feature action db (Reach-IsMinimal m r) g w allowed),
  ungoverned actor role feature action allowed db,
  outside actor role feature action allowed db,
)
