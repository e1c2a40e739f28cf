-- ===== src/Assets.antt =====
-- modules/assets/asset.service.ts: the assets of a branch. An update and a change of status read the
-- asset first and write later, so each is two steps; the write of a status and its row of the audit
-- log are one transaction.
pub mod Log
pub mod Frames
pub mod Changes
pub mod Trail
mod Tests
use sports_erp.Prelude.{
  ℕ, Option, none, some, List, [], ◌∷◌, ◌++◌, String, Bool, true, false, not, ◌&&◌, ◌||◌, ◌==◌, ltb,
  if◌then◌else◌, find, count, update, exists, is_set, or_else,
}
use sports_erp.Store.{
  Db, Action, pure, throw, gets, require, require_row, transaction, ◌>>=◌, ◌>>◌, throw_if, modify,
  record_audit,
}
use sports_erp.Store.Errors.{Code, Result, ok, err}
use sports_erp.Store.Branches.{Text, Branch, CodeSequenceKind}
use sports_erp.Store.Operations.{Asset, AssetCategory, AssetType, AssetStatus}
use sports_erp.Store.Audit.{AuditEntity, AuditAction}
use sports_erp.Integrity.{lock_branch_for_share, is_terminated}
use sports_erp.Integrity.Codes.{text_eq, allocate_branch_code}

pub record AssetInput : Type 0 where
  pub name : String
  pub category : AssetCategory
  pub acquired_at : ℕ
  pub acquisition_cost : ℕ
  pub asset_type : Option AssetType
  pub useful_life_years : Option ℕ
  pub quantity : Option ℕ
  pub location : Option String
  pub note : Option String

-- `classifyAssetType`
unfoldable pub classify_asset_type : ℕ → AssetType
classify_asset_type cost = if ltb 1000000 cost then AssetType.fixed_asset else AssetType.consumable

abbrev pub is_fixed : AssetType → Bool
is_fixed AssetType.fixed_asset = true
is_fixed AssetType.consumable = false

unfoldable pub new_asset : ℕ → ℕ → Text → AssetInput → Asset
unfolding classify_asset_type
new_asset new branch code i =
    let type = or_else i.asset_type (classify_asset_type i.acquisition_cost) in
    record {
      id = new;
      asset_code = code;
      branch_id = branch;
      name = i.name;
      category = i.category;
      asset_type = type;
      acquired_at = i.acquired_at;
      acquisition_cost = i.acquisition_cost;
      useful_life_years = if is_fixed type then i.useful_life_years else none;
      status = AssetStatus.normal;
      quantity = if is_fixed type then 1 else or_else i.quantity 1;
      location = i.location;
      note = i.note;
    }

abbrev pub is_zero : Option ℕ → Bool
is_zero none = false
is_zero (some n) = n == 0

-- Asset_quantity_ck and Asset_amounts_nonneg_ck
abbrev pub breaks_checks : Asset → Bool
breaks_checks a = (is_fixed a.asset_type && not (a.quantity == 1)) || is_zero a.useful_life_years

unfoldable pub insert_asset : Asset → Action (Unit {0})
insert_asset a = do
  taken ← gets λ db. exists (λ b. text_eq b.asset_code a.asset_code) db.assets
  throw_if taken Code.unique_violation
  throw_if (breaks_checks a) Code.check_violation
  modify λ db. record db { assets = db.assets ++ a ∷ [] }

unfoldable pub create_body : ℕ → ℕ → ℕ → AssetInput → Action ℕ
unfolding insert_asset new_asset
create_body now new branch_id i = do
  branch ← require_row (lock_branch_for_share branch_id) Code.branch_not_found
  throw_if (is_terminated branch.contract_status) Code.branch_terminated
  code ← allocate_branch_code now branch CodeSequenceKind.asset
  insert_asset (new_asset new branch_id code i)
  pure new

unfoldable pub create : ℕ → ℕ → ℕ → AssetInput → Action ℕ
unfolding create_body
create now new branch i = transaction (create_body now new branch i)

-- What is left out stays; an empty place or remark is taken away.
pub record AssetPatch : Type 0 where
  pub name : Option String
  pub location : Option (Option String)
  pub quantity : Option ℕ
  pub note : Option (Option String)
  pub useful_life_years : Option ℕ

abbrev pub is_not_one : Option ℕ → Bool
is_not_one none = false
is_not_one (some n) = not (n == 1)

-- The checks of `update`: the type of the asset that is read.
unfoldable pub check_update : ℕ → AssetPatch → Action AssetType
check_update id p = do
  asset ← require_row (λ db. find (λ a. a.id == id) db.assets) Code.asset_not_found
  throw_if (is_fixed asset.asset_type && is_not_one p.quantity) Code.invalid_quantity
  pure asset.asset_type

abbrev pub or_left : Option ℕ → Option ℕ → Option ℕ
or_left none old = old
or_left (some n) old = some n

unfoldable pub patched : AssetType → AssetPatch → Asset → Asset
patched type p a = record a {
  name = or_else p.name a.name;
  location = or_else p.location a.location;
  note = or_else p.note a.note;
  useful_life_years =
      if is_fixed type
      then or_left p.useful_life_years a.useful_life_years
      else a.useful_life_years;
  quantity = or_else p.quantity a.quantity;
}

abbrev pub has_id : ℕ → Asset → Bool
has_id id a = a.id == id

-- The write of `update`, for the type that it has read.
unfoldable pub write_update : ℕ → AssetPatch → AssetType → Action ℕ
unfolding patched
write_update id p type = do
  asset ← require_row (λ db. find (has_id id) db.assets) Code.row_missing
  throw_if (breaks_checks (patched type p asset)) Code.check_violation
  modify λ db. record db { assets = update (has_id id) (patched type p) db.assets }
  pure id

abbrev pub status_index : AssetStatus → ℕ
status_index AssetStatus.normal = 0
status_index AssetStatus.repairing = 1
status_index AssetStatus.disposal_pending = 2
status_index AssetStatus.disposed = 3

abbrev pub status_eq : AssetStatus → AssetStatus → Bool
status_eq a b = status_index a == status_index b

-- STATUS_TRANSITIONS
unfoldable pub transitions : AssetStatus → List AssetStatus
transitions AssetStatus.normal = AssetStatus.repairing ∷ AssetStatus.disposal_pending ∷ []
transitions AssetStatus.repairing = AssetStatus.normal ∷ AssetStatus.disposal_pending ∷ []
transitions AssetStatus.disposal_pending = AssetStatus.normal ∷ AssetStatus.disposed ∷ []
transitions AssetStatus.disposed = []

unfoldable pub can_change : AssetStatus → AssetStatus → Bool
unfolding transitions
can_change old new = exists (λ s. status_eq s new) (transitions old)

-- The checks of `updateStatus`: the asset that is read.
unfoldable pub check_status : ℕ → AssetStatus → Action Asset
unfolding can_change
check_status id status = do
  asset ← require_row (λ db. find (λ a. a.id == id) db.assets) Code.asset_not_found
  throw_if (not (can_change asset.status status)) Code.invalid_status_transition
  pure asset

abbrev pub is_still : ℕ → AssetStatus → Asset → Bool
is_still id status a = a.id == id && status_eq a.status status

abbrev pub moved : AssetStatus → Asset → Asset
moved status a = record a { status = status }

-- The transaction of `updateStatus`: whether the status was still as read.
unfoldable pub move_body : ℕ → ℕ → AssetStatus → Asset → Action Bool
move_body actor id status seen = do
  changed ← gets λ db. count (is_still id seen.status) db.assets
  modify λ db. record db { assets = update (is_still id seen.status) (moved status) db.assets }
  if changed == 0
      then pure false
      else (record_audit actor AuditEntity.asset id
            (AuditAction.asset_status_changed seen.status status seen.branch_id)
          >> pure true)

-- The write of `updateStatus`, for the asset that it has read.
unfoldable pub write_status : ℕ → ℕ → AssetStatus → Asset → Action ℕ
unfolding move_body
write_status actor id status seen = do
  changed ← transaction (move_body actor id status seen)
  _ ← require_row (λ db. find (has_id id) db.assets) Code.row_missing
  throw_if (not changed) Code.invalid_status_transition
  pure id
