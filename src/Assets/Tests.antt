-- ===== src/Assets/Tests.antt =====
-- A treadmill that is repaired, while another is bought.
use sports_erp.Prelude.{◌≡◌, refl, none, some, [], ◌∷◌, Distinct, find}
use sports_erp.Store.{Db, empty_db, record_audit}
use sports_erp.Store.Errors.{Code, ok, err}
use sports_erp.Store.Branches.{Branch, ContractStatus}
use sports_erp.Store.Operations.{Asset, AssetCategory, AssetType, AssetStatus}
use sports_erp.Store.Audit.{AuditEntity, AuditAction}
use sports_erp.Integrity.Codes.{allocate_branch_code, decimal}
use sports_erp.Assets.{
  AssetInput, AssetPatch, create, new_asset, check_update, write_update, check_status, write_status,
  has_id,
}
use sports_erp.Assets.Log.{Trailed, begin, step, creates, updates, changes_status, audits}
use sports_erp.Assets.Trail.{Reach-Trailed}

abbrev gym : Branch
gym = record {
  id = 10;
  name = "Gym";
  code = 83 ∷ [];
  region = "Seoul";
  standard_check_in_time = none;
  cancellation_deadline_hours = none;
  contract_status = ContractStatus.active;
}

abbrev treadmill : AssetInput
treadmill = record {
  name = "Treadmill";
  category = AssetCategory.exercise_equipment;
  acquired_at = 739000;
  acquisition_cost = 1000001;
  asset_type = none;
  useful_life_years = some 5;
  quantity = some 3;
  location = none;
  note = none;
}

abbrev opened : Db
opened = (create 0 1 10 treadmill (record empty_db { branches = gym ∷ [] })).1

abbrev first : Asset
first = new_asset 1 10 (83 ∷ 45 ∷ 65 ∷ 48 ∷ 48 ∷ 49 ∷ []) treadmill

first_there : find (has_id 1) opened.assets ≡ some first
unfolding create allocate_branch_code decimal
first_there = refl

abbrev repairs : Db
repairs = (write_status 9 1 AssetStatus.repairing first opened).1

abbrev bought : Db
bought = (create 0 2 10 treadmill repairs).1

abbrev noted : Db
noted = (record_audit 9 AuditEntity.member 7 (AuditAction.phone_viewed 10) bought).1

abbrev to_room : AssetPatch
to_room = record {
  name = none;
  location = some (some "Room 2");
  quantity = none;
  note = none;
  useful_life_years = none;
}

abbrev carried : Db
carried = (write_update 1 to_room AssetType.fixed_asset noted).1

seen_normal : check_status 1 AssetStatus.repairing opened ≡ (ok first, opened)
unfolding create check_status allocate_branch_code decimal
seen_normal = refl

second_new : find (has_id 2) repairs.assets ≡ none
unfolding create write_status allocate_branch_code decimal
second_new = refl

one_key : Distinct (λ a. a.id) opened.assets
unfolding create allocate_branch_code decimal
one_key = (tt, tt)

Reach-Trailed_example : Trailed 1 AssetStatus.normal opened.audit carried
unfolding new_asset
Reach-Trailed_example = Reach-Trailed 1 first opened carried one_key first_there (
    step noted carried
      (step bought noted
        (step repairs bought
          (step opened repairs begin
            (changes_status 9 1 AssetStatus.repairing first opened opened seen_normal))
          (creates 0 2 10 treadmill repairs second_new))
        (audits 9 7 AuditEntity.member (AuditAction.phone_viewed 10) bought refl))
      (updates 1 to_room AssetType.fixed_asset noted))

-- What costs more than a million is a fixed asset, of which there is one.
one_treadmill : first.quantity ≡ 1
unfolding new_asset
one_treadmill = refl

never_three :
    (check_update 1 (record to_room { quantity = some 3 }) opened).0 ≡ err Code.invalid_quantity
unfolding create check_update allocate_branch_code decimal
never_three = refl

not_twice :
    (write_status 9 1 AssetStatus.disposal_pending first repairs).0
    ≡ err Code.invalid_status_transition
unfolding create write_status allocate_branch_code decimal
not_twice = refl
