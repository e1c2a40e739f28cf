-- ===== src/Store/Operations.antt =====
-- apps/api/prisma/schema.prisma: facilities, assets, posts, support requests and the staff's requests to
-- change their own data.
use sports_erp.Prelude.{ℕ, Bool, Option, String}
use sports_erp.Store.Branches.{Text}

pub data FacilityType : Type 0 where
  gym pool golf reading_room etc : FacilityType

pub record Facility : Type 0 where
  pub id : ℕ
  pub branch_id : ℕ
  pub name : String
  pub type : FacilityType
  pub capacity : ℕ
  pub is_active : Bool
  pub current_count : ℕ
  pub level : ℕ
  pub last_updated_at : Option ℕ

pub data PostScope : Type 0 where
  hq_to_branch branch_to_member : PostScope

pub data PostCategory : Type 0 where
  notice training_material event other : PostCategory

pub record Post : Type 0 where
  pub id : ℕ
  pub scope : PostScope
  pub branch_id : Option ℕ
  pub author_id : ℕ
  pub category : PostCategory
  pub title : String
  pub content : Text
  pub view_count : ℕ
  pub published_at : ℕ
  pub deleted_at : Option ℕ
  pub visible_to_member : Bool
  pub facility_id : Option ℕ
  pub created_at : ℕ

-- `url` is the path in the storage.
pub record Attachment : Type 0 where
  pub id : ℕ
  pub post_id : ℕ
  pub url : Text
  pub file_name : Text
  pub file_type : Text
  pub file_size : ℕ

pub data SupportRequestCategory : Type 0 where
  facility staffing supplies it other : SupportRequestCategory

pub data SupportRequestStatus : Type 0 where
  requested in_progress done rejected : SupportRequestStatus

pub record SupportRequest : Type 0 where
  pub id : ℕ
  pub branch_id : ℕ
  pub requester_id : ℕ
  pub category : SupportRequestCategory
  pub title : Text
  pub content : Text
  pub status : SupportRequestStatus
  pub handler_id : Option ℕ
  pub response : Option Text
  pub resolved_at : Option ℕ
  pub created_at : ℕ

pub data ChangeRequestStatus : Type 0 where
  pending approved rejected : ChangeRequestStatus

-- `field` is "name" or "phone".
pub data ChangeableField : Type 0 where
  name phone : ChangeableField

pub record StaffProfileChangeRequest : Type 0 where
  pub id : ℕ
  pub staff_id : ℕ
  pub field : ChangeableField
  pub old_value : Option Text
  pub new_value : Text
  pub status : ChangeRequestStatus
  pub reviewed_by : Option ℕ
  pub reviewed_at : Option ℕ
  pub created_at : ℕ

pub data AssetCategory : Type 0 where
  exercise_equipment safety_equipment office_furniture other : AssetCategory

pub data AssetType : Type 0 where
  fixed_asset consumable : AssetType

pub data AssetStatus : Type 0 where
  normal repairing disposal_pending disposed : AssetStatus

pub record Asset : Type 0 where
  pub id : ℕ
  pub asset_code : Text
  pub branch_id : ℕ
  pub name : String
  pub category : AssetCategory
  pub asset_type : AssetType
  pub acquired_at : ℕ
  pub acquisition_cost : ℕ
  pub useful_life_years : Option ℕ
  pub status : AssetStatus
  pub quantity : ℕ
  pub location : Option String
  pub note : Option String
