-- ===== src/Models/Accounts.antt =====
-- app/models.py: accounts, safety, notifications and their settings.
use dalm_backend.Prelude.{Bool, String, Option, is_none}
use dalm_backend.Models.Times.{Uuid, DateTime}
use dalm_backend.Models.Statuses.{UserStatus, NotificationType, TermType, ReportTarget}

pub record User : Type 0 where
  pub id : Uuid
  pub kakao_id : Option String
  pub apple_id : Option String
  pub nickname : Option String
  pub profile_image_key : Option String
  pub bio : Option String
  pub marketing_agreed : Bool
  pub status : UserStatus
  pub created_at : DateTime
  pub updated_at : DateTime
  pub withdrawn_at : Option DateTime

abbrev pub onboarding_required : User → Bool
onboarding_required u = is_none u.nickname

pub record UserTerm : Type 0 where
  pub id : Uuid
  pub user_id : Uuid
  pub term_type : TermType
  pub term_version : String
  pub agreed : Bool
  pub agreed_at : DateTime

pub record Block : Type 0 where
  pub blocker_id : Uuid
  pub blocked_id : Uuid
  pub created_at : DateTime

pub record Report : Type 0 where
  pub id : Uuid
  pub reporter_id : Uuid
  pub target_type : ReportTarget
  pub target_id : Uuid
  pub reason_code : String
  pub detail : Option String
  pub status : String
  pub created_at : DateTime

pub record Notification : Type 0 where
  pub id : Uuid
  pub user_id : Uuid
  pub type : NotificationType
  pub title : String
  pub message : String
  pub target_type : Option String
  pub target_id : Option Uuid
  pub read_at : Option DateTime
  pub deleted_at : Option DateTime
  pub created_at : DateTime

pub record DeviceToken : Type 0 where
  pub id : Uuid
  pub user_id : Uuid
  pub token : String
  pub platform : String
  pub last_used_at : DateTime
  pub created_at : DateTime

pub record NotificationSetting : Type 0 where
  pub user_id : Uuid
  pub validation_enabled : Bool
  pub match_enabled : Bool
  pub postcard_enabled : Bool
  pub search_expired_enabled : Bool
  pub system_enabled : Bool
