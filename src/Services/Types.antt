-- ===== src/Services/Types.antt =====
-- What the services are sent and what they reply with.
use mc_service.Prelude.{String, Option, List, Bool}
use mc_service.Prelude.Int.{ℤ}
use mc_service.Json.{Json}

pub record StreamUrl : Type 0 where
  pub manifest_url : String
  pub expires_at : ℤ

pub record ScanRequest : Type 0 where
  pub path : String
  pub recursive : Option Bool

pub record ScanResponse : Type 0 where
  pub scan_id : String
  pub files_found : ℤ
  pub status : String

pub record IngestRequest : Type 0 where
  pub file_path : String

pub record IngestResponse : Type 0 where
  pub track_id : String
  pub title : String
  pub artist : String
  pub album : String
  pub duration_secs : ℤ

pub record BackendScanResponse : Type 0 where
  pub scan_id : String
  pub status : String
  pub files_found : ℤ

pub record BackendMetadata : Type 0 where
  pub title : String
  pub artist : String
  pub album : String
  pub duration_secs : ℤ

pub record BackendIngestResponse : Type 0 where
  pub track_id : String
  pub status : String
  pub is_duplicate : Bool
  pub metadata : Option BackendMetadata

pub record IngestScanError : Type 0 where
  pub file_path : String
  pub error : String

pub record IngestScanSummary : Type 0 where
  pub scan_id : String
  pub total : ℤ
  pub imported : ℤ
  pub duplicates : ℤ
  pub failed : ℤ
  pub errors : List IngestScanError

pub record MediaProcessingSettings : Type 0 where
  pub auto_prewarm_on_scan_complete : Bool
  pub pretranscode_enabled : Bool
  pub prehls_enabled : Bool
  pub prewarm_bitrates : List ℤ
  pub hls_segment_duration_secs : ℤ
  pub updated_at : String

pub record UpdateMediaProcessingSettingsRequest : Type 0 where
  pub auto_prewarm_on_scan_complete : Option Bool
  pub pretranscode_enabled : Option Bool
  pub prehls_enabled : Option Bool
  pub prewarm_bitrates : Option (List ℤ)
  pub hls_segment_duration_secs : Option ℤ

pub record StartMediaPrewarmResponse : Type 0 where
  pub started : Bool
  pub message : String

pub data Role : Type 0 where
  admin user : Role

pub record AdminUserAccount : Type 0 where
  pub id : String
  pub username : String
  pub email : String
  pub role : Role
  pub is_active : Bool
  pub is_main_admin : Bool
  pub last_login_at : Option String
  pub created_at : String
  pub updated_at : String

pub record UpdateAdminUserRequest : Type 0 where
  pub username : Option String
  pub email : Option String
  pub role : Option Role
  pub is_active : Option Bool

pub record CreateAdminUserRequest : Type 0 where
  pub username : String
  pub email : String
  pub password : String
  pub role : Option Role
  pub is_active : Option Bool

pub record ResetAdminUserPasswordRequest : Type 0 where
  pub new_password : String

pub record AdminActionResponse : Type 0 where
  pub message : String

pub data VariableSource : Type 0 where
  override process unset : VariableSource

pub record RuntimeEnvironmentVariable : Type 0 where
  pub key : String
  pub value : String
  pub source : VariableSource
  pub is_sensitive : Bool
  pub override_value : String

pub record ServerRuntimeSettings : Type 0 where
  pub maintenance_mode : Bool
  pub allow_user_registration : Bool
  pub default_user_role : Role
  pub max_upload_size_mb : ℤ
  pub feature_flags : List (String × Bool)
  pub environment_overrides : List (String × String)
  pub environment : List RuntimeEnvironmentVariable
  pub main_admin_username : String
  pub updated_at : String

pub record UpdateServerRuntimeSettingsRequest : Type 0 where
  pub maintenance_mode : Option Bool
  pub allow_user_registration : Option Bool
  pub default_user_role : Option Role
  pub max_upload_size_mb : Option ℤ
  pub feature_flags : Option (List (String × Bool))
  pub environment_overrides : Option (List (String × String))

-- The casts of a parsed reply: what reading it as a type gives.
pub record ServiceViews : Type 0 where
  pub stream_url : Json → StreamUrl
  pub scan : Json → BackendScanResponse
  pub ingest : Json → BackendIngestResponse
  pub summary : Json → IngestScanSummary
  pub media : Json → MediaProcessingSettings
  pub prewarm : Json → StartMediaPrewarmResponse
  pub account : Json → AdminUserAccount
  pub accounts : Json → List AdminUserAccount
  pub action : Json → AdminActionResponse
  pub runtime : Json → ServerRuntimeSettings
