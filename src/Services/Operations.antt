-- ===== src/Services/Operations.antt =====
-- `ingestionApi`, `streamApi`, `mediaSettingsApi` and `adminApi`.
use mc_service.Prelude.{String, Option, none, some, List, [], ◌∷◌, Bool, true, false, map}
use Prim.Native.String
use mc_service.Prelude.Int.{ℤ, pos}
use mc_service.Json.{Json, Fields, num, bool, str, arr, obj, field, end, of_list}
use mc_service.Platform.{Platform}
use mc_service.Session.State.{Server, M, ◌>>=◌, return, throw, thrown}
use mc_service.Session.Client.{api_get, api_post, api_put, api_delete}
use mc_service.Services.Types.{
  StreamUrl, ScanRequest, ScanResponse, IngestRequest, IngestResponse, BackendScanResponse,
  BackendMetadata, BackendIngestResponse, IngestScanSummary, MediaProcessingSettings,
  UpdateMediaProcessingSettingsRequest, StartMediaPrewarmResponse, Role, admin, user,
  AdminUserAccount, UpdateAdminUserRequest, CreateAdminUserRequest, ResetAdminUserPasswordRequest,
  AdminActionResponse, ServerRuntimeSettings, UpdateServerRuntimeSettingsRequest, ServiceViews,
}

-- The member of an optional property: one that is undefined is left out of the text of a body.
unfoldable pub optional : {A : Type 0} → String → (A → Json) → Option A → Fields → Fields
optional key encode none rest = rest
optional key encode (some a) rest = field key (encode a) rest

abbrev pub role_json : Role → Json
role_json admin = str "admin"
role_json user = str "user"

abbrev pub numbers : List ℤ → Json
numbers ns = arr (of_list (map num ns))

-- An object that is used as a map.
abbrev pub entries : {A : Type 0} → (A → Json) → List (String × A) → Fields
entries encode [] = end
entries encode ((key, a) ∷ rest) = field key (encode a) (entries encode rest)

abbrev pub or_given : {A : Type 0} → Option A → A → A
or_given none d = d
or_given (some a) d = a

unfoldable pub scan_body : ScanRequest → Json
scan_body r =
    obj (
      field "directory_path" (str r.path)
        (field "recursive" (bool (or_given r.recursive true)) end))

unfoldable pub media_body : UpdateMediaProcessingSettingsRequest → Json
media_body r = obj (
    optional "auto_prewarm_on_scan_complete" bool r.auto_prewarm_on_scan_complete (
      optional "pretranscode_enabled" bool r.pretranscode_enabled (
        optional "prehls_enabled" bool r.prehls_enabled (
          optional "prewarm_bitrates" numbers r.prewarm_bitrates
            (optional "hls_segment_duration_secs" num r.hls_segment_duration_secs end)))))

unfoldable pub create_user_body : CreateAdminUserRequest → Json
create_user_body r = obj (
    field "username" (str r.username) (
      field "email" (str r.email) (
        field "password" (str r.password)
          (optional "role" role_json r.role (optional "is_active" bool r.is_active end)))))

unfoldable pub update_user_body : UpdateAdminUserRequest → Json
update_user_body r = obj (
    optional "username" str r.username (
      optional "email" str r.email
        (optional "role" role_json r.role (optional "is_active" bool r.is_active end))))

unfoldable pub runtime_body : UpdateServerRuntimeSettingsRequest → Json
runtime_body r = obj (
    optional "maintenance_mode" bool r.maintenance_mode (
      optional "allow_user_registration" bool r.allow_user_registration (
        optional "default_user_role" role_json r.default_user_role (
          optional "max_upload_size_mb" num r.max_upload_size_mb (
            optional "feature_flags" (λ m. obj (entries bool m)) r.feature_flags
              (optional "environment_overrides" (λ m. obj (entries str m)) r.environment_overrides
                end))))))

abbrev pub user_path : String → String
user_path id = String.◌++◌ "/settings/users/" id

-- The cast of a reply; `none` is undefined.
abbrev cast : {A : Type 0} → (Json → A) → M (Option Json) → M (Option A)
cast view call = do res ← call; return (elim res [ none ↦ none | some j ↦ some (view j) ])

-- A reply of which members are read; a member of undefined throws.
abbrev reply : {A : Type 0} → (Json → A) → Option Json → M A
reply view none = throw thrown
reply view (some j) = return (view j)

abbrev pub scan_response : BackendScanResponse → ScanResponse
scan_response r = record { scan_id = r.scan_id; files_found = r.files_found; status = r.status }

abbrev pub no_tags : BackendMetadata
no_tags = record { title = ""; artist = ""; album = ""; duration_secs = pos 0 }

abbrev pub ingest_response : BackendIngestResponse → IngestResponse
ingest_response r =
    let tags = or_given r.metadata no_tags in
    record {
      track_id = r.track_id;
      title = tags.title;
      artist = tags.artist;
      album = tags.album;
      duration_secs = tags.duration_secs;
    }

module _ (views : ServiceViews) (browser : Platform) (server : Server) where
  unfoldable pub scan : ScanRequest → M ScanResponse
  scan data_ = do
    res ← api_post browser server "/ingest/scan" (some (scan_body data_))
    response ← reply views.scan res
    return (scan_response response)

  unfoldable pub ingest_file : IngestRequest → M IngestResponse
  ingest_file data_ = do
    res ←
        api_post browser server "/ingest/file"
          (some (obj (field "file_path" (str data_.file_path) end)))
    response ← reply views.ingest res
    return (ingest_response response)

  unfoldable pub ingest_scan : String → Option Bool → M (Option IngestScanSummary)
  ingest_scan scan_id force_reimport = cast views.summary (
      api_post browser server (String.◌++◌ "/ingest/scan/" scan_id)
        (some (obj (field "force_reimport" (bool (or_given force_reimport false)) end))))

  unfoldable pub get_stream_url : String → M (Option StreamUrl)
  get_stream_url track_id =
      cast views.stream_url (api_get browser server (String.◌++◌ "/stream/" track_id) [])

  unfoldable pub get_media_processing_settings : M (Option MediaProcessingSettings)
  get_media_processing_settings =
      cast views.media (api_get browser server "/settings/media-processing" [])

  unfoldable pub update_media_processing_settings :
      UpdateMediaProcessingSettingsRequest → M (Option MediaProcessingSettings)
  update_media_processing_settings request =
      cast views.media
        (api_put browser server "/settings/media-processing" (some (media_body request)))

  unfoldable pub start_manual_prewarm : M (Option StartMediaPrewarmResponse)
  start_manual_prewarm =
      cast views.prewarm (api_post browser server "/settings/media-processing/prewarm" none)

  unfoldable pub create_user : CreateAdminUserRequest → M (Option AdminUserAccount)
  create_user request =
      cast views.account
        (api_post browser server "/settings/users" (some (create_user_body request)))

  unfoldable pub list_users : M (Option (List AdminUserAccount))
  list_users = cast views.accounts (api_get browser server "/settings/users" [])

  unfoldable pub get_user : String → M (Option AdminUserAccount)
  get_user user_id = cast views.account (api_get browser server (user_path user_id) [])

  unfoldable pub update_user : String → UpdateAdminUserRequest → M (Option AdminUserAccount)
  update_user user_id request =
      cast views.account
        (api_put browser server (user_path user_id) (some (update_user_body request)))

  unfoldable pub reset_user_password :
      String → ResetAdminUserPasswordRequest → M (Option AdminActionResponse)
  reset_user_password user_id request = cast views.action (
      api_post browser server (String.◌++◌ (user_path user_id) "/reset-password")
        (some (obj (field "new_password" (str request.new_password) end))))

  unfoldable pub delete_user : String → M (Option AdminActionResponse)
  delete_user user_id = cast views.action (api_delete browser server (user_path user_id))

  unfoldable pub get_server_runtime_settings : M (Option ServerRuntimeSettings)
  get_server_runtime_settings =
      cast views.runtime (api_get browser server "/settings/server-runtime" [])

  unfoldable pub update_server_runtime_settings :
      UpdateServerRuntimeSettingsRequest → M (Option ServerRuntimeSettings)
  update_server_runtime_settings request =
      cast views.runtime
        (api_put browser server "/settings/server-runtime" (some (runtime_body request)))
