-- ===== src/Tests/Services.antt =====
-- Updates that give some members.
use mc_service.Prelude.{◌≡◌, none, some, [], ◌∷◌, true, false}
use mc_service.Prelude.Int.{pos}
use mc_service.Json.{num, bool, str, obj, get}
use mc_service.Services.Types.{
  UpdateAdminUserRequest, UpdateMediaProcessingSettingsRequest, UpdateServerRuntimeSettingsRequest,
}
use mc_service.Services.Operations.{numbers, entries, update_user_body, media_body, runtime_body}
use mc_service.Services.Bodies.{update_user_body_lem, media_body_lem, runtime_body_lem}

abbrev user_update : UpdateAdminUserRequest
user_update = record { username = none; email = some "a@b"; role = none; is_active = some false }

abbrev media_update : UpdateMediaProcessingSettingsRequest
media_update = record {
  auto_prewarm_on_scan_complete = some true;
  pretranscode_enabled = none;
  prehls_enabled = none;
  prewarm_bitrates = some (pos 128 ∷ []);
  hls_segment_duration_secs = none;
}

abbrev runtime_update : UpdateServerRuntimeSettingsRequest
runtime_update = record {
  maintenance_mode = some true;
  allow_user_registration = none;
  default_user_role = none;
  max_upload_size_mb = some (pos 10);
  feature_flags = some (("beta", true) ∷ []);
  environment_overrides = none;
}

user_update_members :
    (get "username" (update_user_body user_update) ≡ none)
    × (get "email" (update_user_body user_update) ≡ some (str "a@b"))
    × (get "role" (update_user_body user_update) ≡ none)
    × (get "is_active" (update_user_body user_update) ≡ some (bool false))
user_update_members = update_user_body_lem user_update

media_update_members :
    (get "auto_prewarm_on_scan_complete" (media_body media_update) ≡ some (bool true))
    × (get "pretranscode_enabled" (media_body media_update) ≡ none)
    × (get "prehls_enabled" (media_body media_update) ≡ none)
    × (get "prewarm_bitrates" (media_body media_update) ≡ some (numbers (pos 128 ∷ [])))
    × (get "hls_segment_duration_secs" (media_body media_update) ≡ none)
media_update_members = media_body_lem media_update

runtime_members :
    (get "maintenance_mode" (runtime_body runtime_update) ≡ some (bool true))
    × (get "allow_user_registration" (runtime_body runtime_update) ≡ none)
    × (get "default_user_role" (runtime_body runtime_update) ≡ none)
    × (get "max_upload_size_mb" (runtime_body runtime_update) ≡ some (num (pos 10)))
    × (get "feature_flags" (runtime_body runtime_update)
        ≡ some (obj (entries bool (("beta", true) ∷ []))))
    × (get "environment_overrides" (runtime_body runtime_update) ≡ none)
runtime_members = runtime_body_lem runtime_update
