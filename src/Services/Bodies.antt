-- ===== src/Services/Bodies.antt =====
-- The bodies of the requests that change something hold what is given, and nothing that is not.
use mc_service.Prelude.{String, ◌≡◌, refl, Option, none, some, true, false, str_eq}
use mc_service.Json.{Json, Fields, num, bool, str, obj, get, member}
use mc_service.Services.Types.{
  UpdateMediaProcessingSettingsRequest, UpdateAdminUserRequest, UpdateServerRuntimeSettingsRequest,
}
use mc_service.Services.Operations.{
  optional, role_json, numbers, entries, media_body, update_user_body, runtime_body,
}

-- The value that a member stands for.
abbrev pub encoded : {A : Type 0} → (A → Json) → Option A → Option Json
encoded encode none = none
encoded encode (some a) = some (encode a)

member-optional :
    {A : Type 0} (encode : A → Json) (key : String) (o : Option A) (rest : Fields)
    → str_eq key key ≡ true
    → member key rest ≡ none
    → member key (optional key encode o rest) ≡ encoded encode o
unfolding optional member
member-optional encode key none rest same absent = absent
member-optional encode key (some a) rest same absent = rw same

member-optional_other :
    {A : Type 0} (encode : A → Json) (key other : String) (o : Option A) (rest : Fields)
    → str_eq other key ≡ false
    → member key (optional other encode o rest) ≡ member key rest
unfolding optional member
member-optional_other encode key other none rest differs = refl
member-optional_other encode key other (some a) rest differs = rw differs

-- The body of an update of a user account has each member with the value that is given for it, and
-- lacks each member without one.
pub update_user_body_lem :
    (r : UpdateAdminUserRequest)
    → (get "username" (update_user_body r) ≡ encoded str r.username)
      × (get "email" (update_user_body r) ≡ encoded str r.email)
      × (get "role" (update_user_body r) ≡ encoded role_json r.role)
      × (get "is_active" (update_user_body r) ≡ encoded bool r.is_active)
unfolding update_user_body get member
update_user_body_lem r = simp (member-optional, member-optional_other) (refl, refl, refl, refl)

-- The body of an update of the media settings has each member with the value that is given for it,
-- and lacks each member without one.
pub media_body_lem :
    (r : UpdateMediaProcessingSettingsRequest)
    → (get "auto_prewarm_on_scan_complete" (media_body r)
        ≡ encoded bool r.auto_prewarm_on_scan_complete)
      × (get "pretranscode_enabled" (media_body r) ≡ encoded bool r.pretranscode_enabled)
      × (get "prehls_enabled" (media_body r) ≡ encoded bool r.prehls_enabled)
      × (get "prewarm_bitrates" (media_body r) ≡ encoded numbers r.prewarm_bitrates)
      × (get "hls_segment_duration_secs" (media_body r) ≡ encoded num r.hls_segment_duration_secs)
unfolding media_body get member
media_body_lem r = simp (member-optional, member-optional_other) (refl, refl, refl, refl, refl)

-- The body of an update of the server's settings has each member with the value that is given for it,
-- and lacks each member without one.
pub runtime_body_lem :
    (r : UpdateServerRuntimeSettingsRequest)
    → (get "maintenance_mode" (runtime_body r) ≡ encoded bool r.maintenance_mode)
      × (get "allow_user_registration" (runtime_body r) ≡ encoded bool r.allow_user_registration)
      × (get "default_user_role" (runtime_body r) ≡ encoded role_json r.default_user_role)
      × (get "max_upload_size_mb" (runtime_body r) ≡ encoded num r.max_upload_size_mb)
      × (get "feature_flags" (runtime_body r) ≡ encoded (λ m. obj (entries bool m)) r.feature_flags)
      × (get "environment_overrides" (runtime_body r)
          ≡ encoded (λ m. obj (entries str m)) r.environment_overrides)
unfolding runtime_body get member
runtime_body_lem r =
    simp (member-optional, member-optional_other) (refl, refl, refl, refl, refl, refl)
