-- ===== src/Admin/SystemConfig.antt =====
-- The page of the server's configuration, web/apps/admin/src/pages/SystemConfigPage.tsx.
use mc_service.Prelude.{
  String, Option, none, some, List, [], ◌∷◌, Bool, true, false, map, if◌then◌else◌, str_eq,
}
use mc_service.Prelude.Int.{ℤ, pos, ltb_ℤ}
use mc_service.Json.{Json}
use mc_service.Sorting.{sort}
use mc_service.Platform.{Platform}
use mc_service.Session.State.{Server, Result, ok, raise, thrown, World}
use mc_service.Services.Types.{Role, user, ServerRuntimeSettings, ServiceViews}
use mc_service.Services.Operations.{get_server_runtime_settings, update_server_runtime_settings}
use mc_service.Admin.Feedback.{Feedback, success, error, told, api_error_message}

-- An object that is used as a map: its keys in order, each once.
abbrev pub Entries : Type 0 → Type 0
Entries A = List (String × A)

-- `{ ...entries, [key]: value }`
unfoldable pub with_entry : {A : Type 0} → String → A → Entries A → Entries A
with_entry key value [] = (key, value) ∷ []
with_entry key value ((k, v) ∷ entries) =
    let rest = with_entry key value entries in
    if str_eq k key then (key, value) ∷ entries else (k, v) ∷ rest

pub record ConfigPage : Type 0 where
  pub settings : Option ServerRuntimeSettings
  pub loading : Bool
  pub saving : Bool
  pub feedback : Option Feedback
  pub maintenance_mode : Bool
  pub allow_user_registration : Bool
  pub default_user_role : Role
  pub max_upload_size_mb : ℤ
  pub feature_flags : Entries Bool
  pub environment_overrides : Entries String

abbrev pub opened : ConfigPage
opened = record {
  settings = none;
  loading = true;
  saving = false;
  feedback = none;
  maintenance_mode = false;
  allow_user_registration = true;
  default_user_role = user;
  max_upload_size_mb = pos 512;
  feature_flags = [];
  environment_overrides = [];
}

unfoldable pub hydrate : ServerRuntimeSettings → ConfigPage → ConfigPage
hydrate response p = record p {
  settings = some response;
  maintenance_mode = response.maintenance_mode;
  allow_user_registration = response.allow_user_registration;
  default_user_role = response.default_user_role;
  max_upload_size_mb = response.max_upload_size_mb;
  feature_flags = response.feature_flags;
  environment_overrides = response.environment_overrides;
}

unfoldable pub handle_toggle_feature_flag : String → Bool → ConfigPage → ConfigPage
unfolding with_entry
handle_toggle_feature_flag key value p = record p {
  feature_flags = with_entry key value p.feature_flags;
}

unfoldable pub handle_environment_override_change : String → String → ConfigPage → ConfigPage
unfolding with_entry
handle_environment_override_change key value p = record p {
  environment_overrides = with_entry key value p.environment_overrides;
}

unfoldable pub clear_override : String → ConfigPage → ConfigPage
unfolding with_entry
clear_override key p = record p {
  environment_overrides = with_entry key "" p.environment_overrides;
}

abbrev at_least_one : ℤ → ℤ
at_least_one n = if ltb_ℤ n (pos 1) then pos 1 else n

unfoldable pub sorted_feature_flag_keys : (String → String → ℤ) → ConfigPage → List String
sorted_feature_flag_keys locale_compare p =
    sort locale_compare (map (λ entry. entry.0) p.feature_flags)

-- `shown` is how the page renders a message that is not a text. A reply of undefined throws.
module _ (shown : Json → String) where
  unfoldable pub end_load : Result (Option ServerRuntimeSettings) → ConfigPage → ConfigPage
  unfolding hydrate
  end_load (ok (some response)) p = record (hydrate response p) { loading = false }
  end_load (ok none) p = record p {
    feedback = told error (api_error_message shown "Failed to load server configuration." thrown);
    loading = false;
  }
  end_load (raise e) p = record p {
    feedback = told error (api_error_message shown "Failed to load server configuration." e);
    loading = false;
  }

  unfoldable pub end_save : Result (Option ServerRuntimeSettings) → ConfigPage → ConfigPage
  unfolding hydrate
  end_save (ok (some response)) p = record (hydrate response p) {
    feedback = told success "Server runtime settings saved.";
  }
  end_save (ok none) p = record p {
    feedback = told error (api_error_message shown "Failed to save server configuration." thrown);
  }
  end_save (raise e) p = record p {
    feedback = told error (api_error_message shown "Failed to save server configuration." e);
  }

  module _ (views : ServiceViews) (browser : Platform) (server : Server) where
    unfoldable pub load_settings : ConfigPage → World → ConfigPage × World
    unfolding end_load
    load_settings p w =
        let (r, w') = get_server_runtime_settings views browser server w in
        (end_load r (record p { loading = true }), w')

    abbrev save_with : Option ServerRuntimeSettings → ConfigPage → World → ConfigPage × World
    save_with none p w = (p, w)
    save_with (some settings) p w =
        let (r, w') =
          update_server_runtime_settings views browser server
            (record {
              maintenance_mode = some p.maintenance_mode;
              allow_user_registration = some p.allow_user_registration;
              default_user_role = some p.default_user_role;
              max_upload_size_mb = some (at_least_one p.max_upload_size_mb);
              feature_flags = some p.feature_flags;
              environment_overrides = some p.environment_overrides;
            })
            w in
        if p.saving then (p, w) else (end_save r p, w')

    unfoldable pub handle_save : ConfigPage → World → ConfigPage × World
    unfolding end_save
    handle_save p w = save_with p.settings p w
