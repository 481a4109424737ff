-- ===== src/Admin/Settings/Defs.antt =====
-- The page's state, and its handlers from the start to their end.
use mc_service.Prelude.{
  ℕ, String, Option, none, some, List, [], ◌∷◌, Bool, true, false, if◌then◌else◌, codes,
}
use mc_service.Prelude.Int.{ℤ, pos, ltb_ℤ}
use mc_service.Platform.{Platform}
use mc_service.Session.State.{Server, Result, ok, World}
use mc_service.Services.Types.{
  MediaProcessingSettings, UpdateMediaProcessingSettingsRequest, StartMediaPrewarmResponse,
  ServiceViews,
}
use mc_service.Services.Operations.{
  get_media_processing_settings, update_media_processing_settings, start_manual_prewarm,
}
use mc_service.Admin.Feedback.{Feedback, success, error, told}
use mc_service.Admin.Settings.Bitrates.{join, parse_bitrates}

pub record SettingsPage : Type 0 where
  pub loading_media_settings : Bool
  pub saving_media_settings : Bool
  pub running_prewarm : Bool
  pub auto_prewarm_on_scan_complete : Bool
  pub pretranscode_enabled : Bool
  pub prehls_enabled : Bool
  pub bitrates_input : List ℕ
  pub segment_duration_input : ℤ
  pub updated_at : String
  pub feedback : Option Feedback

abbrev pub opened : SettingsPage
opened = record {
  loading_media_settings = true;
  saving_media_settings = false;
  running_prewarm = false;
  auto_prewarm_on_scan_complete = true;
  pretranscode_enabled = true;
  prehls_enabled = true;
  bitrates_input = codes "128,256,320";
  segment_duration_input = pos 10;
  updated_at = "";
  feedback = none;
}

unfoldable pub hydrate_form : MediaProcessingSettings → SettingsPage → SettingsPage
hydrate_form settings p = record p {
  auto_prewarm_on_scan_complete = settings.auto_prewarm_on_scan_complete;
  pretranscode_enabled = settings.pretranscode_enabled;
  prehls_enabled = settings.prehls_enabled;
  bitrates_input = join settings.prewarm_bitrates;
  segment_duration_input = settings.hls_segment_duration_secs;
  updated_at = settings.updated_at;
}

-- A reply of undefined throws.
unfoldable pub end_load : Result (Option MediaProcessingSettings) → SettingsPage → SettingsPage
unfolding hydrate_form
end_load (ok (some settings)) p = record (hydrate_form settings p) {
  loading_media_settings = false;
  feedback = none;
}
end_load _ p = record p {
  feedback = told error "Failed to load media processing settings.";
  loading_media_settings = false;
}

unfoldable pub parse_bitrates_input : SettingsPage → List ℤ
parse_bitrates_input p = parse_bitrates p.bitrates_input

abbrev at_least_one : ℤ → ℤ
at_least_one n = if ltb_ℤ n (pos 1) then pos 1 else n

abbrev pub update_of : List ℤ → SettingsPage → UpdateMediaProcessingSettingsRequest
update_of bitrates p = record {
  auto_prewarm_on_scan_complete = some p.auto_prewarm_on_scan_complete;
  pretranscode_enabled = some p.pretranscode_enabled;
  prehls_enabled = some p.prehls_enabled;
  prewarm_bitrates = some bitrates;
  hls_segment_duration_secs = some (at_least_one p.segment_duration_input);
}

unfoldable pub end_save : Result (Option MediaProcessingSettings) → SettingsPage → SettingsPage
unfolding hydrate_form
end_save (ok (some settings)) p = record (hydrate_form settings p) {
  feedback = told success "Media processing settings saved.";
  saving_media_settings = false;
}
end_save _ p = record p {
  feedback = told error "Saving media processing settings failed.";
  saving_media_settings = false;
}

unfoldable pub end_prewarm : Result (Option StartMediaPrewarmResponse) → SettingsPage → SettingsPage
end_prewarm (ok (some response)) p = record p {
  feedback = told success response.message;
  running_prewarm = false;
}
end_prewarm _ p = record p {
  feedback = told error "Failed to start media prewarm job.";
  running_prewarm = false;
}

module _ (views : ServiceViews) (browser : Platform) (server : Server) where
  unfoldable pub load_media_settings : SettingsPage → World → SettingsPage × World
  unfolding end_load
  load_media_settings p w =
      let (r, w') = get_media_processing_settings views browser server w in (end_load r p, w')

  abbrev save_with : List ℤ → SettingsPage → World → SettingsPage × World
  save_with [] p w = (
    record p {
      feedback = told error "Enter at least one valid bitrate (for example 128,256,320).";
    },
    w,
  )
  save_with (n ∷ ns) p w =
      let (r, w') =
        update_media_processing_settings views browser server (update_of (n ∷ ns) p) w in
      (end_save r p, w')

  unfoldable pub handle_save_settings : SettingsPage → World → SettingsPage × World
  unfolding end_save parse_bitrates_input
  handle_save_settings p w = save_with (parse_bitrates_input p) p w

  unfoldable pub handle_run_prewarm : SettingsPage → World → SettingsPage × World
  unfolding end_prewarm
  handle_run_prewarm p w =
      let (r, w') = start_manual_prewarm views browser server w in (end_prewarm r p, w')
