-- ===== src/Tests/Settings.antt =====
-- The bitrates of the settings page.
use mc_service.Prelude.{◌≡◌, refl, [], ◌∷◌, true, codes, trim, trim_start}
use mc_service.Prelude.Int.{pos, ◌-ℤ◌}
use mc_service.Prelude.Decimal.{parse_int, read_digits}
use mc_service.Sorting.{insert, sort}
use mc_service.Services.Types.{MediaProcessingSettings}
use mc_service.Admin.Settings.Bitrates.{parse_bitrates, split, distinct_from, positives}

-- Signs, blanks, other texts and duplicates.
bitrates_read :
    parse_bitrates (codes " 320 ,-1,x,128,+256,128kbps,0") ≡ pos 128 ∷ pos 256 ∷ pos 320 ∷ []
unfolding parse_bitrates split distinct_from positives parse_int read_digits trim trim_start sort
    insert ◌-ℤ◌
bitrates_read = refl

abbrev held : MediaProcessingSettings
held = record {
  auto_prewarm_on_scan_complete = true;
  pretranscode_enabled = true;
  prehls_enabled = true;
  prewarm_bitrates = pos 96 ∷ pos 128 ∷ pos 320 ∷ [];
  hls_segment_duration_secs = pos 6;
  updated_at = "";
}
