-- ===== src/Tests/Clock.antt =====
-- Clock texts of single times.
use mc_service.Prelude.{◌≡◌, refl, ◌∷◌, [], arith}
use mc_service.Prelude.Decimal.{digits}
use mc_service.Clock.{pad_start, format_duration, format_time}
use mc_service.Clock.ReadBack.{read_clock, read_clock-format_time}

-- "1:02:05"
hour_text : format_time 3725500 ≡ 49 ∷ 58 ∷ 48 ∷ 50 ∷ 58 ∷ 48 ∷ 53 ∷ []
unfolding format_time pad_start digits
hour_text = refl

-- "61:01", since `formatDuration` has no hours
minute_text : format_duration 3661000 ≡ 54 ∷ 49 ∷ 58 ∷ 48 ∷ 49 ∷ []
unfolding format_duration pad_start digits
minute_text = refl

read_clock-format_time_example : read_clock (format_time 3725500) ≡ 3725
read_clock-format_time_example = read_clock-format_time 3725500 (omega arith)
