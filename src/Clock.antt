-- ===== src/Clock.antt =====
-- The clock texts of web/apps/player/src/lib/format.ts, by their code points. A number of seconds is
-- one of whole thousandths, from 0 on.
use mc_service.Prelude.{ℕ, ◌+◌, ◌*◌, ◌/◌, ◌%◌, List, [], ◌∷◌, ◌++◌, if◌then◌else◌, leb}
use mc_service.Prelude.Decimal.{decimal}
pub mod ReadBack

-- `text.padStart(2, "0")`
unfoldable pub pad_start : List ℕ → List ℕ
pad_start [] = 48 ∷ 48 ∷ []
pad_start (c ∷ []) = 48 ∷ c ∷ []
pad_start (c ∷ d ∷ cs) = c ∷ d ∷ cs

unfoldable pub format_duration : ℕ → List ℕ
format_duration secs =
    let minutes = secs / 60000 in
    let seconds = secs % 60000 / 1000 in decimal minutes ++ (58 ∷ pad_start (decimal seconds))

unfoldable pub format_time : ℕ → List ℕ
format_time secs =
    if leb 3600000 secs
    then (let hours = secs / 3600000 in
        let minutes = secs % 3600000 / 60000 in
        let seconds = secs % 60000 / 1000 in
        decimal hours ++ (58 ∷ (pad_start (decimal minutes) ++ (58 ∷ pad_start (decimal seconds)))))
    else format_duration secs
