-- ===== src/Admin/Feedback.antt =====
-- What the pages of the administration tell of an outcome, and the message of a failure: `Feedback`
-- and `apiErrorMessage`, which the pages declare alike.
use mc_service.Prelude.{String, Option, none, some}
use mc_service.Json.{Json, null, str, get}
use mc_service.Session.State.{Failure, api_error, thrown}

pub data Tone : Type 0 where
  success error : Tone

pub record Feedback : Type 0 where
  pub tone : Tone
  pub message : String

abbrev pub told : Tone → String → Option Feedback
told tone message = some (record { tone = tone; message = message })

-- `shown` is how the page renders a message that is not a text.
abbrev text_or : (Json → String) → String → Option Json → String
text_or shown fallback none = fallback
text_or shown fallback (some null) = fallback
text_or shown fallback (some (str text)) = text
text_or shown fallback (some other) = shown other

abbrev member_of : String → Option Json → Option Json
member_of key none = none
member_of key (some j) = get key j

unfoldable pub api_error_message : (Json → String) → String → Failure → String
unfolding get
api_error_message shown fallback thrown = fallback
api_error_message shown fallback (api_error status body) =
    text_or shown fallback (member_of "message" (member_of "error" body))
