-- ===== src/Pages/Profile/State.antt =====
-- The page's state, its messages, and what shows in it.
use mc_service.Prelude.{String, Option, none, some, Bool, true, false, if◌then◌else◌}
use mc_service.Prelude.Int.{ℤ, pos}
use mc_service.Json.{Json, str, get}
use mc_service.Session.State.{Failure, Result, ok, raise, World}
use mc_service.Pages.Attempts.{is_unauthorized_error}
use mc_service.Pages.Profile.Legal.{LegalDocuments}

pub data StatusTone : Type 0 where
  success error : StatusTone

pub record StatusMessage : Type 0 where
  pub tone : StatusTone
  pub message : String

pub record ServerStats : Type 0 where
  pub total_tracks : ℤ
  pub total_albums : ℤ
  pub total_artists : ℤ

pub data LegalDocKind : Type 0 where
  privacy terms : LegalDocKind

pub record PasswordForm : Type 0 where
  pub current_password : String
  pub new_password : String
  pub confirm_password : String

pub record ProfilePage : Type 0 where
  pub username : String
  pub email : String
  pub password_form : PasswordForm
  pub server_stats : ServerStats
  pub legal_docs : LegalDocuments
  pub legal_doc_open : Option LegalDocKind
  pub profile_status : Option StatusMessage
  pub password_status : Option StatusMessage
  pub account_status : Option StatusMessage
  pub saving_profile : Bool
  pub saving_password : Bool
  pub running_account_action : Bool
  pub loading_meta : Bool

abbrev text_or_empty : Option Json → String
text_or_empty (some (str text)) = text
text_or_empty _ = ""

abbrev of_user : String → Option Json → String
of_user key none = ""
of_user key (some user) = text_or_empty (get key user)

abbrev pub empty_password : PasswordForm
empty_password = record { current_password = ""; new_password = ""; confirm_password = "" }

-- The page at its first render.
unfoldable pub opened : World → ProfilePage
unfolding get
opened w = record {
  username = of_user "username" w.user;
  email = of_user "email" w.user;
  password_form = empty_password;
  server_stats = record { total_tracks = pos 0; total_albums = pos 0; total_artists = pos 0 };
  legal_docs = record { privacy_policy = ""; terms_of_service = "" };
  legal_doc_open = none;
  profile_status = none;
  password_status = none;
  account_status = none;
  saving_profile = false;
  saving_password = false;
  running_account_action = false;
  loading_meta = true;
}

-- The effect on the user's name and address.
unfoldable pub refill : Option Json → ProfilePage → ProfilePage
unfolding get
refill user p = record p { username = of_user "username" user; email = of_user "email" user }

abbrev pub told : StatusTone → String → Option StatusMessage
told tone message = some (record { tone = tone; message = message })

-- What the `catch` blocks say; "unauthorized" leaves what was said before, which is nothing.
unfoldable pub failed : String → Failure → Option StatusMessage
failed message e = if is_unauthorized_error e then none else told error message

-- A reply of undefined (`some none`) and no reply at all (`none`, null) are both false in a test.
abbrev pub joined : Option (Option Json) → Option Json
joined none = none
joined (some reply) = reply

abbrev pub active_legal_text : ProfilePage → String
active_legal_text p = elim p.legal_doc_open [
  | some privacy ↦ p.legal_docs.privacy_policy
  | _ ↦ p.legal_docs.terms_of_service
]

abbrev pub active_legal_title : ProfilePage → String
active_legal_title p = elim p.legal_doc_open [
  | some privacy ↦ "Privacy Policy"
  | _ ↦ "Terms of Service"
]

-- `loadPageMeta` behind its `await`; `cancelled` is whether the page is gone by then.
unfoldable pub end_meta : Bool → Result (ServerStats × LegalDocuments) → ProfilePage → ProfilePage
end_meta true r p = p
end_meta false (ok (stats, docs)) p = record p {
  server_stats = stats;
  legal_docs = docs;
  loading_meta = false;
}
end_meta false (raise e) p = record p { loading_meta = false }
