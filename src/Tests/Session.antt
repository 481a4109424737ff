-- ===== src/Tests/Session.antt =====
-- Requests and sign-ins against small servers.
use mc_service.Prelude.{
  ◌+◌, ◌≤◌, ◌≡◌, refl, ◌⊎◌, none, some, [], ◌∷◌, true, false, ◌||◌, length, eq_iff, if◌then◌else◌,
  str_eq,
}
use mathlib.Core.Bool.{false≢true}
use mc_service.Prelude.Int.{pos}
use mc_service.Json.{Json, num, str, obj, field, end, get}
use mc_service.Platform.{Platform, get_item, set_item}
use mc_service.Session.State.{
  ok, raise, thrown, World, Server, set_access_token, store, clear_auth_state, clear_stored_session,
}
use mc_service.Session.Client.{
  request_of, RequestOptions, AuthResponse, as_auth, request, request_again, send, fetch, finish,
  refresh_access_token, refresh_with, renew, resume_request, persist_auth_response, end_session,
  can_attempt_refresh, should_clear_session_on_unauthorized,
}
use mc_service.Session.Token.{is_jwt_expired, decode_jwt_payload}
use mc_service.Session.Exchange.{Exchange}
use mc_service.Session.Bounds.{request-length}
use mc_service.Session.Ending.{IsEnded, request-IsEnded}
use mc_service.Session.SignIn.{IsSignedIn, IsSameUser, login-IsEntry}
use mc_service.Session.Entry.{IsAccepted, form_options, sign_in-outcome}
use mc_service.Session.Auth.{initial, adopt, sign_in, restore_session, set_signed_in}
use mc_service.Session.Restore.{IsRestored, restore_session-outcome, restore_session-adopt}

abbrev user : Json
user = obj (field "id" (str "u1") end)

abbrev session_json : Json
session_json =
    obj (
      field "access_token" (str "h.p.s") (field "refresh_token" (str "r2") (field "user" user end)))

-- Every token expires at second 100.
abbrev browser : Platform
browser = record {
  has_window = true;
  accepts = λ _ _ _. true;
  parse = λ text.
      if str_eq text "user" then some user else some (obj (field "exp" (num (pos 100)) end));
  stringify = λ _. "user";
  atob = λ _. some "payload";
  to_number = λ j. elim j [ num n ↦ some n | _ ↦ none ];
}

-- A server that grants every refresh and sign-in, and knows one token.
abbrev server : Server
server [] = none
server (req ∷ _) =
    if str_eq req.path "/auth/refresh" || str_eq req.path "/auth/login"
    then some (record { status = 200; content = some session_json })
    else elim req.bearer [
      | none ↦ some (record { status = 401; content = none })
      | some token ↦
          if str_eq token "h.p.s"
          then some (record { status = 200; content = some user })
          else some (record { status = 401; content = none })
    ]

-- A server that refuses everybody.
abbrev refusing : Server
refusing _ = some (record { status = 401; content = none })

abbrev options : RequestOptions
options = record { method = "GET"; content = none; params = [] }

abbrev stale : World
stale = record (initial (some "old") (("access_token", "old") ∷ ("refresh_token", "r1") ∷ [])) {
  user = some user;
  is_authenticated = true;
}

abbrev fresh : World
fresh = initial none []

whole : Unit {0}
unfolding request request_again send fetch finish refresh_access_token refresh_with renew
    resume_request persist_auth_response end_session can_attempt_refresh
    should_clear_session_on_unauthorized store clear_auth_state clear_stored_session as_auth get
    get_item set_item
whole = tt

-- The expired token is renewed and the request repeated, in three calls.
renewed :
    ((request browser server "/playlists" options true stale).0 ≡ ok (some user))
    × (length (request browser server "/playlists" options true stale).1.sent ≡ 3)
    × ((request browser server "/playlists" options true stale).1.access_token ≡ some "h.p.s")
unfolding whole initial
renewed = (refl, refl, refl)

request-length_example :
    length (request browser refusing "/playlists" options true stale).1.sent ≤ length stale.sent + 3
request-length_example = request-length browser refusing "/playlists" options true stale

request-IsEnded_example : IsEnded (request browser refusing "/playlists" options true stale).1
unfolding whole initial
request-IsEnded_example =
    request-IsEnded browser refl refusing "/playlists" options true stale {b = none} refl refl refl

sign_in-outcome_example :
    (((auth : AuthResponse) × ((sign_in browser server "/auth/login" user fresh).0 ≡ ok tt)
        × IsAccepted browser server "/auth/login" user fresh auth
        × IsSignedIn browser auth fresh (sign_in browser server "/auth/login" user fresh).1)
      ⊎ (((sign_in browser server "/auth/login" user fresh).0 ≡ raise thrown)
          × IsSameUser browser fresh (sign_in browser server "/auth/login" user fresh).1
          × ((sign_in browser server "/auth/login" user fresh).1.is_loading ≡ false)))
    × ((sign_in browser server "/auth/login" user fresh).1.sent
        ≡ request_of "/auth/login" (form_options browser server "/auth/login" user) none ∷ [])
unfolding initial
sign_in-outcome_example = sign_in-outcome browser server "/auth/login" user fresh login-IsEntry

restore_session-outcome_example :
    IsRestored browser refl refusing 5000 stale (restore_session browser refusing 5000 stale)
restore_session-outcome_example = restore_session-outcome browser refl refusing 5000 stale

abbrev granted : AuthResponse
granted = record { access_token = some "h.p.s"; refresh_token = some "r2"; user = some user }

restore_session-adopt_example :
    restore_session browser refusing 5000 (initial none (adopt browser granted fresh).1.storage) ≡ (
      ok tt,
      set_signed_in
          (some user)
          (set_access_token (some "h.p.s") (initial none (adopt browser granted fresh).1.storage)),
    )
unfolding adopt store is_jwt_expired decode_jwt_payload
restore_session-adopt_example =
    restore_session-adopt browser refusing granted fresh 5000 "h.p.s" user refl refl refl
      (λ e. false≢true ((eq_iff "h.p.s" "").1 e)) refl (λ e. false≢true ((eq_iff "user" "").1 e))
      refl
