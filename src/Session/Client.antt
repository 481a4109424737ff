-- ===== src/Session/Client.antt =====
-- client.ts: `request`, the refresh of the access token and the session's end on a 401.
use mc_service.Prelude.{
  String, Option, none, some, List, [], ◌∷◌, Bool, true, false, not, ◌&&◌, if◌then◌else◌, leb, ◌==◌,
  str_eq,
}
use text.Mathlib.Text.{starts_with}
use mc_service.Prelude.Int.{pos, negsuc}
use mc_service.Json.{Json, null, bool, num, str, arr, obj, field, end, get}
use mc_service.Platform.{Platform, get_item}
use mc_service.Session.State.{
  Request, Response, api_error, thrown, ok, raise, World, Server, M, ◌>>=◌, ◌>>◌, return, modify,
  throw, catch, access_token_key, refresh_token_key, user_key, set_access_token, store,
  clear_stored_session, clear_auth_state,
}

pub record RequestOptions : Type 0 where
  pub method : String
  pub content : Option Json
  pub params : List (String × Option String)

abbrev pub auth_refresh_path : String
auth_refresh_path = "/auth/refresh"

unfoldable pub can_attempt_refresh : String → Bool
can_attempt_refresh path =
    not (starts_with path "/auth/login")
    && not (starts_with path "/auth/register")
    && not (starts_with path auth_refresh_path)

unfoldable pub should_clear_session_on_unauthorized : String → Bool
should_clear_session_on_unauthorized path =
    not (starts_with path "/auth/login") && not (starts_with path "/auth/register")

-- Whether a value counts as true in a test.
abbrev pub truthy : Json → Bool
truthy null = false
truthy (bool b) = b
truthy (num (pos n)) = not (n == 0)
truthy (num (negsuc n)) = true
truthy (str s) = not (str_eq s "")
truthy (arr items) = true
truthy (obj fields) = true

-- The value, if it counts as true.
abbrev pub if_truthy : Option Json → Option Json
if_truthy none = none
if_truthy (some j) = if truthy j then some j else none

-- The text, if it is not empty.
abbrev pub if_nonempty : Option String → Option String
if_nonempty none = none
if_nonempty (some s) = if str_eq s "" then none else some s

-- A reply to `login`, `register` or `refresh`; a token that is missing or no text reads as undefined.
pub record AuthResponse : Type 0 where
  pub access_token : Option String
  pub refresh_token : Option String
  pub user : Option Json

text_member : Option Json → Option String
text_member (some (str s)) = some s
text_member _ = none

-- The cast of `res.json()`; a member access on null throws.
unfoldable pub as_auth : Json → Option AuthResponse
unfolding text_member get
as_auth null = none
as_auth j = some (record {
  access_token = text_member (get "access_token" j);
  refresh_token = text_member (get "refresh_token" j);
  user = get "user" j;
})

-- `String(text)`, as `setItem` stores it.
abbrev pub text_of : Option String → String
text_of none = "undefined"
text_of (some s) = s

-- `res.ok`
abbrev pub is_ok : Response → Bool
is_ok res = leb 200 res.status && leb res.status 299

abbrev pub defined_params : List (String × Option String) → List (String × String)
defined_params [] = []
defined_params ((key, none) ∷ params) = defined_params params
defined_params ((key, some value) ∷ params) = (key, value) ∷ defined_params params

abbrev pub refresh_body : String → Json
refresh_body token = obj (field "refresh_token" (str token) end)

-- The request that `refreshAccessToken` sends.
abbrev pub refresh_request : String → Request
refresh_request token = record {
  method = "POST";
  path = auth_refresh_path;
  query = [];
  content = some (refresh_body token);
  bearer = none;
  is_json = true;
}

-- The request that `request` sends, with the headers that it builds.
abbrev pub request_of : String → RequestOptions → Option String → Request
request_of path options token =
    let content = if_truthy options.content in
    record {
      method = options.method;
      path = path;
      query = defined_params options.params;
      content = content;
      bearer = if_nonempty token;
      is_json = elim content [ none ↦ false | some _ ↦ true ];
    }

-- `await res.json()`
abbrev pub json_of : Response → M Json
json_of res w = elim res.content [ none ↦ (raise thrown, w) | some j ↦ (ok j, w) ]

module _ (browser : Platform) where
  -- `getStoredRefreshToken`
  abbrev pub stored_refresh_token : World → Option String
  stored_refresh_token w = if browser.has_window then get_item refresh_token_key w.storage else none

  -- `persistAuthResponse`
  unfoldable pub persist_auth_response : AuthResponse → M (Unit {0})
  unfolding store
  persist_auth_response auth =
      if browser.has_window
      then (do
        store browser access_token_key (text_of auth.access_token)
        store browser refresh_token_key (text_of auth.refresh_token)
        elim (if_truthy auth.user) [
          | none ↦ return tt
          | some user ↦ store browser user_key (browser.stringify user)
        ])
      else return tt

  -- The new session of a refresh; null has no members.
  unfoldable pub renew : Option AuthResponse → M Bool
  renew none = throw thrown
  renew (some auth) = do
    modify (set_access_token auth.access_token)
    persist_auth_response auth
    return true

  -- What the unauthorized 401 does before `request` throws.
  unfoldable pub end_session : World → World
  unfolding clear_stored_session clear_auth_state
  end_session w =
      let cleared = clear_stored_session browser (set_access_token none w) in
      if w.has_handler then clear_auth_state browser cleared else cleared

  -- `request` after the reply that it keeps
  unfoldable pub finish : String → Response → M (Option Json)
  finish path res w =
      if not (is_ok res)
      then (
        raise (api_error res.status res.content),
        (if res.status == 401 && should_clear_session_on_unauthorized path
            then end_session w
            else w),
      )
      else if res.status == 204
      then (ok none, w)
      else elim res.content [ none ↦ (raise thrown, w) | some j ↦ (ok (some j), w) ]

  module _ (server : Server) where
    -- `fetch`
    unfoldable pub fetch : Request → M Response
    fetch req w =
        let log = req ∷ w.sent in
        elim (server log) [
          | none ↦ (raise thrown, record w { sent = log })
          | some res ↦ (ok res, record w { sent = log })
        ]

    unfoldable pub refresh_with : String → M Bool
    refresh_with token = do
      res ← fetch (refresh_request token)
      if not (is_ok res) then return false else (do j ← json_of res; renew (as_auth j))

    -- The promise of `refreshAccessToken`: an exception counts as a refusal.
    unfoldable pub refresh_access_token : M Bool
    unfolding refresh_with
    refresh_access_token w = elim (if_nonempty (stored_refresh_token w)) [
      | none ↦ (ok false, w)
      | some token ↦ catch (refresh_with token) (λ _. return false) w
    ]

    -- The `fetch` of `request`.
    unfoldable pub send : String → RequestOptions → M Response
    send path options w = fetch (request_of path options w.access_token) w

    -- `request(path, options, false)`
    unfoldable pub request_again : String → RequestOptions → M (Option Json)
    request_again path options = do res ← send path options; finish path res

    -- `request` behind the refresh
    unfoldable pub resume_request : String → RequestOptions → Response → Bool → M (Option Json)
    resume_request path options res true = request_again path options
    resume_request path options res false = finish path res

    unfoldable pub request : String → RequestOptions → Bool → M (Option Json)
    unfolding resume_request
    request path options retry_unauthorized = do
      res ← send path options
      if res.status == 401 && retry_unauthorized && can_attempt_refresh path
          then (do refreshed ← refresh_access_token; resume_request path options res refreshed)
          else finish path res

    -- `api.get`, `api.post`, `api.put`, `api.patch`, `api.delete`
    unfoldable pub api_get : String → List (String × Option String) → M (Option Json)
    api_get path params =
        request path (record { method = "GET"; content = none; params = params }) true

    unfoldable pub api_post : String → Option Json → M (Option Json)
    api_post path body = request path (record { method = "POST"; content = body; params = [] }) true

    unfoldable pub api_put : String → Option Json → M (Option Json)
    api_put path body = request path (record { method = "PUT"; content = body; params = [] }) true

    unfoldable pub api_patch : String → Option Json → M (Option Json)
    api_patch path body =
        request path (record { method = "PATCH"; content = body; params = [] }) true

    unfoldable pub api_delete : String → M (Option Json)
    api_delete path = request path (record { method = "DELETE"; content = none; params = [] }) true
