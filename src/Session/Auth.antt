-- ===== src/Session/Auth.antt =====
-- auth.ts: signing in, signing out, and taking up a stored session.
use mc_service.Prelude.{ℕ, String, Option, none, some, [], Bool, true, false}
use mc_service.Json.{Json}
use mc_service.Platform.{Platform, Storage, get_item}
use mc_service.Session.State.{
  ok, raise, thrown, World, Server, M, ◌>>=◌, ◌>>◌, modify, throw, catch, access_token_key,
  refresh_token_key, user_key, set_access_token, store, clear_auth_state,
}
use mc_service.Session.Client.{
  AuthResponse, as_auth, text_of, refresh_body, if_nonempty, api_post, auth_refresh_path,
}
use mc_service.Session.Token.{is_jwt_expired}

-- The store as it is created: the handler is set, and nobody is signed in.
unfoldable pub initial : Option String → Storage → World
initial token storage = record {
  access_token = token;
  has_handler = true;
  storage = storage;
  user = none;
  is_authenticated = false;
  is_loading = false;
  sent = [];
}

abbrev pub set_loading : Bool → World → World
set_loading b w = record w { is_loading = b }

abbrev pub set_signed_in : Option Json → World → World
set_signed_in user w = record w { user = user; is_authenticated = true }

-- An awaited value of an authentication call; null and undefined have no members.
abbrev pub auth_of : Option Json → M AuthResponse
auth_of none w = (raise thrown, w)
auth_of (some j) w = elim (as_auth j) [ none ↦ (raise thrown, w) | some auth ↦ (ok auth, w) ]

module _ (browser : Platform) where
  -- `JSON.stringify`, as `setItem` stores it
  abbrev pub user_text : Option Json → String
  user_text none = "undefined"
  user_text (some j) = browser.stringify j

  -- What `login`, `register` and `restoreSession` do with a reply.
  unfoldable pub adopt : AuthResponse → M (Unit {0})
  unfolding store
  adopt auth = do
    modify (set_access_token auth.access_token)
    store browser access_token_key (text_of auth.access_token)
    store browser refresh_token_key (text_of auth.refresh_token)
    store browser user_key (user_text auth.user)
    modify (λ w. set_loading false (set_signed_in auth.user w))

  unfoldable pub logout : World → World
  unfolding clear_auth_state
  logout w = clear_auth_state browser w

  -- The user whose stored session is still good: `none` if the token is missing or has expired or
  -- the stored user does not parse.
  unfoldable pub stored_user : ℕ → World → Option (String × Json)
  stored_user now_ms w = elim (if_nonempty (get_item access_token_key w.storage)) [
    | none ↦ none
    | some token ↦ elim (if_nonempty (get_item user_key w.storage)) [
      | none ↦ none
      | some user_json ↦ elim (is_jwt_expired browser now_ms token) [
        | true ↦ none
        | false ↦ elim (browser.parse user_json) [ none ↦ none | some user ↦ some (token, user) ]
      ]
    ]
  ]

  module _ (server : Server) where
    -- `authApi.login`, `authApi.register` and `authApi.refresh`
    unfoldable pub auth_post : String → Json → M AuthResponse
    auth_post path form = do res ← api_post browser server path (some form); auth_of res

    unfoldable pub sign_in : String → Json → M (Unit {0})
    sign_in path form = do
      modify (set_loading true)
      catch (do res ← auth_post path form; adopt res)
          (λ _. do modify (set_loading false); throw thrown)

    unfoldable pub login : Json → M (Unit {0})
    login = sign_in "/auth/login"

    unfoldable pub register : Json → M (Unit {0})
    register = sign_in "/auth/register"

    -- The part of `restoreSession` behind the stored access token.
    unfoldable pub restore_by_refresh : Option String → M (Unit {0})
    restore_by_refresh none = modify (clear_auth_state browser)
    restore_by_refresh (some refresh_token) = do
      modify (set_loading true)
      catch (do res ← auth_post auth_refresh_path (refresh_body refresh_token); adopt res)
          (λ _. modify (clear_auth_state browser))

    unfoldable pub restore_session : ℕ → M (Unit {0})
    restore_session now_ms w = elim (stored_user now_ms w) [
      | some (token, user) ↦ (ok tt, set_signed_in (some user) (set_access_token (some token) w))
      | none ↦ restore_by_refresh (if_nonempty (get_item refresh_token_key w.storage)) w
    ]
