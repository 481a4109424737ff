-- ===== src/Session/Ending.antt =====
-- A 401 ends the session, except at `login` and `register`.
use mc_service.Prelude.{String, ◌≡◌, Option, none, Bool, true, false, arith, ◌∙◌, ap, sym}
use mc_service.Json.{Json}
use mc_service.Platform.{Platform, Storage, get_item, remove_item}
use mc_service.Platform.Laws.{get_item-remove_item}
use mc_service.Session.State.{
  Response, Result, raise, api_error, World, Server, access_token_key, refresh_token_key, user_key,
  clear_stored_session, clear_auth_state, set_access_token,
}
use mc_service.Session.Client.{
  RequestOptions, finish, request, should_clear_session_on_unauthorized, end_session,
}
use mc_service.Session.Exchange.{
  Exchange, Single, silent, replied, single, given_up, repeated, request-Exchange,
}

-- Nobody is signed in, in memory and in storage.
pub record IsEnded (w : World) : Type 0 where
  pub token : w.access_token ≡ none
  pub stored_token : get_item access_token_key w.storage ≡ none
  pub stored_refresh : get_item refresh_token_key w.storage ≡ none
  pub stored_user : get_item user_key w.storage ≡ none
  pub user : w.user ≡ none
  pub signed_out : w.is_authenticated ≡ false
  pub idle : w.is_loading ≡ false

cleared : Storage → Storage
cleared s = remove_item user_key (remove_item refresh_token_key (remove_item access_token_key s))

cleared_items :
    (s : Storage)
    → (get_item access_token_key (cleared s) ≡ none)
      × (get_item refresh_token_key (cleared s) ≡ none)
      × (get_item user_key (cleared s) ≡ none)
unfolding cleared
cleared_items s = (simp get_item-remove_item, simp get_item-remove_item, simp get_item-remove_item)

module _ (browser : Platform) (window : browser.has_window ≡ true) where
  pub clear_auth_state-IsEnded : (w : World) → IsEnded (clear_auth_state browser w)
  unfolding clear_auth_state cleared
  clear_auth_state-IsEnded w = ground (arith, cleared_items w.storage)

  handled :
      (w : World)
      → w.has_handler ≡ true
      → end_session browser w
        ≡ clear_auth_state browser (clear_stored_session browser (set_access_token none w))
  unfolding end_session clear_stored_session
  handled w handler = ground arith

  end_session-IsEnded : (w : World) → w.has_handler ≡ true → IsEnded (end_session browser w)
  end_session-IsEnded w handler =
      let cleared_world = clear_stored_session browser (set_access_token none w) in
      rw (handled w handler) (clear_auth_state-IsEnded cleared_world)

  finish_401 :
      (path : String) (res : Response) (w : World) {b : Option Json}
      → should_clear_session_on_unauthorized path ≡ true
      → (finish browser path res w).0 ≡ raise (api_error 401 b)
      → (finish browser path res w).1 ≡ end_session browser w
  unfolding finish
  finish_401 path res w clears e = ground arith

  finish-IsEnded :
      (path : String) (res : Response) (w : World) {b : Option Json}
      → should_clear_session_on_unauthorized path ≡ true
      → w.has_handler ≡ true
      → (finish browser path res w).0 ≡ raise (api_error 401 b)
      → IsEnded (finish browser path res w).1
  finish-IsEnded path res w clears handler e =
      rw (finish_401 path res w clears e) (end_session-IsEnded w handler)

  module _ (server : Server) (path : String) (options : RequestOptions) where
    Single-IsEnded :
        (w : World) (r : Result (Option Json) × World) {b : Option Json}
        → should_clear_session_on_unauthorized path ≡ true
        → w.has_handler ≡ true
        → Single browser server path options w r
        → r.0 ≡ raise (api_error 401 b)
        → IsEnded r.1
    Single-IsEnded w r clears handler (silent e f) h = ground arith
    Single-IsEnded w r clears handler (replied res e f) h =
        rw f (finish-IsEnded path res _ clears handler (ap (λ x. x.0) (sym f) ∙ h))

    -- A request that fails with a 401, also after a refresh and a second try, leaves nobody signed
    -- in, in memory and in storage: at every path but those of `login` and `register`, with a
    -- window and with the handler of the auth store in place.
    pub request-IsEnded :
        (retry : Bool) (w : World) {b : Option Json}
        → should_clear_session_on_unauthorized path ≡ true
        → w.has_handler ≡ true
        → (request browser server path options retry w).0 ≡ raise (api_error 401 b)
        → IsEnded (request browser server path options retry w).1
    request-IsEnded retry w clears handler e =
        go (request-Exchange browser server path options w retry) e
      where
        go :
            {r : Result (Option Json) × World} {b : Option Json}
            → Exchange browser server path options w retry r
            → r.0 ≡ raise (api_error 401 b)
            → IsEnded r.1
        go {r} (single _ s) h = Single-IsEnded w r clears handler s h
        go {r} (given_up res token w' x _ f _ g k) h =
            rw k (finish-IsEnded path res w' clears (g ∙ handler) (ap (λ x. x.0) (sym k) ∙ h))
        go {r} (repeated res res' j auth token w' x _ f g m n s) h =
            Single-IsEnded w' r clears (n ∙ handler) s h
