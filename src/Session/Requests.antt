-- ===== src/Session/Requests.antt =====
-- What `request` sends to the server, and how it ends.
use mc_service.Prelude.{
  String, ◌≡◌, refl, inl, inr, none, some, List, ◌∷◌, Bool, true, false, arith, Bool-cases,
  Option-cases,
}
use mc_service.Json.{Json}
use mc_service.Platform.{Platform, Storage, get_item}
use mc_service.Session.State.{
  Request, Response, Result, Failure, ok, raise, World, Server, store, catch, return, bind,
  refresh_token_key,
}
use mc_service.Session.Client.{
  AuthResponse, as_auth, is_ok, refresh_request, persist_auth_response, fetch, json_of,
  refresh_with, renew, refresh_access_token, if_nonempty, stored_refresh_token,
}
use mc_service.Session.Stored.{HasNoToken, IsUnstored, persist_fails, no_token, has_token}

-- The refresh that is the latest request of the log gives no new session: there is no reply, it is no
-- success, it has no JSON value or one without members, or the storage does not take the session.
pub data IsRefused (browser : Platform) (server : Server) (storage : Storage) (log : List Request)
    : Type 0 where
  no_reply : server log ≡ none → IsRefused browser server storage log
  no_success :
      (res : Response)
      → server log ≡ some res
      → is_ok res ≡ false
      → IsRefused browser server storage log
  no_json :
      (res : Response)
      → server log ≡ some res
      → res.content ≡ none
      → IsRefused browser server storage log
  no_members :
      (res : Response) (j : Json)
      → server log ≡ some res
      → res.content ≡ some j
      → as_auth j ≡ none
      → IsRefused browser server storage log
  not_stored :
      (res : Response) (j : Json) (auth : AuthResponse)
      → server log ≡ some res
      → res.content ≡ some j
      → as_auth j ≡ some auth
      → IsUnstored browser auth storage
      → IsRefused browser server storage log

-- The results of `refreshAccessToken`: nothing sent, refused, or a new token.
module _ (browser : Platform) (server : Server) (w : World) where
  pub data Refreshed (r : Result Bool × World) : Type 0 where
    unsent : HasNoToken browser w.storage → r.0 ≡ ok false → r.1 ≡ w → Refreshed r
    refused :
        (token : String)
        → get_item refresh_token_key w.storage ≡ some token
        → IsRefused browser server w.storage (refresh_request token ∷ w.sent)
        → r.0 ≡ ok false
        → r.1.sent ≡ refresh_request token ∷ w.sent
        → r.1.has_handler ≡ w.has_handler
        → Refreshed r
    granted :
        (token : String) (res : Response) (j : Json) (auth : AuthResponse)
        → get_item refresh_token_key w.storage ≡ some token
        → r.0 ≡ ok true
        → r.1.sent ≡ refresh_request token ∷ w.sent
        → server (refresh_request token ∷ w.sent) ≡ some res
        → is_ok res ≡ true
        → res.content ≡ some j
        → as_auth j ≡ some auth
        → r.1.access_token ≡ auth.access_token
        → r.1.has_handler ≡ w.has_handler
        → Refreshed r

module _ (browser : Platform) where
  store-keeps :
      (key value : String) (w : World)
      → ((store browser key value w).1.sent ≡ w.sent)
        × ((store browser key value w).1.access_token ≡ w.access_token)
        × ((store browser key value w).1.has_handler ≡ w.has_handler)
  unfolding store
  store-keeps key value w = ground arith

  pub persist-keeps :
      (auth : AuthResponse) (w : World)
      → ((persist_auth_response browser auth w).1.sent ≡ w.sent)
        × ((persist_auth_response browser auth w).1.access_token ≡ w.access_token)
        × ((persist_auth_response browser auth w).1.has_handler ≡ w.has_handler)
  unfolding persist_auth_response
  persist-keeps auth w = ground arith

  module _ (server : Server) (w : World) (token : String)
      (stored : get_item refresh_token_key w.storage ≡ some token) where
    -- The end of the refresh, behind the tokens that were stored as far as the storage took them.
    stored-Refreshed :
        (res : Response) (j : Json) (auth : AuthResponse) (r : Result (Unit {0}) × World)
        → server (refresh_request token ∷ w.sent) ≡ some res
        → is_ok res ≡ true
        → res.content ≡ some j
        → as_auth j ≡ some auth
        → r.1.sent ≡ refresh_request token ∷ w.sent
        → r.1.access_token ≡ auth.access_token
        → r.1.has_handler ≡ w.has_handler
        → ((x : Failure) → r.0 ≡ raise x → IsUnstored browser auth w.storage)
        → Refreshed browser server w (catch (λ _. bind r (λ _. return true)) (λ _. return false) w)
    stored-Refreshed res j auth (ok _, w') a b c d e f g h =
        granted token res j auth stored refl e a b c d f g
    stored-Refreshed res j auth (raise x, w') a b c d e f g h =
        refused token stored (not_stored res j auth a c d (h x refl)) refl e g

    refresh_with-Refreshed :
        Refreshed browser server w (catch (refresh_with browser server token) (λ _. return false) w)
    unfolding refresh_with fetch renew
    refresh_with-Refreshed = elim (Option-cases (server (refresh_request token ∷ w.sent))) [
      | inl e ↦ rw (e, refresh_with, fetch) (refused token stored (no_reply e) refl refl refl)
      | inr (res, e) ↦ elim (Bool-cases (is_ok res)) [
        | inr bad ↦
            rw (e, refresh_with, fetch)
              (rw bad (refused token stored (no_success res e bad) refl refl refl))
        | inl good ↦ elim (Option-cases res.content) [
          | inl c ↦
              rw (e, refresh_with, fetch)
                (rw (good, c, json_of) (refused token stored (no_json res e c) refl refl refl))
          | inr (j, c) ↦ elim (Option-cases (as_auth j)) [
            | inl a ↦
                rw (e, refresh_with, fetch)
                  (rw (good, c, json_of, a, renew)
                    (refused token stored (no_members res j e c a) refl refl refl))
            | inr (auth, a) ↦
                rw (e, refresh_with, fetch)
                  (rw (good, c, json_of, a)
                    (let w' = record w {
                      sent = refresh_request token ∷ w.sent;
                      access_token = auth.access_token;
                    } in
                      let (sent, tok, handler) = persist-keeps auth w' in
                      stored-Refreshed res j auth (persist_auth_response browser auth w') e good c a
                        sent tok handler (persist_fails browser auth w')))
          ]
        ]
      ]
    ]

  module _ (server : Server) where
    pub refresh_access_token-Refreshed :
        (w : World) → Refreshed browser server w (refresh_access_token browser server w)
    unfolding refresh_access_token
    refresh_access_token-Refreshed w =
        elim (Option-cases (if_nonempty (stored_refresh_token browser w))) [
          | inl e ↦ rw (e, refresh_access_token) (unsent (no_token browser w e) refl refl)
          | inr (token, e) ↦
              rw (e, refresh_access_token)
                (refresh_with-Refreshed server w token (has_token browser w token e))
        ]
