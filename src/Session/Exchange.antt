-- ===== src/Session/Exchange.antt =====
-- The exchange of `request` with the server: which requests it sends, and which reply it ends with.
use mc_service.Prelude.{
  String, ◌≡◌, ◌≢◌, ◌⊎◌, refl, inl, inr, Option, none, some, List, ◌∷◌, Bool, true, false, ◌&&◌,
  arith, ◌==◌, Bool-cases, Option-cases, ap,
}
use mc_service.Json.{Json}
use mc_service.Platform.{Platform, get_item}
use mc_service.Session.State.{
  Request, Response, Result, ok, raise, thrown, World, Server, bind, refresh_token_key,
}
use mc_service.Session.Client.{
  RequestOptions, AuthResponse, as_auth, is_ok, refresh_request, request_of, fetch, finish, send,
  request_again, resume_request, request, can_attempt_refresh,
}
use mc_service.Session.Stored.{HasNoToken}
use mc_service.Session.Requests.{
  IsRefused, Refreshed, unsent, refused, granted, refresh_access_token-Refreshed,
}

-- The server's reply to a sign-in or a refresh: a success that holds a session.
pub record IsGranted (server : Server) (log : List Request) (res : Response) (j : Json)
    (auth : AuthResponse) : Type 0 where
  pub reply : server log ≡ some res
  pub accepted : is_ok res ≡ true
  pub content : res.content ≡ some j
  pub session : as_auth j ≡ some auth

module _ (browser : Platform) (server : Server) (path : String) (options : RequestOptions) where
  -- One exchange without a refresh: no reply, or one reply.
  pub data Single (w : World) (r : Result (Option Json) × World) : Type 0 where
    silent :
        server (request_of path options w.access_token ∷ w.sent) ≡ none
        → r ≡ (raise thrown, record w { sent = request_of path options w.access_token ∷ w.sent })
        → Single w r
    replied :
        (res : Response)
        → server (request_of path options w.access_token ∷ w.sent) ≡ some res
        → r
          ≡ finish browser path res
              (record w { sent = request_of path options w.access_token ∷ w.sent })
        → Single w r

  -- The first reply is a 401 to a request that may be repeated.
  pub record IsExpired (w : World) (retry : Bool) (res : Response) : Type 0 where
    pub reply : server (request_of path options w.access_token ∷ w.sent) ≡ some res
    pub unauthorized : res.status ≡ 401
    pub retried : retry ≡ true
    pub allowed : can_attempt_refresh path ≡ true

  -- `request` does not repeat itself: there is no reply, or one that is not repeated, or there is no
  -- refresh token.
  pub data IsFinal (w : World) (retry : Bool) : Type 0 where
    no_reply : server (request_of path options w.access_token ∷ w.sent) ≡ none → IsFinal w retry
    kept :
        (res : Response)
        → server (request_of path options w.access_token ∷ w.sent) ≡ some res
        → (res.status ≢ 401) ⊎ (retry ≡ false) ⊎ (can_attempt_refresh path ≡ false)
        → IsFinal w retry
    no_token : HasNoToken browser w.storage → IsFinal w retry

  -- The exchange of `request`. `sent` below is the log behind the first request.
  pub data Exchange (w : World) (retry : Bool) (r : Result (Option Json) × World) : Type 0 where
    single : IsFinal w retry → Single w r → Exchange w retry r
    given_up :
        (res : Response) (token : String) (w' : World)
        → IsExpired w retry res
        → get_item refresh_token_key w.storage ≡ some token
        → w'.sent ≡ refresh_request token ∷ request_of path options w.access_token ∷ w.sent
        → IsRefused browser server w.storage
            (refresh_request token ∷ request_of path options w.access_token ∷ w.sent)
        → w'.has_handler ≡ w.has_handler
        → r ≡ finish browser path res w'
        → Exchange w retry r
    repeated :
        (res res' : Response) (j : Json) (auth : AuthResponse) (token : String) (w' : World)
        → IsExpired w retry res
        → get_item refresh_token_key w.storage ≡ some token
        → w'.sent ≡ refresh_request token ∷ request_of path options w.access_token ∷ w.sent
        → IsGranted server
            (refresh_request token ∷ request_of path options w.access_token ∷ w.sent)
            res'
            j
            auth
        → w'.access_token ≡ auth.access_token
        → w'.has_handler ≡ w.has_handler
        → Single w' r
        → Exchange w retry r

  request_again-Single : (w : World) → Single w (request_again browser server path options w)
  unfolding request_again send fetch
  request_again-Single w =
      elim (Option-cases (server (request_of path options w.access_token ∷ w.sent))) [
        | inl e ↦ silent e (rw (e, request_again, fetch))
        | inr (res, e) ↦ replied res e (rw (e, request_again, fetch))
      ]

  -- `request` behind its refresh.
  refreshed-Exchange :
      (w : World) (retry : Bool) (res : Response) (r : Result Bool × World)
      → IsExpired w retry res
      → Refreshed browser server
          (record w { sent = request_of path options w.access_token ∷ w.sent })
          r
      → Exchange w retry (bind r (resume_request browser server path options res))
  unfolding resume_request
  refreshed-Exchange w retry res (ok false, w') x (unsent n e f) =
      single (no_token n) (replied res x.reply (ap (finish browser path res) f))
  refreshed-Exchange w retry res (ok false, w') x (refused token s n e f g) =
      given_up res token w' x s f n g refl
  refreshed-Exchange w retry res (ok false, w') x (granted _ _ _ _ _ e _ _ _ _ _ _ _) = cc
  refreshed-Exchange w retry res (ok true, w') x (granted token res' j auth s e f g h k l m n) =
      repeated res res' j auth token w' x s f
        (record { reply = g; accepted = h; content = k; session = l }) m n (request_again-Single w')
  refreshed-Exchange w retry res (ok true, w') x (unsent _ e f) = cc
  refreshed-Exchange w retry res (ok true, w') x (refused token _ _ e f _) = cc
  refreshed-Exchange w retry res (raise b, w') x (unsent _ e f) = cc
  refreshed-Exchange w retry res (raise b, w') x (refused token _ _ e f _) = cc
  refreshed-Exchange w retry res (raise b, w') x (granted _ _ _ _ _ e _ _ _ _ _ _ _) = cc

  pub request-Exchange :
      (w : World) (retry : Bool) → Exchange w retry (request browser server path options retry w)
  unfolding request send fetch
  request-Exchange w retry =
      elim (Option-cases (server (request_of path options w.access_token ∷ w.sent))) [
        | inl e ↦ single (no_reply e) (silent e (rw (e, request, fetch)))
        | inr (res, e) ↦
            elim (Bool-cases (res.status == 401 && retry && can_attempt_refresh path)) [
              | inr keep ↦
                  single (kept res e (ground arith))
                    (replied res e (rw (e, request, fetch) (rw keep)))
              | inl again ↦
                  rw (e, request, fetch)
                    (rw again (
                      refreshed-Exchange w retry res _
                        (record {
                          reply = e;
                          unauthorized = ground arith;
                          retried = ground arith;
                          allowed = ground arith;
                        })
                        (refresh_access_token-Refreshed browser server
                          (record w { sent = request_of path options w.access_token ∷ w.sent }))))
            ]
      ]
