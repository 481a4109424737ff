-- ===== src/Session/Handler.antt =====
-- A request never takes the unauthorized handler away.
use mc_service.Prelude.{String, ◌≡◌, Option, Bool, arith, ◌∙◌}
use mc_service.Json.{Json}
use mc_service.Platform.{Platform}
use mc_service.Session.State.{
  Response, Result, World, Server, clear_stored_session, clear_auth_state,
}
use mc_service.Session.Client.{RequestOptions, finish, request, end_session}
use mc_service.Session.Exchange.{
  Exchange, Single, silent, replied, single, given_up, repeated, request-Exchange,
}

module _ (browser : Platform) where
  end_session-handler : (w : World) → (end_session browser w).has_handler ≡ w.has_handler
  unfolding end_session clear_stored_session clear_auth_state
  end_session-handler w = ground arith

  finish-handler :
      (path : String) (res : Response) (w : World)
      → (finish browser path res w).1.has_handler ≡ w.has_handler
  unfolding finish
  finish-handler path res w = ground (arith, end_session-handler w)

  module _ (server : Server) (path : String) (options : RequestOptions) where
    Single-handler :
        (w : World) (r : Result (Option Json) × World)
        → Single browser server path options w r
        → r.1.has_handler ≡ w.has_handler
    Single-handler w r (silent e f) = rw f
    Single-handler w r (replied res e f) = rw (f, finish-handler)

    Exchange-handler :
        (w : World) (retry : Bool) (r : Result (Option Json) × World)
        → Exchange browser server path options w retry r
        → r.1.has_handler ≡ w.has_handler
    Exchange-handler w retry r (single _ s) = Single-handler w r s
    Exchange-handler w retry r (given_up res token w' x _ f _ g k) = rw (k, finish-handler) g
    Exchange-handler w retry r (repeated res res' j auth token w' x _ f g m n s) =
        Single-handler w' r s ∙ n

    pub request-handler :
        (retry : Bool) (w : World)
        → (request browser server path options retry w).1.has_handler ≡ w.has_handler
    request-handler retry w =
        Exchange-handler w retry _ (request-Exchange browser server path options w retry)
