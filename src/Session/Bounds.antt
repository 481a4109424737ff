-- ===== src/Session/Bounds.antt =====
-- How often `request` calls the server.
use mc_service.Prelude.{◌+◌, ◌≤◌, String, ◌≡◌, Option, Bool, arith, length, ap}
use mc_service.Json.{Json}
use mc_service.Platform.{Platform}
use mc_service.Session.State.{
  Response, Result, World, Server, clear_stored_session, clear_auth_state,
}
use mc_service.Session.Client.{RequestOptions, finish, end_session, request}
use mc_service.Session.Exchange.{
  Exchange, Single, silent, replied, single, given_up, repeated, request-Exchange,
}

module _ (browser : Platform) where
  end_session-sent : (w : World) → (end_session browser w).sent ≡ w.sent
  unfolding end_session clear_stored_session clear_auth_state
  end_session-sent w = ground arith

  pub finish-sent :
      (path : String) (res : Response) (w : World) → (finish browser path res w).1.sent ≡ w.sent
  unfolding finish
  finish-sent path res w = ground (arith, end_session-sent w)

  module _ (server : Server) (path : String) (options : RequestOptions) where
    Single-length :
        (w : World) (r : Result (Option Json) × World)
        → Single browser server path options w r
        → length r.1.sent ≡ length w.sent + 1
    Single-length w r (silent e f) = rw f (omega arith)
    Single-length w r (replied res e f) = rw (f, finish-sent) (omega arith)

    Exchange-length :
        (w : World) (retry : Bool) (r : Result (Option Json) × World)
        → Exchange browser server path options w retry r
        → length r.1.sent ≤ length w.sent + 3
    Exchange-length w retry r (single _ s) = omega (arith, Single-length w r s)
    Exchange-length w retry r (given_up res token w' x _ f _ g k) =
        rw (k, finish-sent, f) (omega arith)
    Exchange-length w retry r (repeated res res' j auth token w' x _ f g m n s) =
        let e = ap length f in omega (arith, Single-length w' r s)

    -- Whatever the server answers, `request` calls it three times at most: the request, one refresh
    -- and the request once more; there is no loop of refreshes.
    pub request-length :
        (retry : Bool) (w : World)
        → length (request browser server path options retry w).1.sent ≤ length w.sent + 3
    request-length retry w =
        Exchange-length w retry _ (request-Exchange browser server path options w retry)
