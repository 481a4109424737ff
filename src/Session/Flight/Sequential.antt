-- ===== src/Session/Flight/Sequential.antt =====
-- The function `request` of Session.Client is a run of the calls that interleave: the one in which
-- every answer is that of the server, and no other call is made.
use mc_service.Prelude.{
  ℕ, ◌+◌, String, ◌≡◌, refl, subst, ◌∙◌, Option, none, some, [], ◌∷◌, Bool, true, false, ◌&&◌, ◌==◌,
  arith, Bool-cases, Option-cases, inl, inr,
}
use mc_service.Json.{Json}
use mc_service.Platform.{Platform}
use mc_service.Session.State.{
  Response, Result, ok, raise, thrown, World, Server, bind, handle, catch, return,
}
use mc_service.Session.Client.{
  RequestOptions, request_of, refresh_request, finish, can_attempt_refresh, if_nonempty,
  stored_refresh_token, request, request_again, resume_request, send, fetch, refresh_with,
  refresh_access_token,
}
use mc_service.Session.Flight.Defs.{
  Stage, asked, waiting, asked_again, ended, Net, Turn, open_call, logged, refresh_reply, refreshed,
  start_refresh, join_refresh, first_reply, second_reply, resume_call, resume_calls, end_refresh,
  land, ended_with,
}
use mc_service.Session.Flight.Reach.{Reach, call, reply, reply_again, landing, start, next}

caught :
    (r : Result Bool × World) → handle r (λ _. return false) ≡ (ok (refreshed r).0, (refreshed r).1)
caught (ok b, w) = refl
caught (raise x, w) = refl

module _ (browser : Platform) (server : Server) where
  -- The refresh as a function, and as a flight that lands with the server's reply.
  refresh_with-end_refresh :
      (token : String) (w : World)
      → catch (refresh_with browser server token) (λ _. return false) w ≡ (
          let landed =
            end_refresh browser
              (some token)
              (server (refresh_request token ∷ w.sent))
              (logged (refresh_request token) w) in
          (ok landed.0, landed.1))
  unfolding refresh_with fetch end_refresh refresh_reply
  refresh_with-end_refresh token w = elim (Option-cases (server (refresh_request token ∷ w.sent))) [
    | inl e ↦ rw (e, refresh_with, fetch, end_refresh) refl
    | inr (res, e) ↦
        rw (e, refresh_with, fetch, end_refresh)
          (caught (refresh_reply browser res (logged (refresh_request token) w)))
  ]

  -- The calls have come to the end of `request` alone.
  pub record Ends (w : World) (path : String) (options : RequestOptions)
      (r : Result (Option Json) × World) : Type 0 where
    pub net : Net
    pub reached : Reach browser w net
    pub landed : net.flight ≡ none
    pub world : net.world ≡ r.1
    pub calls : net.calls ≡ record { path = path; options = options; stage = ended r.0 } ∷ []

  abbrev one : String → RequestOptions → Stage → World → Option (Option String) → ℕ → Net
  one path options stage w flight landings = record {
    world = w;
    flight = flight;
    calls = record { path = path; options = options; stage = stage } ∷ [];
    landings = landings;
  }

  module _ (w : World) (path : String) (options : RequestOptions) where
    again-Ends :
        (v : World) (k : ℕ)
        → Reach browser w (
            one path options asked_again (logged (request_of path options v.access_token) v) none k)
        → Ends w path options (request_again browser server path options v)
    unfolding request_again send fetch second_reply
    again-Ends v k r =
        elim (Option-cases (server (request_of path options v.access_token ∷ v.sent))) [
          | inl e ↦
              rw (e, request_again, fetch)
                (record {
                  net = _;
                  reached = next r (reply_again [] _ [] none _ refl refl);
                  landed = refl;
                  world = refl;
                  calls = refl;
                })
          | inr (res, e) ↦
              rw (e, request_again, fetch)
                (record {
                  net = _;
                  reached = next r (reply_again [] _ [] (some res) _ refl refl);
                  landed = refl;
                  world = refl;
                  calls = refl;
                })
        ]

    -- Behind the landing.
    resumed-Ends :
        (b : Bool) (res : Response) (v : World) (k : ℕ)
        → Reach browser w (record (one path options (waiting res) v none k) {
          calls = (resume_calls browser b (one path options (waiting res) v none k).calls v).0;
          world = (resume_calls browser b (one path options (waiting res) v none k).calls v).1;
        })
        → Ends w path options (resume_request browser server path options res b v)
    unfolding resume_calls resume_call resume_request
    resumed-Ends true res v k r = again-Ends v k r
    resumed-Ends false res v k r = record {
      net = _;
      reached = r;
      landed = refl;
      world = refl;
      calls = refl;
    }

    -- Behind the start of the refresh.
    flying-Ends :
        (token : Option String) (res : Response) (v : World) (k : ℕ)
        → Reach browser w
            (one path options (waiting res) (start_refresh res token v).world (some token) k)
        → Ends w path options (
            bind
              (elim token [
                | none ↦ (ok false, v)
                | some t ↦ catch (refresh_with browser server t) (λ _. return false) v
              ])
              (resume_request browser server path options res))
    unfolding start_refresh land end_refresh
    flying-Ends none res v k r =
        resumed-Ends false res v (k + 1) (next r (landing none none _ refl))
    flying-Ends (some t) res v k r = rw (refresh_with-end_refresh t v) (
        resumed-Ends _ res _ (k + 1)
          (next r (landing (some t) (server (refresh_request t ∷ v.sent)) _ refl)))

    first-Reach :
        (res : Option Response) (t : Turn)
        → first_reply browser
            (record { path = path; options = options; stage = asked })
            res
            (logged (request_of path options w.access_token) w)
            none
          ≡ t
        → Reach browser w (one path options t.stage t.world t.flight 0)
    unfolding open_call
    first-Reach res t e =
        subst (λ (u : Turn). Reach browser w (one path options u.stage u.world u.flight 0)) e
          (next (next start (call path options _)) (reply [] _ [] res _ refl refl))

    started :
        (res : Response) (token : Option String) (v : World)
        → start_refresh res token v ≡ record {
          stage = waiting res;
          world = (start_refresh res token v).world;
          flight = some token;
        }
    unfolding start_refresh
    started res none v = refl
    started res (some t) v = refl

    -- The function `request` is one of the runs of the calls that interleave: from a world in which no
    -- call runs, its call ends with the same result, in the same world, and no refresh in flight.
    pub request-Ends : Ends w path options (request browser server path options true w)
    unfolding request send fetch first_reply join_refresh refresh_access_token
    request-Ends =
        let v = logged (request_of path options w.access_token) w in
        elim (Option-cases (server (request_of path options w.access_token ∷ w.sent))) [
          | inl e ↦
              rw (e, request, fetch)
                (record {
                  net = _;
                  reached =
                      first-Reach none
                        (record { stage = ended (raise thrown); world = v; flight = none }) refl;
                  landed = refl;
                  world = refl;
                  calls = refl;
                })
          | inr (res, e) ↦
              elim (Bool-cases (res.status == 401 && true && can_attempt_refresh path)) [
                | inr kept ↦
                    rw (e, request, fetch)
                      (rw kept (record {
                        net = _;
                        reached =
                            first-Reach (some res) (ended_with none (finish browser path res v))
                              (kept_turn res v kept);
                        landed = refl;
                        world = refl;
                        calls = refl;
                      }))
                | inl expired ↦
                    rw (e, request, fetch)
                      (rw expired (
                        flying-Ends (if_nonempty (stored_refresh_token browser v)) res v 0 (
                          first-Reach (some res) _ (
                            expired_turn res v expired
                            ∙ started res (if_nonempty (stored_refresh_token browser v)) v))))
              ]
        ]
      where
        kept_turn :
            (res : Response) (v : World)
            → (res.status == 401 && true && can_attempt_refresh path) ≡ false
            → first_reply browser
                (record { path = path; options = options; stage = asked })
                (some res)
                v
                none
              ≡ ended_with none (finish browser path res v)
        kept_turn res v kept =
            let kept' : (res.status == 401 && can_attempt_refresh path) ≡ false = ground arith in
            rw kept'

        expired_turn :
            (res : Response) (v : World)
            → (res.status == 401 && true && can_attempt_refresh path) ≡ true
            → first_reply browser
                (record { path = path; options = options; stage = asked })
                (some res)
                v
                none
              ≡ start_refresh res (if_nonempty (stored_refresh_token browser v)) v
        expired_turn res v expired =
            let expired' : (res.status == 401 && can_attempt_refresh path) ≡ true = ground arith in
            rw expired'
