-- ===== src/Tests/Flight.antt =====
-- Two calls whose tokens are stale share one refresh.
use mc_service.Prelude.{◌≡◌, refl, String, none, some, [], ◌∷◌, true, length}
use mc_service.Json.{str, obj, field, end, get}
use mc_service.Platform.{Platform, get_item, set_item}
use mc_service.Session.State.{Response, World, Server, store}
use mc_service.Session.Client.{
  RequestOptions, can_attempt_refresh, as_auth, renew, persist_auth_response,
}
use mc_service.Session.Auth.{initial}
use mc_service.Session.Flight.Defs.{
  asked, Call, Net, open_call, turned, first_reply, join_refresh, start_refresh, land, end_refresh,
  refresh_reply, resume_calls, resume_call,
}
use mc_service.Session.Flight.Reach.{Reach, start, next, call, reply, landing}
use mc_service.Session.Flight.Cost.{IsShared, Reach-IsShared}
use mc_service.Session.Flight.Sequential.{Ends, request-Ends}
use mc_service.Session.Client.{request}

abbrev browser : Platform
browser = record {
  has_window = true;
  accepts = λ _ _ _. true;
  parse = λ _. none;
  stringify = λ _. "";
  atob = λ _. none;
  to_number = λ _. none;
}

abbrev options : RequestOptions
options = record { method = "GET"; content = none; params = [] }

abbrev stale : World
stale = initial (some "old") (("access_token", "old") ∷ ("refresh_token", "r1") ∷ [])

abbrev refused : Response
refused = record { status = 401; content = none }

abbrev granted : Response
granted = record {
  status = 200;
  content = some (obj (field "access_token" (str "new") (field "refresh_token" (str "r2") end)));
}

abbrev empty : Net
empty = record { world = stale; flight = none; calls = []; landings = 0 }

abbrev asking : String → Call
asking path = record { path = path; options = options; stage = asked }

abbrev both_asked : Net
both_asked = open_call "/b" options (open_call "/a" options empty)

abbrev one_waits : Net
one_waits =
    turned [] (asking "/b") (asking "/a" ∷ [])
      (first_reply browser (asking "/b") (some refused) both_asked.world both_asked.flight)
      both_asked

abbrev waiting_b : Call
waiting_b = record {
  path = "/b";
  options = options;
  stage =
      (first_reply browser (asking "/b") (some refused) both_asked.world both_asked.flight).stage;
}

abbrev both_wait : Net
both_wait =
    turned [] (asking "/a") (waiting_b ∷ [])
      (first_reply browser (asking "/a") (some refused) one_waits.world one_waits.flight) one_waits

abbrev landed : Net
landed = land browser (some "r1") (some granted) both_wait

run_of_two : Reach browser stale landed
unfolding open_call first_reply join_refresh start_refresh can_attempt_refresh get_item initial
run_of_two =
    next
      (next
        (next
          (next (next start (call "/a" options empty))
            (call "/b" options (open_call "/a" options empty)))
          (reply [] (asking "/b") (asking "/a" ∷ []) (some refused) both_asked refl refl))
        (reply [] (asking "/a") (waiting_b ∷ []) (some refused) one_waits refl refl))
      (landing (some "r1") (some granted) both_wait refl)

-- Two requests, one refresh, and two requests again.
five_sent : length landed.world.sent ≡ 5
unfolding open_call first_reply join_refresh start_refresh land end_refresh refresh_reply
    resume_calls resume_call can_attempt_refresh get_item initial renew as_auth
    persist_auth_response store get set_item
five_sent = refl

Reach-IsShared_example : IsShared stale landed
Reach-IsShared_example = Reach-IsShared browser run_of_two

abbrev answering : Server
answering [] = none
answering (req ∷ []) = some refused
answering (req ∷ _ ∷ []) = some granted
answering _ = some (record { status = 200; content = some (str "done") })

request-Ends_example :
    Ends browser answering stale "/a" options (request browser answering "/a" options true stale)
request-Ends_example = request-Ends browser answering stale "/a" options
