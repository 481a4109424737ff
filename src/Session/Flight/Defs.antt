-- ===== src/Session/Flight/Defs.antt =====
-- The calls of `request` that have not ended, cut at each `await` of a `fetch` or of the refresh. A
-- reply arrives with its body, so that the `await` of `res.json()` is no cut: what runs behind an
-- answer runs to the next cut before another answer is taken.
use mc_service.Prelude.{
  ℕ, ◌+◌, String, Option, none, some, List, [], ◌∷◌, ◌++◌, Bool, true, false, not, ◌&&◌, ◌==◌,
  if◌then◌else◌,
}
use mc_service.Json.{Json}
use mc_service.Platform.{Platform}
use mc_service.Session.State.{Request, Response, Result, ok, raise, thrown, World, M, return, ◌>>=◌}
use mc_service.Session.Client.{
  RequestOptions, request_of, refresh_request, finish, renew, as_auth, json_of, is_ok,
  can_attempt_refresh, if_nonempty, stored_refresh_token,
}

-- Where a call stands: before its first reply, behind a 401 until the refresh has ended, before its
-- second reply, or at its end.
pub data Stage : Type 0 where
  asked : Stage
  waiting : Response → Stage
  asked_again : Stage
  ended : Result (Option Json) → Stage

pub record Call : Type 0 where
  pub path : String
  pub options : RequestOptions
  pub stage : Stage

-- `flight` is `refreshInFlight`: none is null, else the refresh token that was sent, if there was one.
-- `landings` counts the refreshes that have ended.
pub record Net : Type 0 where
  pub world : World
  pub flight : Option (Option String)
  pub calls : List Call
  pub landings : ℕ

abbrev pub logged : Request → World → World
logged req w = record w { sent = req ∷ w.sent }

abbrev pub at_stage : Stage → Call → Call
at_stage stage call = record call { stage = stage }

-- The start of `request`, up to its `fetch`.
unfoldable pub open_call : String → RequestOptions → Net → Net
open_call path options n = record n {
  world = logged (request_of path options n.world.access_token) n.world;
  calls = record { path = path; options = options; stage = asked } ∷ n.calls;
}

-- A call's stage behind an answer, with the world and the flight.
pub record Turn : Type 0 where
  pub stage : Stage
  pub world : World
  pub flight : Option (Option String)

abbrev pub ended_with : Option (Option String) → Result (Option Json) × World → Turn
ended_with flight (r, w) = record { stage = ended r; world = w; flight = flight }

-- The call whose turn it was is the last of the list: calls that wait stand in the order of their
-- awaits.
abbrev pub turned : List Call → Call → List Call → Turn → Net → Net
turned before call after t n = record n {
  world = t.world;
  flight = t.flight;
  calls = before ++ (after ++ (at_stage t.stage call ∷ []));
}

-- A refresh that is started, where the storage holds a refresh token with its request.
unfoldable pub start_refresh : Response → Option String → World → Turn
start_refresh res none w = record { stage = waiting res; world = w; flight = some none }
start_refresh res (some token) w = record {
  stage = waiting res;
  world = logged (refresh_request token) w;
  flight = some (some token);
}

abbrev pub refreshed : Result Bool × World → Bool × World
refreshed (ok b, w) = (b, w)
refreshed (raise e, w) = (false, w)

module _ (browser : Platform) where
  -- `refreshAccessToken` up to its `await`: a refresh in flight is joined.
  unfoldable pub join_refresh : Response → Option (Option String) → World → Turn
  unfolding start_refresh
  join_refresh res (some token) w = record { stage = waiting res; world = w; flight = some token }
  join_refresh res none w = start_refresh res (if_nonempty (stored_refresh_token browser w)) w

  -- `request` behind its first `fetch`; `none` is a failure of the network.
  unfoldable pub first_reply : Call → Option Response → World → Option (Option String) → Turn
  first_reply call none w flight = record {
    stage = ended (raise thrown);
    world = w;
    flight = flight;
  }
  first_reply call (some res) w flight =
      if res.status == 401 && can_attempt_refresh call.path
      then join_refresh res flight w
      else ended_with flight (finish browser call.path res w)

  -- `request(path, options, false)` behind its `fetch`.
  unfoldable pub second_reply : Call → Option Response → World → Option (Option String) → Turn
  second_reply call none w flight = record {
    stage = ended (raise thrown);
    world = w;
    flight = flight;
  }
  second_reply call (some res) w flight = ended_with flight (finish browser call.path res w)

  -- The refresh behind its `fetch`: whether there is a new token. An exception counts as none.
  unfoldable pub refresh_reply : Response → M Bool
  refresh_reply res =
      if not (is_ok res) then return false else (do j ← json_of res; renew browser (as_auth j))

  unfoldable pub end_refresh : Option String → Option Response → World → Bool × World
  end_refresh none reply w = (false, w)
  end_refresh (some token) none w = (false, w)
  end_refresh (some token) (some res) w = refreshed (refresh_reply res w)

  -- A call that waited for the refresh goes on: it asks again, or ends with its first reply,
  -- whose body is there.
  unfoldable pub resume_call : Bool → Call → Stage → World → Call × World
  resume_call true call (waiting res) w =
      (at_stage asked_again call, logged (request_of call.path call.options w.access_token) w)
  resume_call false call (waiting res) w =
      let (r, w') = finish browser call.path res w in (at_stage (ended r) call, w')
  resume_call b call _ w = (call, w)

  -- All calls that wait, one after another, in the order of their awaits.
  unfoldable pub resume_calls : Bool → List Call → World → List Call × World
  unfolding resume_call
  resume_calls b [] w = ([], w)
  resume_calls b (call ∷ calls) w =
      let (call', w') = resume_call b call call.stage w in
      let (calls', w'') = resume_calls b calls w' in (call' ∷ calls', w'')

  -- The end of the flight with `token`, and what runs behind it.
  unfoldable pub land : Option String → Option Response → Net → Net
  land token reply n =
      let (b, w) = end_refresh token reply n.world in
      let (calls, w') = resume_calls b n.calls w in
      record { world = w'; flight = none; calls = calls; landings = n.landings + 1 }
