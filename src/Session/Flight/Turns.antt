-- ===== src/Session/Flight/Turns.antt =====
-- What one call's turn sends, and what it leaves of the flight.
use mc_service.Prelude.{
  ℕ, ◌+◌, ◌≤◌, length, ap, String, ◌≡◌, ◌⊎◌, refl, Option, none, some, List, [], ◌∷◌, ◌++◌, ◌&&◌,
  ◌==◌, arith, Bool-cases, inl, inr,
}
use mc_service.Platform.{Platform}
use mc_service.Session.State.{Response, World}
use mc_service.Session.Client.{finish, can_attempt_refresh, if_nonempty, stored_refresh_token}
use mc_service.Session.Bounds.{finish-sent}
use mc_service.Session.Flight.Defs.{
  Stage, asked, waiting, asked_again, ended, Call, Turn, start_refresh, join_refresh, first_reply,
  second_reply, ended_with,
}
use mc_service.Session.Flight.Reach.{IsServed}

-- The refresh that has not ended, and the requests that a call has sent at most.
abbrev pub pending : Option (Option String) → ℕ
pending none = 0
pending (some token) = 1

abbrev pub cost : Stage → ℕ
cost asked = 1
cost (waiting res) = 1
cost asked_again = 2
cost (ended r) = 2

abbrev pub total : List Call → ℕ
total [] = 0
total (c ∷ cs) = cost c.stage + total cs

total_last : (cs : List Call) (c : Call) → total (cs ++ (c ∷ [])) ≡ total cs + cost c.stage
total_last [] c = omega arith
total_last (b ∷ cs) c = omega (arith, total_last cs c)

pub total-turned :
    (before : List Call) (c c' : Call) (after : List Call)
    → cost c.stage ≤ cost c'.stage
    → total (before ++ (c ∷ after)) ≤ total (before ++ (after ++ (c' ∷ [])))
total-turned [] c c' after le = omega (arith, total_last after c')
total-turned (b ∷ before) c c' after le = omega (arith, total-turned before c c' after le)

-- A turn leaves a flight, or none as it found none and does not wait; it sends no more than a refresh,
-- where it starts one.
pub record IsTurn (w : World) (flight : Option (Option String)) (from : Stage) (t : Turn)
    : Type 0 where
  pub served :
      ((token : Option String) × (t.flight ≡ some token))
      ⊎ ((t.flight ≡ flight) × IsServed none t.stage)
  pub sent : length t.world.sent + pending flight ≤ length w.sent + pending t.flight
  pub costs : cost from ≤ cost t.stage

start_refresh-IsTurn :
    (res : Response) (token : Option String) (w : World)
    → IsTurn w none asked (start_refresh res token w)
unfolding start_refresh
start_refresh-IsTurn res none w = record {
  served = inl (none, refl);
  sent = omega arith;
  costs = omega arith;
}
start_refresh-IsTurn res (some token) w = record {
  served = inl (some token, refl);
  sent = omega arith;
  costs = omega arith;
}

module _ (browser : Platform) where
  ended_with-IsTurn :
      (path : String) (res : Response) (w : World) (flight : Option (Option String)) (from : Stage)
      → cost from ≤ 2
      → IsTurn w flight from (ended_with flight (finish browser path res w))
  ended_with-IsTurn path res w flight from le = record {
    served = inr (refl, tt);
    sent = omega (arith, ap length (finish-sent browser path res w));
    costs = le;
  }

  join_refresh-IsTurn :
      (res : Response) (flight : Option (Option String)) (w : World)
      → IsTurn w flight asked (join_refresh browser res flight w)
  unfolding join_refresh
  join_refresh-IsTurn res none w =
      start_refresh-IsTurn res (if_nonempty (stored_refresh_token browser w)) w
  join_refresh-IsTurn res (some token) w = record {
    served = inl (token, refl);
    sent = omega arith;
    costs = omega arith;
  }

  pub first_reply-IsTurn :
      (c : Call) (res : Option Response) (w : World) (flight : Option (Option String))
      → IsTurn w flight asked (first_reply browser c res w flight)
  unfolding first_reply
  first_reply-IsTurn c none w flight = record {
    served = inr (refl, tt);
    sent = omega arith;
    costs = omega arith;
  }
  first_reply-IsTurn c (some res) w flight =
      elim (Bool-cases (res.status == 401 && can_attempt_refresh c.path)) [
        | inl expired ↦ rw expired (join_refresh-IsTurn res flight w)
        | inr kept ↦ rw kept (ended_with-IsTurn c.path res w flight asked (omega arith))
      ]

  pub second_reply-IsTurn :
      (c : Call) (res : Option Response) (w : World) (flight : Option (Option String))
      → IsTurn w flight asked_again (second_reply browser c res w flight)
  unfolding second_reply
  second_reply-IsTurn c none w flight = record {
    served = inr (refl, tt);
    sent = omega arith;
    costs = omega arith;
  }
  second_reply-IsTurn c (some res) w flight =
      ended_with-IsTurn c.path res w flight asked_again (omega arith)
