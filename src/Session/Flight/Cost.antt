-- ===== src/Session/Flight/Cost.antt =====
-- What the calls cost: two requests each at most, and one for each refresh, of which one at most has
-- not ended.
use mc_service.Prelude.{
  ◌+◌, ◌≤◌, length, ap, subst, sym, ◌∙◌, String, ◌≡◌, ◌⊎◌, refl, Option, none, some, List, [], ◌∷◌,
  ◌++◌, Bool, true, false, arith, All, Bool-cases, Option-cases, inl, inr,
}
use mc_service.Platform.{Platform}
use mc_service.Session.State.{Response, Result, ok, raise, World, set_access_token, bind}
use mc_service.Session.Client.{AuthResponse, renew, as_auth, is_ok, persist_auth_response}
use mc_service.Session.Bounds.{finish-sent}
use mc_service.Session.Requests.{persist-keeps}
use mc_service.Session.Flight.Defs.{
  Stage, asked, waiting, asked_again, ended, Call, Net, Turn, open_call, at_stage, turned,
  refresh_reply, refreshed, resume_call, resume_calls, end_refresh, land,
}
use mc_service.Session.Flight.Reach.{
  Step, Reach, call, reply, reply_again, landing, start, next, IsServed, AreServed, AllServed-some,
  IsServed-weaken, All-turned,
}
use mc_service.Session.Flight.Turns.{
  pending, cost, total, total-turned, IsTurn, first_reply-IsTurn, second_reply-IsTurn,
}

-- No call waits without a refresh in flight. The requests that were sent are two for each call at
-- most, and one for each refresh.
pub record IsShared (w : World) (n : Net) : Type 0 where
  pub served : AreServed n
  pub sent : length n.world.sent ≤ length w.sent + total n.calls + n.landings + pending n.flight

turned-IsShared :
    (w : World) (before : List Call) (c : Call) (after : List Call) (t : Turn) (n : Net)
    (from : Stage)
    → n.calls ≡ before ++ (c ∷ after)
    → c.stage ≡ from
    → IsTurn n.world n.flight from t
    → IsShared w n
    → IsShared w (turned before c after t n)
turned-IsShared w before c after t n from e at turn h = record {
  served = served_in t turn.served;
  sent =
      let same = ap total e in
      omega (
        arith,
        turn.sent,
        h.sent,
        total-turned before c (at_stage t.stage c) after
            (subst (λ s. cost s ≤ cost t.stage) (sym at) turn.costs),
      );
}
  where
    served_in :
        (t : Turn)
        → ((token : Option String) × (t.flight ≡ some token))
          ⊎ ((t.flight ≡ n.flight) × IsServed none t.stage)
        → All (λ c. IsServed t.flight c.stage) (before ++ (after ++ (at_stage t.stage c ∷ [])))
    served_in t (inl (token, f)) =
        rw f (AllServed-some token (before ++ (after ++ (at_stage t.stage c ∷ []))))
    served_in t (inr (f, k)) = rw f (
        All-turned (λ c. IsServed n.flight c.stage) before c (at_stage t.stage c) after
          (rw e at h.served) (IsServed-weaken n.flight t.stage k))

refreshed-sent : (r : Result Bool × World) → (refreshed r).1.sent ≡ r.1.sent
refreshed-sent (ok b, w) = refl
refreshed-sent (raise e, w) = refl

module _ (browser : Platform) where
  renew-sent : (auth : Option AuthResponse) (w : World) → (renew browser auth w).1.sent ≡ w.sent
  unfolding renew
  renew-sent none w = refl
  renew-sent (some auth) w =
      bound (persist_auth_response browser auth (set_access_token auth.access_token w))
        (persist-keeps browser auth (set_access_token auth.access_token w)).0
    where
      bound :
          (r : Result (Unit {0}) × World)
          → r.1.sent ≡ w.sent
          → (bind r (λ _ w. (ok true, w))).1.sent ≡ w.sent
      bound (ok a, w') e = e
      bound (raise x, w') e = e

  refresh_reply-sent : (res : Response) (w : World) → (refresh_reply browser res w).1.sent ≡ w.sent
  unfolding refresh_reply
  refresh_reply-sent res w = elim (Bool-cases (is_ok res)) [
    | inr bad ↦ rw bad refl
    | inl good ↦ rw good (elim (Option-cases res.content) [
      | inl e ↦ rw e refl
      | inr (j, e) ↦ rw e (renew-sent (as_auth j) w)
    ])
  ]

  end_refresh-sent :
      (token : Option String) (res : Option Response) (w : World)
      → (end_refresh browser token res w).1.sent ≡ w.sent
  unfolding end_refresh
  end_refresh-sent none res w = refl
  end_refresh-sent (some token) none w = refl
  end_refresh-sent (some token) (some res) w =
      refreshed-sent (refresh_reply browser res w) ∙ refresh_reply-sent res w

  -- A call that goes on does not wait, and pays for what it sends.
  resume_call-pays :
      (b : Bool) (c : Call) (s : Stage) (w : World)
      → c.stage ≡ s
      → IsServed none (resume_call browser b c s w).0.stage
        × (length (resume_call browser b c s w).1.sent + cost s
            ≤ length w.sent + cost (resume_call browser b c s w).0.stage)
  unfolding resume_call
  resume_call-pays true c (waiting res) w e = (tt, omega arith)
  resume_call-pays false c (waiting res) w e =
      (tt, omega (arith, ap length (finish-sent browser c.path res w)))
  resume_call-pays true c asked w e = (subst (IsServed none) (sym e) tt, omega (arith, ap cost e))
  resume_call-pays true c asked_again w e =
      (subst (IsServed none) (sym e) tt, omega (arith, ap cost e))
  resume_call-pays true c (ended r) w e =
      (subst (IsServed none) (sym e) tt, omega (arith, ap cost e))
  resume_call-pays false c asked w e = (subst (IsServed none) (sym e) tt, omega (arith, ap cost e))
  resume_call-pays false c asked_again w e =
      (subst (IsServed none) (sym e) tt, omega (arith, ap cost e))
  resume_call-pays false c (ended r) w e =
      (subst (IsServed none) (sym e) tt, omega (arith, ap cost e))

  resume_calls-pays :
      (b : Bool) (cs : List Call) (w : World)
      → All (λ c. IsServed none c.stage) (resume_calls browser b cs w).0
        × (length (resume_calls browser b cs w).1.sent + total cs
            ≤ length w.sent + total (resume_calls browser b cs w).0)
  unfolding resume_calls
  resume_calls-pays b [] w = (tt, omega arith)
  resume_calls-pays b (c ∷ cs) w =
      let first = resume_call-pays b c c.stage w refl in
      let rest = resume_calls-pays b cs (resume_call browser b c c.stage w).1 in
      ((first.0, rest.0), omega (arith, first.1, rest.1))

  land-IsShared :
      (w : World) (token : Option String) (res : Option Response) (n : Net)
      → n.flight ≡ some token
      → IsShared w n
      → IsShared w (land browser token res n)
  unfolding land
  land-IsShared w token res n e h =
      let turn = end_refresh browser token res n.world in
      let paid = resume_calls-pays turn.0 n.calls turn.1 in
      record {
        served = paid.0;
        sent =
            omega
              (arith, paid.1, h.sent, ap length (end_refresh-sent token res n.world), ap pending e);
      }

  Step-IsShared : (w : World) {n m : Net} → Step browser n m → IsShared w n → IsShared w m
  unfolding open_call
  Step-IsShared w (call path options n) h = record {
    served = (IsServed-weaken n.flight asked tt, h.served);
    sent = omega (arith, h.sent);
  }
  Step-IsShared w (reply before c after res n e here) h =
      turned-IsShared w before c after _ n asked e here
        (first_reply-IsTurn browser c res n.world n.flight) h
  Step-IsShared w (reply_again before c after res n e here) h =
      turned-IsShared w before c after _ n asked_again e here
        (second_reply-IsTurn browser c res n.world n.flight) h
  Step-IsShared w (landing token res n e) h = land-IsShared w token res n e h

  -- However calls, replies and refreshes interleave, a call waits only while a refresh is in flight;
  -- there is one refresh at most in flight; and the requests that were sent are two for each call at
  -- most, and one for each refresh.
  pub Reach-IsShared : {w : World} {n : Net} → Reach browser w n → IsShared w n
  Reach-IsShared start = record { served = tt; sent = omega arith }
  Reach-IsShared {w} (next r step) = Step-IsShared w step (Reach-IsShared r)
