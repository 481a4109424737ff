-- ===== src/Session/Flight/Reach.antt =====
-- Calls, replies and refreshes in any order: a call waits only while a refresh is in flight.
use mc_service.Prelude.{String, ◌≡◌, Option, none, some, List, [], ◌∷◌, ◌++◌, All}
use mc_service.Platform.{Platform}
use mc_service.Session.State.{Response, World}
use mc_service.Session.Client.{RequestOptions}
use mc_service.Session.Flight.Defs.{
  Stage, asked, waiting, asked_again, ended, Call, Net, open_call, turned, first_reply,
  second_reply, land,
}

module _ (browser : Platform) where
  -- A call begins; its first or second reply, or the failure of the network, arrives; the refresh in
  -- flight ends.
  pub data Step : Net → Net → Type 0 where
    call : (path : String) (options : RequestOptions) (n : Net) → Step n (open_call path options n)
    reply :
        (before : List Call) (c : Call) (after : List Call) (res : Option Response) (n : Net)
        → n.calls ≡ before ++ (c ∷ after)
        → c.stage ≡ asked
        → Step n (turned before c after (first_reply browser c res n.world n.flight) n)
    reply_again :
        (before : List Call) (c : Call) (after : List Call) (res : Option Response) (n : Net)
        → n.calls ≡ before ++ (c ∷ after)
        → c.stage ≡ asked_again
        → Step n (turned before c after (second_reply browser c res n.world n.flight) n)
    landing :
        (token : Option String) (res : Option Response) (n : Net)
        → n.flight ≡ some token
        → Step n (land browser token res n)

  pub data Reach (w : World) : Net → Type 0 where
    start : Reach w (record { world = w; flight = none; calls = []; landings = 0 })
    next : {n m : Net} → Reach w n → Step n m → Reach w m

-- A stage is fit for a flight: with none, no call waits.
abbrev pub IsServed : Option (Option String) → Stage → Type 0
IsServed none (waiting res) = ⊥
IsServed _ _ = Unit {0}

abbrev pub AreServed : Net → Type 0
AreServed n = All (λ c. IsServed n.flight c.stage) n.calls

pub IsServed-some : (t : Option String) (s : Stage) → IsServed (some t) s
IsServed-some t asked = tt
IsServed-some t (waiting res) = tt
IsServed-some t asked_again = tt
IsServed-some t (ended r) = tt

pub AllServed-some : (t : Option String) (cs : List Call) → All (λ c. IsServed (some t) c.stage) cs
AllServed-some t [] = tt
AllServed-some t (c ∷ cs) = (IsServed-some t c.stage, AllServed-some t cs)

pub IsServed-weaken :
    (flight : Option (Option String)) (s : Stage) → IsServed none s → IsServed flight s
IsServed-weaken none s h = h
IsServed-weaken (some t) s h = IsServed-some t s

All-last : (P : Call → Type 0) (cs : List Call) (c : Call) → All P cs → P c → All P (cs ++ (c ∷ []))
All-last P [] c h k = (k, tt)
All-last P (b ∷ cs) c h k = (h.0, All-last P cs c h.1 k)

-- One call's turn leaves all served, if what it leaves of the flight is no less.
pub All-turned :
    (P : Call → Type 0) (before : List Call) (c c' : Call) (after : List Call)
    → All P (before ++ (c ∷ after))
    → P c'
    → All P (before ++ (after ++ (c' ∷ [])))
All-turned P [] c c' after h k = All-last P after c' h.1 k
All-turned P (b ∷ before) c c' after h k = (h.0, All-turned P before c c' after h.1 k)
