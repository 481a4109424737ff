-- ===== src/Pages/Attempts.antt =====
-- What pages do with failures and with replies that are not typed: `isUnauthorizedError`, and
-- `runApiMutation` of ProfilePage.tsx, which tries endpoints in turn.
use mc_service.Prelude.{
  ◌+◌, ◌*◌, ◌≤◌, ◌≡◌, refl, ap, if_holds, String, Option, none, some, List, [], ◌∷◌, Bool, true,
  false, ◌||◌, ◌==◌, arith, All, length, if◌then◌else◌, trimmed,
}
use mc_service.Json.{Json, null, str, get}
use mc_service.Session.State.{Failure, api_error, thrown, Result, ok, raise, World, M}

abbrev pub is_unauthorized_error : Failure → Bool
is_unauthorized_error (api_error status body) = status == 401
is_unauthorized_error thrown = false

-- `error instanceof ApiError && [404, 405, 501].includes(error.status)`
abbrev pub is_missing : Failure → Bool
is_missing (api_error status body) = status == 404 || status == 405 || status == 501
is_missing thrown = false

-- `a ?? b`, where `none` is undefined.
abbrev pub nullish : Option Json → Option Json → Option Json
nullish none b = b
nullish (some null) b = b
nullish (some j) b = some j

abbrev pub member_of : String → Option Json → Option Json
member_of key none = none
member_of key (some j) = get key j

-- The first of some members that is neither undefined nor null, else the last.
abbrev pub first_member : List String → Option Json → Option Json
first_member [] source = none
first_member (key ∷ []) source = member_of key source
first_member (key ∷ keys) source = nullish (member_of key source) (first_member keys source)

-- `readMaybeString`
unfoldable pub read_maybe_string : Option Json → String
read_maybe_string (some (str text)) = trimmed text
read_maybe_string _ = ""

unauthorized_present : (e : Failure) → is_unauthorized_error e ≡ true → is_missing e ≡ false
unauthorized_present (api_error status body) h = ground arith
unauthorized_present thrown h = refl

module _ {A : Type 0} where
  -- Behind an attempt; `others` are the attempts that are left.
  abbrev pub attempted : M (Option A) → Result A × World → Result (Option A) × World
  attempted others (ok a, w) = (ok (some a), w)
  attempted others (raise e, w) =
      if is_unauthorized_error e
      then (raise e, w)
      else if is_missing e
      then others w
      else (raise e, w)

  -- `runApiMutation`: `none` is null.
  unfoldable pub run_api_mutation : List (M A) → M (Option A)
  run_api_mutation [] w = (ok none, w)
  run_api_mutation (attempt ∷ attempts) w =
      let others = run_api_mutation attempts in attempted others (attempt w)

  -- What trying in turn means: the first attempt that is not missing decides.
  pub data Tries : List (M A) → World → Result (Option A) × World → Type 0 where
    exhausted : (w : World) → Tries [] w (ok none, w)
    answered :
        (attempt : M A) (attempts : List (M A)) (w v : World) (a : A)
        → attempt w ≡ (ok a, v)
        → Tries (attempt ∷ attempts) w (ok (some a), v)
    refused :
        (attempt : M A) (attempts : List (M A)) (w v : World) (e : Failure)
        → attempt w ≡ (raise e, v)
        → is_missing e ≡ false
        → Tries (attempt ∷ attempts) w (raise e, v)
    skipped :
        (attempt : M A) (attempts : List (M A)) (w v : World) (e : Failure)
        (r : Result (Option A) × World)
        → attempt w ≡ (raise e, v)
        → is_missing e ≡ true
        → Tries attempts v r
        → Tries (attempt ∷ attempts) w r

  attempt-Tries :
      (attempt : M A) (attempts : List (M A)) (w : World) (r : Result A × World)
      → attempt w ≡ r
      → ((v : World) → Tries attempts v (run_api_mutation attempts v))
      → Tries (attempt ∷ attempts) w (attempted (run_api_mutation attempts) r)
  attempt-Tries attempt attempts w (ok a, v) e k = answered attempt attempts w v a e
  attempt-Tries attempt attempts w (raise x, v) e k =
      if_holds (Tries (attempt ∷ attempts) w) (is_unauthorized_error x) _ _
        (λ h. refused attempt attempts w v x e (unauthorized_present x h))
        (λ _.
          if_holds (Tries (attempt ∷ attempts) w) (is_missing x) _ _
            (λ h. skipped attempt attempts w v x _ e h (k v))
            (λ h. refused attempt attempts w v x e h))

  pub run_api_mutation-Tries :
      (attempts : List (M A)) (w : World) → Tries attempts w (run_api_mutation attempts w)
  unfolding run_api_mutation
  run_api_mutation-Tries [] w = exhausted w
  run_api_mutation-Tries (attempt ∷ attempts) w =
      attempt-Tries attempt attempts w (attempt w) refl (run_api_mutation-Tries attempts)

  -- Attempts of one call of the API client each.
  abbrev pub AreCalls : List (M A) → Type 0
  AreCalls = All (λ attempt. (w : World) → length (attempt w).1.sent ≤ length w.sent + 3)

  pub Tries-length :
      (attempts : List (M A)) (w : World) (r : Result (Option A) × World)
      → Tries attempts w r
      → AreCalls attempts
      → length r.1.sent ≤ length w.sent + 3 * length attempts
  Tries-length _ _ _ (exhausted w) h = omega arith
  Tries-length _ _ _ (answered attempt attempts w v a e) h =
      omega (arith, h.0 w, ap (λ r. length r.1.sent) e)
  Tries-length _ _ _ (refused attempt attempts w v x e o) h =
      omega (arith, h.0 w, ap (λ r. length r.1.sent) e)
  Tries-length _ _ _ (skipped attempt attempts w v x r e m t) h =
      omega (arith, h.0 w, ap (λ r. length r.1.sent) e, Tries-length attempts v r t h.1)
