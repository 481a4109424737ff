-- ===== src/Session/Renewal.antt =====
-- The renewal of a session when a page is loaded: the reply to the refresh, and taking it up.
use mc_service.Prelude.{
  String, ◌≡◌, ◌⊎◌, refl, inl, inr, Option, some, true, arith, Bool-cases, Option-cases, ◌==◌,
}
use mathlib.Core.Bool.{false≢true}
use mc_service.Json.{Json}
use mc_service.Platform.{Platform}
use mc_service.Session.State.{
  Response, Result, Failure, ok, raise, thrown, World, Server, bind, access_token_key,
  refresh_token_key, user_key,
}
use mc_service.Session.Client.{
  AuthResponse, as_auth, is_ok, finish, auth_refresh_path, refresh_body, can_attempt_refresh,
  text_of, api_post,
}
use mc_service.Session.Stored.{
  IsUnstored, stored_fails, no_access, no_refresh, no_user, ok-ne-raise,
}
use mc_service.Session.Requests.{IsRefused, no_reply, no_success, no_json, no_members, not_stored}
use mc_service.Session.Exchange.{
  Exchange, silent, replied, single, given_up, repeated, IsGranted, request-Exchange,
}
use mc_service.Session.Auth.{adopt, auth_of, auth_post, user_text, set_loading}
use mc_service.Session.SignIn.{IsSignedIn, Outcome, adopt-Outcome}
use mc_service.Session.Entry.{form_options, logged, IsAccepted}

adopt_fails :
    (browser : Platform) (auth : AuthResponse) (w : World) (x : Failure)
    → (adopt browser auth w).0 ≡ raise x
    → IsUnstored browser auth w.storage
unfolding adopt
adopt_fails browser auth w x =
    stored_fails browser _ access_token_key (text_of auth.access_token) _ x _ no_access (
      stored_fails browser _ refresh_token_key (text_of auth.refresh_token) _ x _ no_refresh (
        stored_fails browser _ user_key (user_text browser auth.user) _ x _ (λ full. no_user _ full)
          (λ e. absurd (ok-ne-raise x e))))

module _ (browser : Platform) (server : Server) (token : String) where
  -- The world behind the request.
  abbrev pub behind : World → World
  behind = logged browser server auth_refresh_path (refresh_body token)

  -- The refresh gives no session that the storage takes: its reply is missing, no success, or
  -- without members, or is a 204, or a write to the storage fails.
  abbrev pub IsDenied : World → Type 0
  IsDenied w =
      IsRefused browser server w.storage (behind w).sent
      ⊎ ((res : Response) × (server (behind w).sent ≡ some res) × (res.status ≡ 204))

  data Reply (w : World) (r : Result AuthResponse × World) : Type 0 where
    session :
        (auth : AuthResponse) (res : Response) (j : Json)
        → r ≡ (ok auth, behind w)
        → IsGranted server (behind w).sent res j auth
        → Reply w r
    failed : (e : Failure) (w' : World) → r ≡ (raise e, w') → IsDenied w → Reply w r

  auth_of-Reply :
      (w : World) (res : Response) (j : Json)
      → server (behind w).sent ≡ some res
      → is_ok res ≡ true
      → res.content ≡ some j
      → Reply w (auth_of (some j) (behind w))
  auth_of-Reply w res j s k c = elim (Option-cases (as_auth j)) [
    | inl a ↦ failed thrown (behind w) (rw (a, auth_of)) (inl (no_members res j s c a))
    | inr (auth, a) ↦
        session auth res j (rw (a, auth_of))
          (record { reply = s; accepted = k; content = c; session = a })
  ]

  finish-Reply :
      (w : World) (res : Response)
      → server (behind w).sent ≡ some res
      → Reply w (bind (finish browser auth_refresh_path res (behind w)) auth_of)
  unfolding finish
  finish-Reply w res s = elim (Bool-cases (is_ok res)) [
    | inr bad ↦ rw bad (failed _ _ refl (inl (no_success res s bad)))
    | inl good ↦ elim (Bool-cases (res.status == 204)) [
      | inl empty ↦ rw (good, empty) (failed _ _ refl (inr (res, s, ground arith)))
      | inr body ↦ elim (Option-cases res.content) [
        | inl c ↦ rw (good, body, c) (failed _ _ refl (inl (no_json res s c)))
        | inr (j, c) ↦ rw (good, body, c) (auth_of-Reply w res j s good c)
      ]
    ]
  ]

  once : can_attempt_refresh auth_refresh_path ≡ true → ⊥
  unfolding can_attempt_refresh
  once e = false≢true e

  posted :
      (w : World) (r : Result (Option Json) × World)
      → Exchange browser server auth_refresh_path
          (form_options browser server auth_refresh_path (refresh_body token))
          w
          true
          r
      → Reply w (bind r auth_of)
  posted w r (single _ (silent e f)) = rw f (failed _ _ refl (inl (no_reply e)))
  posted w r (single _ (replied res e f)) = rw f (finish-Reply w res e)
  posted w r (given_up res _ w' x _ _ _ _ _) = absurd (once x.allowed)
  posted w r (repeated _ _ _ _ _ w' x _ _ _ _ _ _) = absurd (once x.allowed)

  auth_post-Reply :
      (w : World) → Reply w (auth_post browser server auth_refresh_path (refresh_body token) w)
  unfolding auth_post api_post
  auth_post-Reply w = posted w _ (
      request-Exchange browser server auth_refresh_path
        (form_options browser server auth_refresh_path (refresh_body token)) w true)

  -- The two ends of the renewal: the session of the reply is taken up, or there is none.
  pub data Renewed (w : World) (r : Result (Unit {0}) × World) : Type 0 where
    renewed :
        (auth : AuthResponse)
        → r.0 ≡ ok tt
        → IsAccepted browser server auth_refresh_path (refresh_body token) w auth
        → IsSignedIn browser auth w r.1
        → Renewed w r
    denied : (e : Failure) (w' : World) → r ≡ (raise e, w') → IsDenied w → Renewed w r

  adopted-Renewed :
      (w : World) (auth : AuthResponse) (r : Result (Unit {0}) × World)
      → IsAccepted browser server auth_refresh_path (refresh_body token) w auth
      → Outcome browser auth (behind (set_loading true w)) r
      → ((x : Failure) → r.0 ≡ raise x → IsUnstored browser auth w.storage)
      → Renewed w r
  adopted-Renewed w auth (ok _, w') a (inl (_, s)) h = renewed auth refl a (record {
    user = s.user;
    signed_in = s.signed_in;
    idle = s.idle;
    token = s.token;
    stored = s.stored;
  })
  adopted-Renewed w auth (ok _, w') a (inr (e, s)) h = cc
  adopted-Renewed w auth (raise x, w') a o h = denied x w' refl (
      inl (
        not_stored a.res a.reply_json auth a.granted.reply a.granted.content a.granted.session
          (h x refl)))

  bound-Renewed :
      (w : World) (r : Result AuthResponse × World)
      → Reply (set_loading true w) r
      → Renewed w (bind r (adopt browser))
  bound-Renewed w r (session auth res j e g) = rw e (
      adopted-Renewed w auth (adopt browser auth (behind (set_loading true w)))
        (record { res = res; reply_json = j; granted = g })
        (adopt-Outcome browser auth (behind (set_loading true w)))
        (adopt_fails browser auth (behind (set_loading true w))))
  bound-Renewed w r (failed x w' e d) = rw e (denied x w' refl d)

  pub renewal-Renewed :
      (w : World)
      → Renewed w (
          bind
            (auth_post browser server auth_refresh_path (refresh_body token) (set_loading true w))
            (adopt browser))
  renewal-Renewed w = bound-Renewed w _ (auth_post-Reply (set_loading true w))
