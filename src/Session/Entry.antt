-- ===== src/Session/Entry.antt =====
-- The exchange of `login` and `register` with the server, and how they end.
use mc_service.Prelude.{
  String, ◌≡◌, refl, ◌⊎◌, inl, inr, Option, none, some, [], ◌∷◌, true, false, arith, ◌∙◌, sym,
  Bool-cases, Option-cases, ◌==◌,
}
use mathlib.Core.Bool.{false≢true}
use mc_service.Json.{Json}
use mc_service.Platform.{Platform}
use mc_service.Session.State.{
  Response, Result, ok, raise, Failure, api_error, thrown, World, Server, bind, handle,
}
use mc_service.Session.Client.{
  RequestOptions, AuthResponse, as_auth, is_ok, finish, request_of, api_post,
  should_clear_session_on_unauthorized,
}
use mc_service.Session.Exchange.{
  Exchange, silent, replied, single, given_up, repeated, IsGranted, request-Exchange,
}
use mc_service.Session.Auth.{adopt, auth_of, auth_post, sign_in, set_loading}
use mc_service.Session.SignIn.{IsEntry, IsSignedIn, IsSameUser, Outcome, adopt-Outcome, adopt-sent}

module _ (browser : Platform) (server : Server) (path : String) (form : Json) where
  abbrev pub form_options : RequestOptions
  form_options = record { method = "POST"; content = some form; params = [] }

  -- The world behind the one request.
  abbrev pub logged : World → World
  logged w = record w { sent = request_of path form_options w.access_token ∷ w.sent }

  -- The end of `auth_post`: the session of a successful reply, or an exception.
  data Posted (w : World) (r : Result AuthResponse × World) : Type 0 where
    session :
        (auth : AuthResponse) (res : Response) (j : Json)
        → r ≡ (ok auth, logged w)
        → IsGranted server (logged w).sent res j auth
        → Posted w r
    failed : (e : Failure) → r ≡ (raise e, logged w) → Posted w r

  auth_of-Posted :
      (w : World) (res : Response) (o : Option Json)
      → server (logged w).sent ≡ some res
      → is_ok res ≡ true
      → res.content ≡ o
      → Posted w (auth_of o (logged w))
  auth_of-Posted w res none s k c = failed thrown refl
  auth_of-Posted w res (some j) s k c = elim (Option-cases (as_auth j)) [
    | inl a ↦ failed thrown (rw (a, auth_of))
    | inr (auth, a) ↦
        session auth res j (rw (a, auth_of))
          (record { reply = s; accepted = k; content = c; session = a })
  ]

  finish-Posted :
      (w : World) (res : Response)
      → should_clear_session_on_unauthorized path ≡ false
      → server (logged w).sent ≡ some res
      → Posted w (bind (finish browser path res (logged w)) auth_of)
  unfolding finish
  finish-Posted w res kept s = elim (Bool-cases (is_ok res)) [
    | inr bad ↦ failed (api_error res.status res.content) (ground arith)
    | inl good ↦ elim (Bool-cases (res.status == 204)) [
      | inl empty ↦ failed thrown (ground arith)
      | inr body ↦ elim (Option-cases res.content) [
        | inl c ↦ failed thrown (ground arith)
        | inr (j, c) ↦ rw (good, body, c) (auth_of-Posted w res (some j) s good c)
      ]
    ]
  ]

  posted :
      (w : World)
      → IsEntry path
      → (r : Result (Option Json) × World) → Exchange browser server path form_options w true r
      → Posted w (bind r auth_of)
  posted w entry r (single _ (silent e f)) = rw f (failed thrown refl)
  posted w entry r (single _ (replied res e f)) = rw f (finish-Posted w res entry.kept e)
  posted w entry r (given_up res token w' x _ f _ g k) =
      absurd (false≢true (sym entry.once ∙ x.allowed))
  posted w entry r (repeated res res' j auth token w' x _ f g m n s) =
      absurd (false≢true (sym entry.once ∙ x.allowed))

  auth_post-Posted : (w : World) → IsEntry path → Posted w (auth_post browser server path form w)
  unfolding auth_post api_post
  auth_post-Posted w entry =
      posted w entry _ (request-Exchange browser server path form_options w true)

  -- The reply by which a sign-in succeeds: a success of the server, which holds a session.
  pub record IsAccepted (w : World) (auth : AuthResponse) : Type 0 where
    pub res : Response
    pub reply_json : Json
    pub granted : IsGranted server (logged w).sent res reply_json auth

  -- The two ends of a sign-in from the world `w`.
  abbrev SignedIn : World → Result (Unit {0}) × World → Type 0
  SignedIn w r =
      ((auth : AuthResponse) × (r.0 ≡ ok tt) × IsAccepted w auth × IsSignedIn browser auth w r.1)
      ⊎ ((r.0 ≡ raise thrown) × IsSameUser browser w r.1 × (r.1.is_loading ≡ false))

  adopted-SignedIn :
      (w : World) (auth : AuthResponse) (r : Result (Unit {0}) × World)
      → IsAccepted w auth
      → Outcome browser auth (logged (set_loading true w)) r
      → SignedIn w (handle r (λ _ w'. (raise thrown, set_loading false w')))
  adopted-SignedIn w auth (ok _, w') a (inl (_, s)) = inl (
    auth,
    refl,
    a,
    record {
      user = s.user;
      signed_in = s.signed_in;
      idle = s.idle;
      token = s.token;
      stored = s.stored;
    },
  )
  adopted-SignedIn w auth (ok _, w') a (inr (e, s)) = cc
  adopted-SignedIn w auth (raise _, w') a (inl (e, s)) = cc
  adopted-SignedIn w auth (raise _, w') a (inr (_, s)) =
      inr (refl, record { user = s.user; same = s.same }, refl)

  -- What `sign_in` does behind the reply.
  abbrev answered : Result AuthResponse × World → Result (Unit {0}) × World
  answered r = handle (bind r (adopt browser)) (λ _ w'. (raise thrown, set_loading false w'))

  handled-sent :
      (r : Result (Unit {0}) × World)
      → (handle r (λ _ w'. (raise thrown, set_loading false w'))).1.sent ≡ r.1.sent
  handled-sent (ok a, w') = refl
  handled-sent (raise e, w') = refl

  posted-sent :
      (w : World) (r : Result AuthResponse × World)
      → Posted w r
      → (answered r).1.sent ≡ (logged w).sent
  posted-sent w r (session auth res j e g) =
      rw e (handled-sent (adopt browser auth (logged w)) ∙ adopt-sent browser auth (logged w))
  posted-sent w r (failed x e) = rw e refl

  posted-SignedIn :
      (w : World) (r : Result AuthResponse × World)
      → Posted (set_loading true w) r
      → SignedIn w (handle (bind r (adopt browser)) (λ _ w'. (raise thrown, set_loading false w')))
  posted-SignedIn w r (session auth res j e g) = rw e (
      adopted-SignedIn w auth (adopt browser auth (logged (set_loading true w)))
        (record { res = res; reply_json = j; granted = g })
        (adopt-Outcome browser auth (logged (set_loading true w))))
  posted-SignedIn w r (failed x e) = rw e (inr (refl, record { user = refl; same = refl }, refl))

  -- `login` and `register` send one request, and no other one. Either the server accepts it, and the
  -- session of the reply, as far as it has one, is in the store and in storage; or an exception is
  -- thrown, and the user is the one from before. In both cases nothing is loading any more.
  pub sign_in-outcome :
      (w : World)
      → IsEntry path
      → (((auth : AuthResponse) × ((sign_in browser server path form w).0 ≡ ok tt)
            × IsAccepted w auth
            × IsSignedIn browser auth w (sign_in browser server path form w).1)
          ⊎ (((sign_in browser server path form w).0 ≡ raise thrown)
              × IsSameUser browser w (sign_in browser server path form w).1
              × ((sign_in browser server path form w).1.is_loading ≡ false)))
        × ((sign_in browser server path form w).1.sent
            ≡ request_of path form_options w.access_token ∷ w.sent)
  unfolding sign_in
  sign_in-outcome w entry =
      let end = auth_post-Posted (set_loading true w) entry in
      (posted-SignedIn w _ end, posted-sent (set_loading true w) _ end)
