-- ===== src/Session/SignIn.antt =====
-- `login` and `register`: what they leave behind, whether they succeed or not.
use mc_service.Prelude.{String, ◌≡◌, refl, ◌⊎◌, true, false, arith}
use mc_service.Platform.{Platform, set_item}
use mc_service.Session.State.{
  Response, Result, ok, raise, thrown, World, access_token_key, refresh_token_key, user_key,
}
use mc_service.Session.Client.{
  AuthResponse, text_of, finish, can_attempt_refresh, should_clear_session_on_unauthorized,
}
use mc_service.Session.Auth.{adopt, user_text}

-- The paths at which a 401 is left to the caller.
pub record IsEntry (path : String) : Type 0 where
  pub once : can_attempt_refresh path ≡ false
  pub kept : should_clear_session_on_unauthorized path ≡ false

pub login-IsEntry : IsEntry "/auth/login"
unfolding can_attempt_refresh should_clear_session_on_unauthorized
login-IsEntry = record { once = refl; kept = refl }

pub register-IsEntry : IsEntry "/auth/register"
unfolding can_attempt_refresh should_clear_session_on_unauthorized
register-IsEntry = record { once = refl; kept = refl }

module _ (browser : Platform) where
  finish-IsEntry :
      (path : String) (res : Response) (w : World)
      → should_clear_session_on_unauthorized path ≡ false
      → (finish browser path res w).1 ≡ w
  unfolding finish
  finish-IsEntry path res w kept = ground arith

  -- What `adopt` does to a session, if every write is accepted.
  pub record IsSignedIn (auth : AuthResponse) (before after : World) : Type 0 where
    pub user : after.user ≡ auth.user
    pub signed_in : after.is_authenticated ≡ true
    pub idle : after.is_loading ≡ false
    pub token : after.access_token ≡ auth.access_token
    pub stored :
        after.storage
        ≡ set_item user_key (user_text browser auth.user) (
            set_item refresh_token_key
              (text_of auth.refresh_token)
              (set_item access_token_key (text_of auth.access_token) before.storage))

  -- The session as the sign-in found it, but for the access token, the storage and the log.
  pub record IsSameUser (before after : World) : Type 0 where
    pub user : after.user ≡ before.user
    pub same : after.is_authenticated ≡ before.is_authenticated

  abbrev pub Outcome : AuthResponse → World → Result (Unit {0}) × World → Type 0
  Outcome auth w r =
      ((r.0 ≡ ok tt) × IsSignedIn auth w r.1) ⊎ ((r.0 ≡ raise thrown) × IsSameUser w r.1)

  pub adopt-Outcome : (auth : AuthResponse) (w : World) → Outcome auth w (adopt browser auth w)
  unfolding adopt
  adopt-Outcome auth w = ground arith

  -- No request is sent meanwhile.
  pub adopt-sent : (auth : AuthResponse) (w : World) → (adopt browser auth w).1.sent ≡ w.sent
  unfolding adopt
  adopt-sent auth w = ground arith
