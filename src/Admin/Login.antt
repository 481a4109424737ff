-- ===== src/Admin/Login.antt =====
-- The way into the administration: LoginPage.tsx, and the guards of the routes of App.tsx.
use mc_service.Prelude.{
  String, Option, none, some, ◌≡◌, refl, ◌⊎◌, inl, inr, Bool, true, false, if◌then◌else◌, str_eq,
  ◌&&◌, if_holds, arith,
}
use mc_service.Json.{Json, str, obj, field, end, get}
use mc_service.Platform.{Platform}
use mc_service.Session.State.{Result, ok, raise, thrown, World, Server}
use mc_service.Session.Client.{AuthResponse}
use mc_service.Session.Auth.{login, logout}
use mc_service.Session.SignIn.{login-IsEntry, IsSignedIn, IsSameUser}
use mc_service.Session.Entry.{IsAccepted, sign_in-outcome}
use mc_service.Session.Ending.{IsEnded, clear_auth_state-IsEnded}

-- `place` is the path that the latest submission navigates to, if it does.
pub record LoginPage : Type 0 where
  pub username : String
  pub password : String
  pub error : String
  pub place : Option String

abbrev text_is : String → Option Json → Bool
text_is s (some (str t)) = str_eq t s
text_is s _ = false

-- `user?.role === "admin"`
unfoldable pub is_admin : Option Json → Bool
is_admin none = false
is_admin (some user) = text_is "admin" (get "role" user)

pub data View : Type 0 where
  to_login denied layout : View

pub data Public : Type 0 where
  to_dashboard outlet : Public

unfoldable pub require_admin : World → View
require_admin w =
    if w.is_authenticated then (if is_admin w.user then layout else denied) else to_login

unfoldable pub public_only : World → Public
public_only w = if w.is_authenticated && is_admin w.user then to_dashboard else outlet

abbrev pub login_request : LoginPage → Json
login_request page =
    obj (field "username" (str page.username) (field "password" (str page.password) end))

module _ (browser : Platform) (server : Server) where
  -- What follows the end of `login`.
  unfoldable pub after_login : LoginPage → Result (Unit {0}) × World → LoginPage × World
  after_login page (ok _, w) =
      if is_admin w.user
      then (record page { place = some "/dashboard" }, w)
      else (record page { error = "Access denied. Admin role required." }, logout browser w)
  after_login page (raise _, w) = (record page { error = "Invalid username or password" }, w)

  unfoldable pub handle_submit : LoginPage → World → LoginPage × World
  handle_submit page w =
      after_login (record page { error = ""; place = none })
        (login browser server (login_request page) w)

  -- The three ends of a submission.
  pub data IsAnswered (page : LoginPage) (before : World) (r : LoginPage × World) : Type 0 where
    admitted :
        (auth : AuthResponse)
        → IsAccepted browser server "/auth/login" (login_request page) before auth
        → IsSignedIn browser auth before r.1
        → require_admin r.1 ≡ layout
        → r.0.place ≡ some "/dashboard"
        → IsAnswered page before r
    refused :
        IsEnded r.1
        → r.0.place ≡ none
        → r.0.error ≡ "Access denied. Admin role required."
        → IsAnswered page before r
    failed :
        IsSameUser browser before r.1
        → r.1.is_loading ≡ false
        → r.0.place ≡ none
        → r.0.error ≡ "Invalid username or password"
        → IsAnswered page before r

  module _ (window : browser.has_window ≡ true) where
    layout_of :
        (w : World) → w.is_authenticated ≡ true → is_admin w.user ≡ true → require_admin w ≡ layout
    unfolding require_admin
    layout_of w h k = rw h (rw k refl)

    after_login-IsAnswered :
        (page : LoginPage) (w : World) (r : Result (Unit {0}) × World)
        → ((auth : AuthResponse) × (r.0 ≡ ok tt)
            × IsAccepted browser server "/auth/login" (login_request page) w auth
            × IsSignedIn browser auth w r.1)
          ⊎ ((r.0 ≡ raise thrown) × IsSameUser browser w r.1 × (r.1.is_loading ≡ false))
        → IsAnswered page w (after_login (record page { error = ""; place = none }) r)
    unfolding after_login logout
    after_login-IsAnswered page w (ok _, w') (inl (auth, _, a, s)) =
        if_holds (IsAnswered page w) (is_admin w'.user) _ _
          (λ h. admitted auth a s (layout_of w' s.signed_in h) refl)
          (λ _. refused (clear_auth_state-IsEnded browser window w') refl refl)
    after_login-IsAnswered page w (ok _, w') (inr (e, _, _)) = cc
    after_login-IsAnswered page w (raise _, w') (inl (_, e, _, s)) = cc
    after_login-IsAnswered page w (raise _, w') (inr (_, s, idle)) = failed s idle refl refl

    -- A submission ends in one of three ways. The server has accepted the login and the store holds
    -- its session, of a user whom `RequireAdmin` lets in, and the page goes to the dashboard; or
    -- nobody is signed in any more, in memory and in storage, and the page says that access is
    -- denied; or the user is the one from before, nothing is loading, and the page says that the
    -- name or the password is invalid. In a browser with a window.
    pub handle_submit-IsAnswered :
        (page : LoginPage) (w : World) → IsAnswered page w (handle_submit page w)
    unfolding handle_submit login
    handle_submit-IsAnswered page w =
        after_login-IsAnswered page w _
          ((sign_in-outcome browser server "/auth/login" (login_request page) w login-IsEntry).0)

-- The guards agree, so that the redirects end: the login page redirects to the dashboard where the
-- guard of the dashboard shows the pages; where it does not, that guard denies them or redirects.
pub public_only-require_admin :
    (w : World)
    → ((public_only w ≡ to_dashboard) × (require_admin w ≡ layout))
      ⊎ ((public_only w ≡ outlet) × ((require_admin w ≡ denied) ⊎ (require_admin w ≡ to_login)))
unfolding public_only require_admin
public_only-require_admin w = ground arith
