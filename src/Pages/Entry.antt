-- ===== src/Pages/Entry.antt =====
-- LoginPage.tsx and RegisterPage.tsx of the player, and the guard of its routes in App.tsx.
use mc_service.Prelude.{
  ℕ, String, Option, none, some, ◌≡◌, refl, ◌⊎◌, inl, inr, Bool, true, false, if◌then◌else◌, str_eq,
  ltb, if_holds, eq_iff, arith, ◌≤◌, ap, units,
}
use mc_service.Json.{Json, str, bool, obj, field, end}
use mc_service.Platform.{Platform}
use mc_service.Session.State.{Result, ok, raise, thrown, World, Server}
use mc_service.Session.Client.{AuthResponse}
use mc_service.Session.Auth.{login, register}
use mc_service.Session.SignIn.{register-IsEntry, IsSignedIn, IsSameUser}
use mc_service.Session.Entry.{IsAccepted, sign_in-outcome}

-- `ProtectedRoute`, and what the two pages show to a user who is signed in.
pub data View : Type 0 where
  to_login children : View

pub data Public : Type 0 where
  to_home form : Public

abbrev pub protected_route : World → View
protected_route w = if w.is_authenticated then children else to_login

abbrev pub public_page : World → Public
public_page w = if w.is_authenticated then to_home else form

pub record LoginPage : Type 0 where
  pub username : String
  pub password : String
  pub remember_me : Bool
  pub error : String

pub record RegisterPage : Type 0 where
  pub username : String
  pub email : String
  pub password : String
  pub confirm_password : String
  pub error : String

abbrev pub login_form : LoginPage → Json
login_form page = obj (
    field "username" (str page.username)
      (field "password" (str page.password) (field "remember_me" (bool page.remember_me) end)))

abbrev pub register_form : RegisterPage → Json
register_form page = obj (
    field "username" (str page.username)
      (field "email" (str page.email) (field "password" (str page.password) end)))

-- The tests of the passwords before a registration.
unfoldable pub form_fault : RegisterPage → Option String
form_fault page =
    if str_eq page.password page.confirm_password
    then (if ltb (units page.password) 8
        then some "Password must be at least 8 characters"
        else none)
    else some "Passwords do not match"

-- The error that stands behind a call.
abbrev shown : String → Result (Unit {0}) → String
shown failure (ok _) = ""
shown failure (raise _) = failure

module _ (browser : Platform) (server : Server) where
  unfoldable pub submit_login : LoginPage → World → LoginPage × World
  submit_login page w =
      let r = login browser server (login_form page) w in
      (record page { error = shown "Invalid username or password" r.0 }, r.1)

  -- What follows the tests of the form.
  unfoldable pub after_check : RegisterPage → World → Option String → RegisterPage × World
  after_check page w (some fault) = (record page { error = fault }, w)
  after_check page w none =
      let r = register browser server (register_form page) w in
      (record page { error = shown "Registration failed. Try a different username." r.0 }, r.1)

  unfoldable pub submit_registration : RegisterPage → World → RegisterPage × World
  submit_registration page w = after_check page w (form_fault page)

  -- A form without a fault.
  abbrev pub IsSound : RegisterPage → Type 0
  IsSound page = (page.password ≡ page.confirm_password) × (8 ≤ units page.password)

  -- How a registration ends.
  pub data IsRegistered (page : RegisterPage) (w : World) (r : RegisterPage × World) : Type 0 where
    unsent :
        (fault : String)
        → form_fault page ≡ some fault
        → r ≡ (record page { error = fault }, w)
        → IsRegistered page w r
    signed_in :
        (auth : AuthResponse)
        → IsSound page
        → IsAccepted browser server "/auth/register" (register_form page) w auth
        → IsSignedIn browser auth w r.1
        → r.0.error ≡ ""
        → IsRegistered page w r
    failed :
        IsSound page
        → IsSameUser browser w r.1
        → r.1.is_loading ≡ false
        → r.0.error ≡ "Registration failed. Try a different username."
        → IsRegistered page w r

  ltb_off : (a b : ℕ) → ltb a b ≡ false → b ≤ a
  ltb_off a b h = ground arith

  long-IsSound :
      (page : RegisterPage)
      → str_eq page.password page.confirm_password ≡ true
      → ltb (units page.password) 8 ≡ false
      → IsSound page
  long-IsSound page e long =
      ((eq_iff page.password page.confirm_password).0 e, ltb_off (units page.password) 8 long)

  form_fault-none : (page : RegisterPage) → form_fault page ≡ none → IsSound page
  unfolding form_fault
  form_fault-none page =
      if_holds (λ o. o ≡ none → IsSound page) (str_eq page.password page.confirm_password) _ _
        (λ e.
          if_holds (λ o. o ≡ none → IsSound page) (ltb (units page.password) 8) _ _
            (λ _ (h : some _ ≡ none). cc) (λ long _. long-IsSound page e long))
        (λ _ (h : some _ ≡ none). cc)

  -- The two ends of the call, at a form that passes the tests.
  register-IsRegistered :
      (page : RegisterPage) (w : World) (r : Result (Unit {0}) × World)
      → IsSound page
      → ((auth : AuthResponse) × (r.0 ≡ ok tt)
          × IsAccepted browser server "/auth/register" (register_form page) w auth
          × IsSignedIn browser auth w r.1)
        ⊎ ((r.0 ≡ raise thrown) × IsSameUser browser w r.1 × (r.1.is_loading ≡ false))
      → IsRegistered page w
          (record page { error = shown "Registration failed. Try a different username." r.0 }, r.1)
  register-IsRegistered page w r sound (inl (auth, e, a, s)) =
      signed_in auth sound a s (ap (shown _) e)
  register-IsRegistered page w r sound (inr (e, s, idle)) = failed sound s idle (ap (shown _) e)

  checked-IsRegistered :
      (page : RegisterPage) (w : World) (o : Option String)
      → form_fault page ≡ o
      → IsRegistered page w (after_check page w o)
  unfolding after_check register
  checked-IsRegistered page w (some fault) e = unsent fault e refl
  checked-IsRegistered page w none e =
      register-IsRegistered page w _ (form_fault-none page e) (
        (sign_in-outcome browser server "/auth/register" (register_form page) w register-IsEntry).0)

  -- A registration ends in one of three ways. The form has a fault, and the page says so and sends
  -- nothing; or the server has accepted it and the store holds its session; or the user is the one
  -- from before, nothing is loading, and the page says that it failed. What was sent has a password
  -- of eight UTF-16 units at least, which is equal to its confirmation.
  pub submit_registration-IsRegistered :
      (page : RegisterPage) (w : World) → IsRegistered page w (submit_registration page w)
  unfolding submit_registration
  submit_registration-IsRegistered page w = checked-IsRegistered page w (form_fault page) refl
