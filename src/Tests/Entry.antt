-- ===== src/Tests/Entry.antt =====
-- Signing in to the administration, and a registration, at a server with one administrator.
use mc_service.Prelude.{refl, String, none, some, [], ◌∷◌, true, if◌then◌else◌, str_eq}
use mc_service.Json.{Json, str, obj, field, end}
use mc_service.Platform.{Platform}
use mc_service.Session.State.{World, Server}
use mc_service.Session.Auth.{initial}
use mc_service.Admin.Login.{LoginPage, IsAnswered, handle_submit, handle_submit-IsAnswered}
use mc_service.Pages.Entry.{
  RegisterPage, IsRegistered, submit_registration, submit_registration-IsRegistered,
}

abbrev browser : Platform
browser = record {
  has_window = true;
  accepts = λ _ _ _. true;
  parse = λ _. none;
  stringify = λ _. "user";
  atob = λ _. none;
  to_number = λ _. none;
}

abbrev session_of : String → Json
session_of role = obj (
    field "access_token" (str "a")
      (field "refresh_token" (str "r") (field "user" (obj (field "role" (str role) end)) end)))

-- A login is that of the administrator, a registration that of a new user.
abbrev server : Server
server [] = none
server (req ∷ _) =
    if str_eq req.path "/auth/login"
    then some (record { status = 200; content = some (session_of "admin") })
    else some (record { status = 200; content = some (session_of "user") })

abbrev fresh : World
fresh = initial none []

abbrev page : LoginPage
page = record { username = "root"; password = "secret"; error = ""; place = none }

abbrev new_user : RegisterPage
new_user = record {
  username = "ann";
  email = "a@b.c";
  password = "12345678";
  confirm_password = "12345678";
  error = "";
}

handle_submit-IsAnswered_example :
    IsAnswered browser server page fresh (handle_submit browser server page fresh)
handle_submit-IsAnswered_example = handle_submit-IsAnswered browser server refl page fresh

submit_registration-IsRegistered_example :
    IsRegistered browser server new_user fresh (submit_registration browser server new_user fresh)
submit_registration-IsRegistered_example =
    submit_registration-IsRegistered browser server new_user fresh
