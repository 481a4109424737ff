-- ===== src/Tests/Users.antt =====
-- The users page at its first load and a deletion that is under way.
use mc_service.Prelude.{◌≡◌, refl, none, [], ◌∷◌, String, trimmed, true, false}
use mc_service.Json.{Json}
use mc_service.Session.State.{ok}
use mc_service.Library.Defs.{find}
use mc_service.Services.Types.{AdminUserAccount, user}
use mc_service.Admin.Users.Defs.{UsersPage, opened, loading}
use mc_service.Admin.Users.Operations.{
  settle, selected_user, filtered_users, begin_delete, finish_load,
}
use mc_service.Admin.Users.Reach.{Reach, start, next, answer, delete, IsGuarded}
use mc_service.Admin.Users.Kept.{Reach-IsGuarded}

abbrev account : String → AdminUserAccount
account id = record {
  id = id;
  username = id;
  email = "";
  role = user;
  is_active = true;
  is_main_admin = false;
  last_login_at = none;
  created_at = "";
  updated_at = "";
}

abbrev same : String → String
same text = text

abbrev shown : Json → String
shown j = ""

abbrev loaded : UsersPage
loaded = settle same (finish_load shown (ok (account "ann" ∷ account "bob" ∷ [])) [] opened)

-- The list is loaded, the first user is selected and deleted.
deleting_first : Reach same shown (settle same (begin_delete same true loaded))
deleting_first = next (next start (answer [] loading [] _ opened refl)) (delete true loaded)

first_deleted : (settle same (begin_delete same true loaded)).deleting_user ≡ true
unfolding settle begin_delete finish_load selected_user filtered_users find trimmed
first_deleted = refl

Reach-IsGuarded_example : IsGuarded (settle same (begin_delete same true loaded))
Reach-IsGuarded_example = Reach-IsGuarded same shown deleting_first
