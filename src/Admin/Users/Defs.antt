-- ===== src/Admin/Users/Defs.antt =====
-- The page's state and its handlers, cut at each `await`: up to it, and behind its answer.
use mc_service.Prelude.{
  ℕ, suc, String, Option, none, some, List, [], ◌∷◌, Bool, true, false, not, ◌==◌, str_eq,
}
use mc_service.Services.Types.{
  Role, admin, user, AdminUserAccount, UpdateAdminUserRequest, CreateAdminUserRequest,
}
use mc_service.Admin.Feedback.{Feedback}

pub data UserRoleFilter : Type 0 where
  all_roles : UserRoleFilter
  role_is : Role → UserRoleFilter

pub data UserStatusFilter : Type 0 where
  all_statuses active inactive : UserStatusFilter

-- An account object of a reply. `object` tells it from every other one, as `===` does.
pub record UserRow : Type 0 where
  pub object : ℕ
  pub account : AdminUserAccount

-- A call of `adminApi` that has not ended, with what its handler goes on with.
pub data Job : Type 0 where
  loading reloading : Job
  saving : String → UpdateAdminUserRequest → Job
  creating : CreateAdminUserRequest → Job
  resetting : String → String → Job
  deleting : AdminUserAccount → Job

-- `shown` is the selected object at the last run of the effect that fills the form; `objects` counts
-- the objects of the replies so far.
pub record UsersPage : Type 0 where
  pub users : List UserRow
  pub loading_users : Bool
  pub search : String
  pub role_filter : UserRoleFilter
  pub status_filter : UserStatusFilter
  pub selected_user_id : String
  pub editing_username : String
  pub editing_email : String
  pub editing_role : Role
  pub editing_is_active : Bool
  pub new_password : String
  pub create_username : String
  pub create_email : String
  pub create_password : String
  pub create_role : Role
  pub create_is_active : Bool
  pub saving_user : Bool
  pub resetting_password : Bool
  pub deleting_user : Bool
  pub creating_user : Bool
  pub feedback : Option Feedback
  pub shown : Option ℕ
  pub objects : ℕ
  pub jobs : List Job

-- The page behind its first render: `loadUsers` runs.
abbrev pub opened : UsersPage
opened = record {
  users = [];
  loading_users = true;
  search = "";
  role_filter = all_roles;
  status_filter = all_statuses;
  selected_user_id = "";
  editing_username = "";
  editing_email = "";
  editing_role = user;
  editing_is_active = true;
  new_password = "";
  create_username = "";
  create_email = "";
  create_password = "";
  create_role = user;
  create_is_active = true;
  saving_user = false;
  resetting_password = false;
  deleting_user = false;
  creating_user = false;
  feedback = none;
  shown = none;
  objects = 0;
  jobs = loading ∷ [];
}

abbrev pub has_id : String → UserRow → Bool
has_id id row = str_eq row.account.id id

abbrev pub same_role : Role → Role → Bool
same_role admin admin = true
same_role user user = true
same_role _ _ = false

abbrev pub has_role : UserRoleFilter → AdminUserAccount → Bool
has_role all_roles a = true
has_role (role_is r) a = same_role a.role r

abbrev pub has_status : UserStatusFilter → AdminUserAccount → Bool
has_status all_statuses a = true
has_status active a = a.is_active
has_status inactive a = not a.is_active

abbrev pub first_row : List UserRow → Option UserRow
first_row [] = none
first_row (row ∷ rows) = some row

abbrev pub numbered : ℕ → List AdminUserAccount → List UserRow
numbered n [] = []
numbered n (a ∷ accounts) = record { object = n; account = a } ∷ numbered (suc n) accounts

abbrev pub count_of : List AdminUserAccount → ℕ
count_of [] = 0
count_of (a ∷ accounts) = suc (count_of accounts)

abbrev pub same_object : Option ℕ → Option UserRow → Bool
same_object none none = true
same_object (some n) (some row) = n == row.object
same_object _ _ = false

-- The effect on the selected user.
abbrev pub fill_form : Option UserRow → UsersPage → UsersPage
fill_form none p = record p { shown = none }
fill_form (some row) p = record p {
  shown = some row.object;
  editing_username = row.account.username;
  editing_email = row.account.email;
  editing_role = row.account.role;
  editing_is_active = row.account.is_active;
  new_password = "";
}

-- The fields of the page that the inputs set.
pub data Edit : Type 0 where
  set_search : String → Edit
  set_role_filter : UserRoleFilter → Edit
  set_status_filter : UserStatusFilter → Edit
  set_editing_username set_editing_email set_new_password : String → Edit
  set_editing_role : Role → Edit
  set_editing_is_active : Bool → Edit
  set_create_username set_create_email set_create_password : String → Edit
  set_create_role : Role → Edit
  set_create_is_active : Bool → Edit

abbrev pub edit : Edit → UsersPage → UsersPage
edit (set_search q) p = record p { search = q }
edit (set_role_filter f) p = record p { role_filter = f }
edit (set_status_filter f) p = record p { status_filter = f }
edit (set_editing_username t) p = record p { editing_username = t }
edit (set_editing_email t) p = record p { editing_email = t }
edit (set_new_password t) p = record p { new_password = t }
edit (set_editing_role r) p = record p { editing_role = r }
edit (set_editing_is_active b) p = record p { editing_is_active = b }
edit (set_create_username t) p = record p { create_username = t }
edit (set_create_email t) p = record p { create_email = t }
edit (set_create_password t) p = record p { create_password = t }
edit (set_create_role r) p = record p { create_role = r }
edit (set_create_is_active b) p = record p { create_is_active = b }
