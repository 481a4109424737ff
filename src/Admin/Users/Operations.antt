-- ===== src/Admin/Users/Operations.antt =====
-- The handlers of the users page. `rest` are the calls that still run when an answer is taken.
use mc_service.Prelude.{
  ◌+◌, String, Option, none, some, List, [], ◌∷◌, ◌++◌, map, Bool, true, false, not, ◌&&◌, ◌||◌,
  ltb, if◌then◌else◌, str_eq, codes, trimmed, units, contains,
}
use mc_service.Json.{Json}
use mc_service.Session.State.{Result, ok, raise}
use mc_service.Library.Defs.{find, any}
use mc_service.Curation.Choice.{filter}
use mc_service.Services.Types.{
  user, AdminUserAccount, AdminActionResponse, UpdateAdminUserRequest, CreateAdminUserRequest,
}
use mc_service.Admin.Feedback.{success, error, told, api_error_message}
use mc_service.Admin.Users.Defs.{
  UserRow, Job, reloading, saving, creating, resetting, deleting, UsersPage, has_id, has_role,
  has_status, first_row, numbered, count_of, same_object, fill_form,
}

abbrev pub replaced : UserRow → UserRow → UserRow
replaced new row = if str_eq row.account.id new.account.id then new else row

abbrev pub or_first : Option UserRow → List UserRow → Option UserRow
or_first (some row) rows = some row
or_first none rows = first_row rows

abbrev pub kept_or_first : String → List UserRow → String
kept_or_first current [] = ""
kept_or_first current (row ∷ rows) =
    if not (str_eq current "") && any (has_id current) (row ∷ rows) then current else row.account.id

-- `loadUsers` up to its `await`.
unfoldable pub begin_load : Job → UsersPage → UsersPage
begin_load job p = record p { loading_users = true; jobs = job ∷ p.jobs }

abbrev pub update_of : UsersPage → UpdateAdminUserRequest
update_of p = record {
  username = some (trimmed p.editing_username);
  email = some (trimmed p.editing_email);
  role = some p.editing_role;
  is_active = some p.editing_is_active;
}

abbrev pub save_of : Option UserRow → UsersPage → UsersPage
save_of none p = p
save_of (some row) p = if p.saving_user then p else record p {
  saving_user = true;
  feedback = none;
  jobs = saving row.account.id (update_of p) ∷ p.jobs;
}

abbrev pub lacks_account : UsersPage → Bool
lacks_account p =
    str_eq (trimmed p.create_username) ""
    || str_eq (trimmed p.create_email) ""
    || ltb (units (trimmed p.create_password)) 8

abbrev pub creation_of : UsersPage → CreateAdminUserRequest
creation_of p = record {
  username = trimmed p.create_username;
  email = trimmed p.create_email;
  password = p.create_password;
  role = some p.create_role;
  is_active = some p.create_is_active;
}

unfoldable pub begin_create : UsersPage → UsersPage
begin_create p =
    if p.creating_user
    then p
    else (if lacks_account p
        then record p {
          feedback =
              told error
                "Username, email, and an 8+ character password are required to create an account.";
        }
        else record p {
          creating_user = true;
          feedback = none;
          jobs = creating (creation_of p) ∷ p.jobs;
        })

abbrev pub reset_of : Option UserRow → UsersPage → UsersPage
reset_of none p = p
reset_of (some row) p =
    if p.resetting_password
    then p
    else (if ltb (units (trimmed p.new_password)) 8
        then record p { feedback = told error "New password must be at least 8 characters." }
        else record p {
          resetting_password = true;
          feedback = none;
          jobs = resetting row.account.id p.new_password ∷ p.jobs;
        })

-- `confirmed` is the answer of `window.confirm`, where it is asked.
abbrev pub delete_of : Bool → Option UserRow → UsersPage → UsersPage
delete_of confirmed none p = p
delete_of confirmed (some row) p =
    if p.deleting_user
    then p
    else (if row.account.is_main_admin
        then record p { feedback = told error "The main admin account cannot be deleted." }
        else (if not confirmed then p else record p {
          deleting_user = true;
          feedback = none;
          jobs = deleting row.account ∷ p.jobs;
        }))

-- `fold` is `toLowerCase`.
module _ (fold : String → String) where
  abbrev pub matches : String → AdminUserAccount → Bool
  matches q a =
      str_eq q ""
      || contains (codes q) (codes (fold a.username))
      || contains (codes q) (codes (fold a.email))

  unfoldable pub filtered_users : UsersPage → List UserRow
  filtered_users p =
      filter
        (λ row.
          matches (fold (trimmed p.search)) row.account
          && has_role p.role_filter row.account
          && has_status p.status_filter row.account)
        p.users

  unfoldable pub selected_user : UsersPage → Option UserRow
  unfolding filtered_users
  selected_user p =
      or_first (find (has_id p.selected_user_id) (filtered_users p)) (filtered_users p)

  -- Behind each render the effect on the selected user runs, if that is another object.
  unfoldable pub settle : UsersPage → UsersPage
  unfolding selected_user
  settle p = if same_object p.shown (selected_user p) then p else fill_form (selected_user p) p

  unfoldable pub begin_save : UsersPage → UsersPage
  unfolding selected_user
  begin_save p = save_of (selected_user p) p

  unfoldable pub begin_reset : UsersPage → UsersPage
  unfolding selected_user
  begin_reset p = reset_of (selected_user p) p

  unfoldable pub begin_delete : Bool → UsersPage → UsersPage
  unfolding selected_user
  begin_delete confirmed p = delete_of confirmed (selected_user p) p

-- `shown` is how the page renders a message that is not a text.
module _ (shown : Json → String) where
  -- `loadUsers` behind it.
  unfoldable pub finish_load : Result (List AdminUserAccount) → List Job → UsersPage → UsersPage
  finish_load (ok accounts) rest p = record p {
    users = numbered p.objects accounts;
    objects = p.objects + count_of accounts;
    selected_user_id = kept_or_first p.selected_user_id (numbered p.objects accounts);
    loading_users = false;
    jobs = rest;
  }
  finish_load (raise e) rest p = record p {
    feedback = told error (api_error_message shown "Failed to load users." e);
    users = [];
    selected_user_id = "";
    loading_users = false;
    jobs = rest;
  }

  unfoldable pub finish_save : Result AdminUserAccount → List Job → UsersPage → UsersPage
  finish_save (ok a) rest p = record p {
    users = map (replaced (record { object = p.objects; account = a })) p.users;
    objects = p.objects + 1;
    feedback = told success "User updated successfully.";
    saving_user = false;
    jobs = rest;
  }
  finish_save (raise e) rest p = record p {
    feedback = told error (api_error_message shown "Failed to update user." e);
    saving_user = false;
    jobs = rest;
  }

  unfoldable pub finish_create : Result AdminUserAccount → List Job → UsersPage → UsersPage
  finish_create (ok a) rest p = record p {
    users = p.users ++ (record { object = p.objects; account = a } ∷ []);
    objects = p.objects + 1;
    selected_user_id = a.id;
    create_username = "";
    create_email = "";
    create_password = "";
    create_role = user;
    create_is_active = true;
    feedback = told success "User account created.";
    creating_user = false;
    jobs = rest;
  }
  finish_create (raise e) rest p = record p {
    feedback = told error (api_error_message shown "Failed to create user account." e);
    creating_user = false;
    jobs = rest;
  }

  unfoldable pub finish_reset : Result AdminActionResponse → List Job → UsersPage → UsersPage
  finish_reset (ok res) rest p = record p {
    new_password = "";
    feedback = told success "Password reset successfully.";
    resetting_password = false;
    jobs = rest;
  }
  finish_reset (raise e) rest p = record p {
    feedback = told error (api_error_message shown "Failed to reset password." e);
    resetting_password = false;
    jobs = rest;
  }

  -- Behind `deleteUser`: the list is loaded again, and `deletingUser` is kept until it is.
  unfoldable pub finish_delete : Result AdminActionResponse → List Job → UsersPage → UsersPage
  unfolding begin_load
  finish_delete (ok res) rest p = begin_load reloading (record p { jobs = rest })
  finish_delete (raise e) rest p = record p {
    feedback = told error (api_error_message shown "Failed to delete user." e);
    deleting_user = false;
    jobs = rest;
  }

  unfoldable pub finish_reload : Result (List AdminUserAccount) → List Job → UsersPage → UsersPage
  unfolding finish_load
  finish_reload res rest p = record (finish_load res rest p) {
    feedback = told success "User deleted.";
    deleting_user = false;
  }
