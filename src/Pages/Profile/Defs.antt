-- ===== src/Pages/Profile/Defs.antt =====
-- The handlers of the page from the start to their end, with no other one in between.
use mc_service.Prelude.{
  String, Option, none, some, List, [], ◌∷◌, Bool, true, false, not, if◌then◌else◌, str_eq, trimmed,
}
use mc_service.Json.{Json, str, obj, field, end}
use mc_service.Platform.{Platform}
use mc_service.Session.State.{
  Server, Result, ok, raise, World, M, ◌>>=◌, ◌>>◌, return, modify, user_key, store,
}
use mc_service.Session.Client.{api_post, api_put, api_delete, if_truthy}
use mc_service.Session.Auth.{logout}
use mc_service.Catalog.Types.{CatalogViews}
use mc_service.Catalog.Operations.{list_tracks, list_albums, list_artists}
use mc_service.Pages.Attempts.{run_api_mutation}
use mc_service.Pages.Profile.Legal.{LegalDocuments, fetch_legal_docs}
use mc_service.Pages.Profile.State.{
  ServerStats, PasswordForm, ProfilePage, empty_password, told, failed, joined, end_meta, success,
  error,
}

abbrev one_item : List (String × Option String)
one_item = ("page", some "1") ∷ ("page_size", some "1") ∷ []

abbrev pub profile_body : ProfilePage → Json
profile_body p =
    obj (field "username" (str (trimmed p.username)) (field "email" (str (trimmed p.email)) end))

unfoldable pub end_save : Result Bool → ProfilePage → ProfilePage
unfolding failed
end_save (ok false) p = record p {
  profile_status = told error "Profile update endpoint is not available on this server yet.";
}
end_save (ok true) p = record p { profile_status = told success "Profile updated successfully." }
end_save (raise e) p = record p { profile_status = failed "Failed to update profile." e }

abbrev pub password_body : PasswordForm → Json
password_body form = obj (
    field "current_password" (str form.current_password)
      (field "new_password" (str form.new_password) end))

unfoldable pub end_password : Result (Option (Option Json)) → ProfilePage → ProfilePage
unfolding failed
end_password (ok none) p = record p {
  password_status = told error "Password change endpoint is not available on this server yet.";
}
end_password (ok (some reply)) p = record p {
  password_form = empty_password;
  password_status = told success "Password updated successfully.";
}
end_password (raise e) p = record p { password_status = failed "Failed to update password." e }

-- The checks of the form: what is wrong with it.
unfoldable pub password_fault : PasswordForm → Option String
password_fault form =
    if str_eq (trimmed form.new_password) ""
    then some "New password cannot be empty."
    else (if not (str_eq form.new_password form.confirm_password)
        then some "New password and confirmation must match."
        else none)

unfoldable pub end_delete : Result Bool → ProfilePage → ProfilePage
unfolding failed
end_delete (ok false) p = record p {
  account_status = told error "Delete account endpoint is not available on this server yet.";
}
end_delete (ok true) p = record p { account_status = none }
end_delete (raise e) p = record p { account_status = failed "Failed to delete account." e }

-- `confirmation` is the answer of `window.prompt`; `none` is null.
abbrev is_confirmed : Option String → Bool
is_confirmed none = false
is_confirmed (some text) = str_eq text "DELETE"

module _ (browser : Platform) (server : Server) where
  unfoldable pub page_meta : CatalogViews → M (ServerStats × LegalDocuments)
  page_meta views = do
    tracks ← list_tracks views browser server one_item
    albums ← list_albums views browser server one_item
    artists ← list_artists views browser server one_item
    docs ← fetch_legal_docs browser server
    return (
      record {
        total_tracks = tracks.total;
        total_albums = albums.total;
        total_artists = artists.total;
      },
      docs,
    )

  unfoldable pub load_page_meta : CatalogViews → Bool → ProfilePage → World → ProfilePage × World
  unfolding page_meta end_meta
  load_page_meta views cancelled p w =
      let (r, w') = page_meta views w in (end_meta cancelled r p, w')

  abbrev pub profile_attempts : ProfilePage → List (M (Option Json))
  profile_attempts p =
      api_put browser server "/users/me" (some (profile_body p))
      ∷ api_put browser server "/auth/me" (some (profile_body p))
      ∷ api_put browser server "/profile/me" (some (profile_body p))
      ∷ []

  -- The updated user is kept in the store and in the browser's storage; whether there is one.
  unfoldable pub keep_user : Option Json → M Bool
  keep_user none = return false
  keep_user (some user) = do
    modify (λ w. record w { user = some user })
    store browser user_key (browser.stringify user)
    return true

  unfoldable pub update_profile : ProfilePage → M Bool
  unfolding keep_user
  update_profile p = do
    updated ← run_api_mutation (profile_attempts p)
    keep_user (if_truthy (joined updated))

  unfoldable pub save_profile : ProfilePage → World → ProfilePage × World
  save_profile p w =
      let (r, w') = update_profile p w in if p.saving_profile then (p, w) else (end_save r p, w')

  abbrev pub password_attempts : PasswordForm → List (M (Option Json))
  password_attempts form =
      api_post browser server "/auth/change-password" (some (password_body form))
      ∷ api_post browser server "/users/me/password" (some (password_body form))
      ∷ api_post browser server "/account/password" (some (password_body form))
      ∷ []

  abbrev pub checked_password : Option String → ProfilePage → World → ProfilePage × World
  checked_password (some fault) p w = (record p { password_status = told error fault }, w)
  checked_password none p w =
      let (r, w') = run_api_mutation (password_attempts p.password_form) w in (end_password r p, w')

  unfoldable pub change_password : ProfilePage → World → ProfilePage × World
  unfolding password_fault end_password
  change_password p w =
      if p.saving_password then (p, w) else checked_password (password_fault p.password_form) p w

  abbrev pub delete_attempts : List (M (Option Json))
  delete_attempts =
      api_delete browser server "/users/me" ∷ api_delete browser server "/account" ∷ []

  -- A reply that is false in a test is taken for none.
  abbrev pub logout_after : Option Json → M Bool
  logout_after none = return false
  logout_after (some reply) = do modify (logout browser); return true

  unfoldable pub run_delete : M Bool
  run_delete = do
    deleted ← run_api_mutation delete_attempts
    logout_after (if_truthy (joined deleted))

  unfoldable pub delete_account : Option String → ProfilePage → World → ProfilePage × World
  unfolding run_delete end_delete
  delete_account confirmation p w =
      if p.running_account_action
      then (p, w)
      else (if not (is_confirmed confirmation)
          then (p, w)
          else (let (r, w') = run_delete w in (end_delete r p, w')))
