-- ===== src/Pages/Profile/Deletion.antt =====
-- Deleting the account where the reply has no body.
use mc_service.Prelude.{◌≡◌, refl, ◌∙◌, if_off, none, some, false, ap}
use mc_service.Platform.{Platform}
use mc_service.Session.State.{Server, ok, World}
use mc_service.Session.Client.{api_delete}
use mc_service.Pages.Attempts.{run_api_mutation}
use mc_service.Pages.Profile.Defs.{run_delete, end_delete, delete_account}
use mc_service.Pages.Profile.State.{ProfilePage, error, told}

module _ (browser : Platform) (server : Server) where
  run_delete-no_body :
      (w v : World)
      → api_delete browser server "/users/me" w ≡ (ok none, v)
      → run_delete browser server w ≡ (ok false, v)
  unfolding run_delete run_api_mutation api_delete
  run_delete-no_body w v e = rw (e, run_delete, run_api_mutation) refl

  -- If the server deletes the account with a reply that has no body (204), the page says that it
  -- cannot delete accounts, asks no other endpoint, and does not log out: the stores and the storage
  -- are those behind the reply.
  pub delete_account-no_body :
      (p : ProfilePage) (w v : World)
      → p.running_account_action ≡ false
      → api_delete browser server "/users/me" w ≡ (ok none, v)
      → delete_account browser server (some "DELETE") p w ≡ (
        record p {
          account_status =
              told error "Delete account endpoint is not available on this server yet.";
        },
        v,
      )
  unfolding delete_account end_delete
  delete_account-no_body p w v idle e =
      if_off p.running_account_action _ _ idle
      ∙ ap (λ r. (end_delete r.0 p, r.1)) (run_delete-no_body w v e)
