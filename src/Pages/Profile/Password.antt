-- ===== src/Pages/Profile/Password.antt =====
-- Changing the password: what is sent, and when the form is cleared.
use mc_service.Prelude.{◌+◌, ◌≤◌, ◌≡◌, ◌≢◌, Option, none, some, length, trimmed}
use mc_service.Json.{Json}
use mc_service.Platform.{Platform}
use mc_service.Session.State.{Server, Failure, ok, raise, World}
use mc_service.Pages.Attempts.{Tries}
use mc_service.Pages.Profile.Defs.{password_attempts}
use mc_service.Pages.Profile.State.{ProfilePage, empty_password}

module _ (browser : Platform) (server : Server) where
  -- The new password is not blank, and it is confirmed.
  abbrev pub IsConfirmed : ProfilePage → Type 0
  IsConfirmed p =
      (trimmed p.password_form.new_password ≢ "")
      × (p.password_form.new_password ≡ p.password_form.confirm_password)

  -- How changing the password ended: nothing was sent; or the endpoints that were tried were all
  -- missing, or the last of them failed; or one has answered.
  pub data IsCareful (p : ProfilePage) (w : World) (r : ProfilePage × World) : Type 0 where
    unsent : r.1 ≡ w → r.0.password_form ≡ p.password_form → IsCareful p w r
    missing :
        IsConfirmed p
        → length r.1.sent ≤ length w.sent + 9
        → Tries (password_attempts browser server p.password_form) w (ok none, r.1)
        → r.0.password_form ≡ p.password_form
        → IsCareful p w r
    failed :
        (x : Failure)
        → IsConfirmed p
        → length r.1.sent ≤ length w.sent + 9
        → Tries (password_attempts browser server p.password_form) w (raise x, r.1)
        → r.0.password_form ≡ p.password_form
        → IsCareful p w r
    changed :
        (reply : Option Json)
        → IsConfirmed p
        → length r.1.sent ≤ length w.sent + 9
        → Tries (password_attempts browser server p.password_form) w (ok (some reply), r.1)
        → r.0.password_form ≡ empty_password
        → IsCareful p w r
