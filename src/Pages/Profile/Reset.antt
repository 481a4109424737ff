-- ===== src/Pages/Profile/Reset.antt =====
-- `handleResetAccount`, which goes over the session, the preferences and the player's history, and
-- the storage that they share.
use mc_service.Prelude.{
  Option, none, some, List, [], ◌∷◌, Bool, true, false, not, ◌||◌, if◌then◌else◌,
}
use mc_service.Json.{obj, end}
use mc_service.Platform.{Platform}
use mc_service.Session.State.{Server, World, M}
use mc_service.Json.{Json}
use mc_service.Session.Client.{api_post}
use mc_service.Ui.Store.{
  UiState, UiWorld, Document, balanced, default_accent_id, default_locale, set_accent_theme,
  set_locale, set_density,
}
use mc_service.Player.State.{PlayerState}
use mc_service.Player.Transport.{clear_recently_played}
use mc_service.Pages.Attempts.{run_api_mutation}
use mc_service.Pages.Profile.State.{ProfilePage, success, told}

-- The stores that the page uses; `session.storage` is the storage of all.
pub record Stores : Type 0 where
  pub session : World
  pub ui : UiState
  pub document : Document
  pub player : PlayerState

abbrev pub preferences : Stores → UiWorld
preferences s = record { ui = s.ui; document = s.document; storage = s.session.storage }

abbrev pub with_preferences : UiWorld → Stores → Stores
with_preferences u s = record s {
  session = record s.session { storage = u.storage };
  ui = u.ui;
  document = u.document;
}

-- A setter of the preferences among the other stores; `false` if it threw.
abbrev pub setting : (UiWorld → Bool × UiWorld) → Stores → Bool × Stores
setting set s = let (b, u) = set (preferences s) in (b, with_preferences u s)

-- `f(); g();`, where the first may throw.
abbrev pub and_then : Bool × Stores → (Stores → Bool × Stores) → Bool × Stores
and_then (true, s) next = next s
and_then (false, s) next = (false, s)

-- A setter that throws leaves the handler: the flag stays set, since no `finally` clears it.
abbrev pub end_reset : Bool → ProfilePage → ProfilePage
end_reset true p = record p {
  account_status =
      told success
        "Account preferences were reset. Server-side reset applies when endpoint is available.";
  running_account_action = false;
}
end_reset false p = record p { account_status = none; running_account_action = true }

module _ (browser : Platform) where
  unfoldable pub forget_history : Stores → Bool × Stores
  forget_history s =
      let w =
        clear_recently_played browser (record { player = s.player; storage = s.session.storage }) in
      (true, record s { player = w.player; session = record s.session { storage = w.storage } })

  unfoldable pub reset_locally : Stores → Bool × Stores
  unfolding forget_history
  reset_locally s =
      and_then
        (and_then
          (and_then (setting (set_accent_theme browser default_accent_id) s)
            (setting (set_locale browser default_locale)))
          (setting (set_density browser balanced)))
        forget_history

  module _ (server : Server) where
    abbrev pub reset_attempts : List (M (Option Json))
    reset_attempts =
        api_post browser server "/users/me/reset" (some (obj end))
        ∷ api_post browser server "/account/reset" (some (obj end))
        ∷ []

    -- `confirmed` is the answer of `window.confirm`. A failure of the endpoints is logged alone.
    unfoldable pub reset_account : Bool → ProfilePage → Stores → ProfilePage × Stores
    unfolding reset_locally
    reset_account confirmed p s =
        if not confirmed || p.running_account_action
        then (p, s)
        else (let (r, w) = run_api_mutation reset_attempts s.session in
            let (b, s') = reset_locally (record s { session = w }) in (end_reset b p, s'))
