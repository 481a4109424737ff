-- ===== src/Tests/Ui.antt =====
-- A choice of a theme.
use mc_service.Prelude.{none, [], ◌∷◌, true, refl}
use mc_service.Platform.{Platform}
use mc_service.Ui.Store.{UiWorld, fresh_page, initialize_ui_preferences, set_accent_theme, save}
use mc_service.Ui.Reload as R
use mc_service.Ui.Stored.{IsStored}
use mc_service.Ui.Reload.{IsKept, choose, choose-IsKept, initialize_ui_preferences-IsKept}

abbrev browser : Platform
browser = record {
  has_window = true;
  accepts = λ _ _ _. true;
  parse = λ _. none;
  stringify = λ _. "";
  atob = λ _. none;
  to_number = λ _. none;
}

abbrev page : UiWorld
page = initialize_ui_preferences browser (fresh_page [])

choose-IsKept_example : IsKept browser (choose browser (R.theme "solar-gold") page).1
unfolding set_accent_theme save
choose-IsKept_example =
    choose-IsKept browser refl (R.theme "solar-gold") page refl
      (initialize_ui_preferences-IsKept browser refl []).0

initialize_ui_preferences-IsKept_example :
    IsKept browser (initialize_ui_preferences browser (fresh_page (("player_locale", "fr") ∷ [])))
    × IsStored
        (("player_locale", "fr") ∷ [])
        (initialize_ui_preferences browser (fresh_page (("player_locale", "fr") ∷ [])))
initialize_ui_preferences-IsKept_example =
    initialize_ui_preferences-IsKept browser refl (("player_locale", "fr") ∷ [])
