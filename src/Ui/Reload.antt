-- ===== src/Ui/Reload.antt =====
-- The preferences survive a reload of the page, and the document shows them.
use mc_service.Prelude.{String, ◌≡◌, refl, ap, ◌∙◌, Bool-cases, inl, inr, some, Bool, true}
use mathlib.Core.Bool.{false≢true}
use mc_service.Platform.{Platform, Storage, get_item, set_item}
use mc_service.Platform.Laws.{get_item-set_item}
use mc_service.Ui.Store.{
  UiDensity, comfortable, balanced, compact, UiState, UiWorld, get_accent_theme, get_density,
  find_density, density_id, fresh_page, save, apply_accent_theme, apply_density, set_accent_theme,
  set_locale, set_density, restored, initialize_ui_preferences, accent_storage_key,
  locale_storage_key, density_storage_key,
}
use mc_service.Ui.Stored.{IsStored, theme_again, theme_cases, density_cases, locale_cases}

-- The choices that a user has.
pub data Choice : Type 0 where
  theme : String → Choice
  locale : String → Choice
  density : UiDensity → Choice

module _ (browser : Platform) where
  abbrev pub choose : Choice → UiWorld → Bool × UiWorld
  choose (theme id) = set_accent_theme browser id
  choose (locale l) = set_locale browser l
  choose (density d) = set_density browser d

  -- A reload finds the state of the store, and the document shows it.
  pub record IsKept (w : UiWorld) : Type 0 where
    pub reloaded : (initialize_ui_preferences browser (fresh_page w.storage)).ui ≡ w.ui
    pub theme_shown : w.document.theme ≡ some (get_accent_theme w.ui.accent_theme_id)
    pub density_shown : w.document.density ≡ some w.ui.density

density_again : (d : UiDensity) → get_density (some (density_id d)) ≡ d
unfolding get_density find_density
density_again comfortable = refl
density_again balanced = refl
density_again compact = refl

restored_theme :
    (id : String) (storage : Storage)
    → restored (set_item accent_storage_key id storage)
      ≡ record (restored storage) { accent_theme_id = (get_accent_theme id).id }
unfolding restored
restored_theme id storage = simp get_item-set_item

restored_locale :
    (l : String) (storage : Storage)
    → restored (set_item locale_storage_key l storage) ≡ record (restored storage) { locale = l }
unfolding restored
restored_locale l storage = simp get_item-set_item

restored_density :
    (d : UiDensity) (storage : Storage)
    → restored (set_item density_storage_key (density_id d) storage)
      ≡ record (restored storage) { density = d }
unfolding restored
restored_density d storage = simp (get_item-set_item, density_again)

module _ (browser : Platform) (window : browser.has_window ≡ true) where
  applied_theme :
      (id : String) (w : UiWorld)
      → apply_accent_theme browser id w
        ≡ record w { document = record w.document { theme = some (get_accent_theme id) } }
  unfolding apply_accent_theme
  applied_theme id w = simp window

  applied_density :
      (d : UiDensity) (w : UiWorld)
      → apply_density browser d w ≡ record w { document = record w.document { density = some d } }
  unfolding apply_density
  applied_density d w = simp window

  saved_state :
      (key value : String) (ui : UiState) (w : UiWorld)
      → (save browser key value ui w).0 ≡ true
      → (save browser key value ui w).1
        ≡ record w { storage = set_item key value w.storage; ui = ui }
  unfolding save
  saved_state key value ui w e = elim (Bool-cases (browser.accepts w.storage key value)) [
    | inl room ↦ rw room refl
    | inr full ↦ absurd (false≢true (rw full at e))
  ]

  -- Every choice keeps the preferences: a reload of the page finds the state of the store, and the
  -- document shows it. This holds in a browser with a document, where it did so before, and where
  -- the storage takes the choice.
  pub choose-IsKept :
      (c : Choice) (w : UiWorld)
      → (choose browser c w).0 ≡ true
      → IsKept browser w
      → IsKept browser (choose browser c w).1
  unfolding set_accent_theme set_locale set_density initialize_ui_preferences
  choose-IsKept (theme id) w saved k =
      rw (saved_state _ _ _ _ saved, applied_theme (get_accent_theme id).id w)
        (record {
          reloaded =
              restored_theme (get_accent_theme id).id w.storage
              ∙ rw (theme_again id) (
                  ap (λ (u : UiState). record u { accent_theme_id = (get_accent_theme id).id })
                    k.reloaded);
          theme_shown = refl;
          density_shown = k.density_shown;
        })
  choose-IsKept (locale l) w saved k = rw (saved_state _ _ _ _ saved) (record {
    reloaded =
        restored_locale l w.storage ∙ ap (λ (u : UiState). record u { locale = l }) k.reloaded;
    theme_shown = k.theme_shown;
    density_shown = k.density_shown;
  })
  choose-IsKept (density d) w saved k =
      rw (saved_state _ _ _ _ saved, density_again d, applied_density d w)
        (record {
          reloaded =
              restored_density d w.storage
              ∙ ap (λ (u : UiState). record u { density = d }) k.reloaded;
          theme_shown = k.theme_shown;
          density_shown = refl;
        })

  -- The page that shows the stored preferences.
  shown-IsStored :
      (storage : Storage)
      → IsStored storage (record {
        ui = restored storage;
        document = record {
          theme = some (get_accent_theme (restored storage).accent_theme_id);
          density = some (restored storage).density;
        };
        storage = storage;
      })
  unfolding restored
  shown-IsStored storage = record {
    theme = elim (theme_cases (get_item accent_storage_key storage)) [
      | inl (t, e, h, s) ↦ inl (t, e, h, ap some (theme_again _ ∙ s), ap (λ u. u.id) s)
      | inr (u, s) ↦ inr (u, ap some (theme_again _ ∙ s), ap (λ u. u.id) s)
    ];
    locale = locale_cases (get_item locale_storage_key storage);
    density = elim (density_cases (get_item density_storage_key storage)) [
      | inl (d, e, s) ↦ inl (d, e, ap some s, s)
      | inr (u, s) ↦ inr (u, ap some s, s)
    ];
  }

  -- A page shows the stored preferences after it is loaded: a stored theme or density that there is,
  -- else the default one, in the store and in the document, and a stored locale, else English; and
  -- another reload finds the same ones. This holds in a browser with a document.
  pub initialize_ui_preferences-IsKept :
      (storage : Storage)
      → IsKept browser (initialize_ui_preferences browser (fresh_page storage))
        × IsStored storage (initialize_ui_preferences browser (fresh_page storage))
  unfolding initialize_ui_preferences
  initialize_ui_preferences-IsKept storage =
      rw (applied_theme (restored storage).accent_theme_id (fresh_page storage)) (
        rw (applied_density (restored storage).density _) (
          record { reloaded = refl; theme_shown = refl; density_shown = refl },
          shown-IsStored storage,
        ))
