-- ===== src/Ui/Store.antt =====
-- The store and its actions. What `applyAccentTheme` writes to the document is computed from the theme
-- alone, and the theme stands for it.
use mc_service.Prelude.{
  String, Option, none, some, List, [], ◌∷◌, Bool, true, false, str_eq, if◌then◌else◌,
}
use mc_service.Platform.{Platform, Storage, get_item, set_item}

pub record AccentTheme : Type 0 where
  pub id : String
  pub name : String
  pub accent : String
  pub accent_hover : String
  pub accent_muted : String
  pub accent_soft : String

pub data UiDensity : Type 0 where
  comfortable balanced compact : UiDensity

abbrev theme : String → String → String → String → String → String → AccentTheme
theme id name accent hover muted soft = record {
  id = id;
  name = name;
  accent = accent;
  accent_hover = hover;
  accent_muted = muted;
  accent_soft = soft;
}

abbrev pub default_theme : AccentTheme
default_theme = theme "glacier" "Glacier" "#4ea8ff" "#74bbff" "#4ea8ff36" "#b8dbff"

abbrev pub accent_themes : List AccentTheme
accent_themes =
    theme "sunset-pop" "Sunset Pop" "#ff5f87" "#ff7f9f" "#ff5f8738" "#ffb7ca"
    ∷ default_theme
    ∷ theme "emerald-glow" "Emerald Glow" "#35c98d" "#57d7a3" "#35c98d36" "#b9edd8"
    ∷ theme "solar-gold" "Solar Gold" "#f8b84f" "#ffca76" "#f8b84f3b" "#ffe4b4"
    ∷ theme "electric-indigo" "Electric Indigo" "#7f7bff" "#9b97ff" "#7f7bff36" "#ceccff"
    ∷ []

abbrev pub density_id : UiDensity → String
density_id comfortable = "comfortable"
density_id balanced = "balanced"
density_id compact = "compact"

abbrev pub density_options : List UiDensity
density_options = comfortable ∷ balanced ∷ compact ∷ []

abbrev pub default_accent_id : String
default_accent_id = "glacier"

abbrev pub default_locale : String
default_locale = "en"

abbrev pub accent_storage_key : String
accent_storage_key = "player_accent_theme"

abbrev pub locale_storage_key : String
locale_storage_key = "player_locale"

abbrev pub density_storage_key : String
density_storage_key = "player_ui_density"

-- `accentThemes.find((theme) => theme.id === id)`
unfoldable pub find_theme : String → List AccentTheme → Option AccentTheme
find_theme id [] = none
find_theme id (t ∷ ts) = if str_eq t.id id then some t else find_theme id ts

abbrev pub or_theme : Option AccentTheme → AccentTheme → AccentTheme
or_theme none t = t
or_theme (some s) t = s

-- The last operand of the source, `accentThemes[0]`, is not reached: the default is in the list.
unfoldable pub get_accent_theme : String → AccentTheme
get_accent_theme id = or_theme (find_theme id accent_themes) default_theme

unfoldable pub find_density : String → List UiDensity → Option UiDensity
find_density value [] = none
find_density value (d ∷ ds) = if str_eq (density_id d) value then some d else find_density value ds

abbrev pub or_balanced : Option UiDensity → UiDensity
or_balanced none = balanced
or_balanced (some d) = d

unfoldable pub get_density : Option String → UiDensity
get_density none = balanced
get_density (some value) = or_balanced (find_density value density_options)

pub record UiState : Type 0 where
  pub accent_theme_id : String
  pub locale : String
  pub density : UiDensity

-- The document's root: the theme whose properties it has, and `data-ui-density`.
pub record Document : Type 0 where
  pub theme : Option AccentTheme
  pub density : Option UiDensity

pub record UiWorld : Type 0 where
  pub ui : UiState
  pub document : Document
  pub storage : Storage

abbrev pub initial_ui : UiState
initial_ui = record {
  accent_theme_id = default_accent_id;
  locale = default_locale;
  density = balanced;
}

-- A page that is loaded with a storage.
abbrev pub fresh_page : Storage → UiWorld
fresh_page storage = record {
  ui = initial_ui;
  document = record { theme = none; density = none };
  storage = storage;
}

abbrev pub or_text : Option String → String → String
or_text none d = d
or_text (some s) d = s

unfoldable pub restored : Storage → UiState
restored storage = record {
  accent_theme_id =
      (get_accent_theme (or_text (get_item accent_storage_key storage) default_accent_id)).id;
  locale = or_text (get_item locale_storage_key storage) default_locale;
  density = get_density (get_item density_storage_key storage);
}

module _ (browser : Platform) where
  -- `localStorage.setItem(key, value); set(state)`, where the first may throw; with whether it did
  -- not.
  unfoldable pub save : String → String → UiState → UiWorld → Bool × UiWorld
  save key value ui w =
      if browser.accepts w.storage key value
      then (true, record w { storage = set_item key value w.storage; ui = ui })
      else (false, w)

  unfoldable pub apply_accent_theme : String → UiWorld → UiWorld
  apply_accent_theme id w =
      if browser.has_window
      then record w { document = record w.document { theme = some (get_accent_theme id) } }
      else w

  unfoldable pub apply_density : UiDensity → UiWorld → UiWorld
  apply_density d w =
      if browser.has_window
      then record w { document = record w.document { density = some d } }
      else w

  unfoldable pub set_accent_theme : String → UiWorld → Bool × UiWorld
  set_accent_theme id w =
      let t = get_accent_theme id in
      save accent_storage_key t.id (record w.ui { accent_theme_id = t.id })
        (apply_accent_theme t.id w)

  unfoldable pub set_locale : String → UiWorld → Bool × UiWorld
  set_locale locale w = save locale_storage_key locale (record w.ui { locale = locale }) w

  unfoldable pub set_density : UiDensity → UiWorld → Bool × UiWorld
  set_density density w =
      let next = get_density (some (density_id density)) in
      save density_storage_key (density_id next) (record w.ui { density = next })
        (apply_density next w)

  unfoldable pub initialize_ui_preferences : UiWorld → UiWorld
  unfolding restored
  initialize_ui_preferences w =
      let ui = restored w.storage in
      let shown = apply_density ui.density (apply_accent_theme ui.accent_theme_id w) in
      record shown { ui = ui }
