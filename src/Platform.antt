-- ===== src/Platform.antt =====
-- The browser beneath the player: `localStorage`, whether there is a window, and the JSON codec.
-- Used by web/apps/player/src/stores and web/packages/shared/src.
pub mod Laws
use mc_service.Prelude.{ℕ, String, Option, none, some, List, [], ◌∷◌, Bool, if◌then◌else◌, str_eq}
use mc_service.Prelude.Int.{ℤ}
use mc_service.Json.{Json}

-- `localStorage`: keys and texts.
abbrev pub Storage : Type 0
Storage = List (String × String)

-- `localStorage.getItem(key)`; `none` is `null`.
unfoldable pub get_item : String → Storage → Option String
get_item key [] = none
get_item key ((k, v) ∷ rest) = if str_eq k key then some v else get_item key rest

-- `localStorage.setItem(key, value)`, where it does not throw.
unfoldable pub set_item : String → String → Storage → Storage
set_item key value [] = (key, value) ∷ []
set_item key value ((k, v) ∷ rest) =
    if str_eq k key then (key, value) ∷ rest else (k, v) ∷ set_item key value rest

-- `localStorage.removeItem(key)`.
unfoldable pub remove_item : String → Storage → Storage
remove_item key [] = []
remove_item key ((k, v) ∷ rest) =
    let others = remove_item key rest in if str_eq k key then others else (k, v) ∷ others

-- What the browser decides.
pub record Platform : Type 0 where
  -- `typeof window !== "undefined"`
  pub has_window : Bool
  -- `setItem` of a key and a text does not throw (storage quota)
  pub accepts : Storage → String → String → Bool
  -- `JSON.parse`; `none` is an exception
  pub parse : String → Option Json
  -- `JSON.stringify`
  pub stringify : Json → String
  -- `atob` on a text given by its code points; `none` is an exception
  pub atob : List ℕ → Option String
  -- the number that `<=` makes of a value; `none` is NaN
  pub to_number : Json → Option ℤ
