-- ===== src/Json.antt =====
-- The values that `JSON.parse` returns, and what a member access reads of them. Numbers are whole;
-- the codec itself is the browser's, and enters as the fields of `Platform`.
use mc_service.Prelude.{String, Option, none, some, List, [], ◌∷◌, Bool, if◌then◌else◌, str_eq}
use mc_service.Prelude.Int.{ℤ}

mutual
  pub data Json : Type 0 where
    null : Json
    bool : Bool → Json
    num : ℤ → Json
    str : String → Json
    arr : Items → Json
    obj : Fields → Json

  pub data Items : Type 0 where
    nil : Items
    cons : Json → Items → Items

  pub data Fields : Type 0 where
    end : Fields
    field : String → Json → Fields → Fields

-- `fields[key]`; `none` is `undefined`.
unfoldable pub member : String → Fields → Option Json
member key end = none
member key (field k v rest) = if str_eq k key then some v else member key rest

-- `value[key]` on a parsed value: an array or a primitive has none of the keys that are read here.
unfoldable pub get : String → Json → Option Json
unfolding member
get key (obj fields) = member key fields
get key _ = none

-- An array literal of values.
abbrev pub of_list : List Json → Items
of_list [] = nil
of_list (x ∷ xs) = cons x (of_list xs)
