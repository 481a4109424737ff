-- ===== src/Player/State.antt =====
-- The player store's state. A track is a JSON object with a text `id` and `title`, the two members
-- that the store reads; `members` holds them and all others. Seconds and the volume are counted in
-- thousandths.
use mc_service.Prelude.{
  ℕ, zero, suc, String, Option, none, some, List, [], ◌∷◌, Bool, if◌then◌else◌,
}
use mc_service.Prelude.Int.{ℤ, pos, negsuc}
use mc_service.Json.{Fields}
use mc_service.Platform.{Storage}

pub record Track : Type 0 where
  pub id : String
  pub title : String
  pub members : Fields

pub data RepeatMode : Type 0 where
  off all one : RepeatMode

-- An entry `none` of the history is `undefined`.
pub record PlayerState : Type 0 where
  pub current_track : Option Track
  pub queue : List Track
  pub queue_index : ℤ
  pub recently_played : List (Option Track)
  pub is_playing : Bool
  pub volume : ℤ
  pub current_time : ℤ
  pub duration : ℤ
  pub shuffle : Bool
  pub repeat : RepeatMode

-- The store, and the browser's storage that it writes.
pub record World : Type 0 where
  pub player : PlayerState
  pub storage : Storage

module _ {ℓ} {A : Type ℓ} where
  -- `xs.findIndex(test)`, counting from `i`.
  unfoldable pub find_index_from : ℕ → (A → Bool) → List A → ℤ
  find_index_from i test [] = negsuc 0
  find_index_from i test (x ∷ xs) = if test x then pos i else find_index_from (suc i) test xs

  abbrev pub find_index : (A → Bool) → List A → ℤ
  find_index = find_index_from 0

  -- `xs[index]`; `none` is `undefined`.
  abbrev pub at : List A → ℤ → Option A
  at [] _ = none
  at (x ∷ xs) (negsuc n) = none
  at (x ∷ xs) (pos zero) = some x
  at (x ∷ xs) (pos (suc i)) = at xs (pos i)
