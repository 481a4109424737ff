-- ===== src/Sorting.antt =====
-- `Array.prototype.sort` with a comparator: stable, so every element is put before the first one that
-- it need not follow. A comparator that returns NaN counts as one that returns 0.
pub mod Laws
use mc_service.Prelude.{List, [], ◌∷◌, if◌then◌else◌}
use mc_service.Prelude.Int.{ℤ, pos, ltb_ℤ}

module _ {ℓ} {A : Type ℓ} (compare_fn : A → A → ℤ) where
  unfoldable pub insert : A → List A → List A
  insert x [] = x ∷ []
  insert x (y ∷ ys) = if ltb_ℤ (pos 0) (compare_fn x y) then y ∷ insert x ys else x ∷ y ∷ ys

  unfoldable pub sort : List A → List A
  unfolding insert
  sort [] = []
  sort (x ∷ xs) = insert x (sort xs)
