-- ===== src/Sorting/Laws.antt =====
-- A sorted list is a permutation of the list, in the order of the comparator; elements that compare
-- as equal keep their order.
use mathlib.Core.List.{Perm}
use mathlib.Core.List.Perm
use mc_service.Prelude.{◌≡◌, refl, List, [], ◌∷◌, true, false, All, Bool-cases, inl, inr}
use mc_service.Prelude.Int.{ℤ, pos, ltb_ℤ}
use mc_service.Sorting.{insert, sort}

module _ {ℓ} {A : Type ℓ} (compare_fn : A → A → ℤ) where
  insert-perm : (x : A) (xs : List A) → Perm (insert compare_fn x xs) (x ∷ xs)
  unfolding insert
  insert-perm x [] = Perm.refl (x ∷ [])
  insert-perm x (y ∷ ys) = elim (Bool-cases (ltb_ℤ (pos 0) (compare_fn x y))) [
    | inl after ↦ rw after (Perm.trans (Perm.cons y (insert-perm x ys)) (Perm.swap x y ys))
    | inr before ↦ rw before (Perm.refl (x ∷ y ∷ ys))
  ]

  pub sort-perm : (xs : List A) → Perm (sort compare_fn xs) xs
  unfolding sort
  sort-perm [] = Perm.refl []
  sort-perm (x ∷ xs) = Perm.trans (insert-perm x (sort compare_fn xs)) (Perm.cons x (sort-perm xs))

  -- `x` need not follow `y`.
  abbrev pub Precedes : A → A → Type 0
  Precedes x y = ltb_ℤ (pos 0) (compare_fn x y) ≡ false

  abbrev pub IsSorted : List A → Type 0
  IsSorted [] = Unit
  IsSorted (x ∷ xs) = All (Precedes x) xs × IsSorted xs

  -- A comparator by which the elements with a property are totally preordered.
  pub record IsOrder {κ} (P : A → Type κ) : Type (ℓ ⊔ κ) where
    pub total : (x y : A) → P x → P y → ltb_ℤ (pos 0) (compare_fn x y) ≡ true → Precedes y x
    pub trans : (x y z : A) → P x → P y → P z → Precedes x y → Precedes y z → Precedes x z

  pub All-insert {κ} :
      (Q : A → Type κ) (x : A) (xs : List A) → Q x → All Q xs → All Q (insert compare_fn x xs)
  unfolding insert
  All-insert Q x [] p h = (p, tt)
  All-insert Q x (y ∷ ys) p (q, h) = elim (Bool-cases (ltb_ℤ (pos 0) (compare_fn x y))) [
    | inl after ↦ rw after (q, All-insert Q x ys p h)
    | inr before ↦ rw before (p, (q, h))
  ]

  pub All-sort {κ} : (Q : A → Type κ) (xs : List A) → All Q xs → All Q (sort compare_fn xs)
  unfolding sort
  All-sort Q [] h = tt
  All-sort Q (x ∷ xs) (p, h) = All-insert Q x (sort compare_fn xs) p (All-sort Q xs h)

  module _ {κ} (P : A → Type κ) (order : IsOrder P) where
    Precedes-All :
        (x y : A) (ys : List A)
        → P x
        → P y
        → All P ys
        → Precedes x y
        → All (Precedes y) ys
        → All (Precedes x) ys
    Precedes-All x y [] px py h p q = tt
    Precedes-All x y (z ∷ zs) px py (pz, h) p (q, k) =
        (order.trans x y z px py pz p q, Precedes-All x y zs px py h p k)

    insert-IsSorted :
        (x : A) (xs : List A) → P x → All P xs → IsSorted xs → IsSorted (insert compare_fn x xs)
    unfolding insert
    insert-IsSorted x [] p h s = (tt, tt)
    insert-IsSorted x (y ∷ ys) p (py, h) (q, s) =
        elim (Bool-cases (ltb_ℤ (pos 0) (compare_fn x y))) [
          | inl after ↦ rw after (
            All-insert (Precedes y) x ys (order.total x y p py after) q,
            insert-IsSorted x ys p h s,
          )
          | inr before ↦ rw before ((before, Precedes-All x y ys p py h before q), (q, s))
        ]

    pub sort-IsSorted : (xs : List A) → All P xs → IsSorted (sort compare_fn xs)
    unfolding sort
    sort-IsSorted [] h = tt
    sort-IsSorted (x ∷ xs) (p, h) =
        insert-IsSorted x (sort compare_fn xs) p (All-sort P xs h) (sort-IsSorted xs h)

  -- Where no element must follow another, the list keeps its order.
  pub sort_of_IsSorted : (xs : List A) → IsSorted xs → sort compare_fn xs ≡ xs
  unfolding sort insert
  sort_of_IsSorted [] h = refl
  sort_of_IsSorted (x ∷ []) h = refl
  sort_of_IsSorted (x ∷ y ∷ ys) ((b, _), h) = rw (sort_of_IsSorted (y ∷ ys) h, b)
