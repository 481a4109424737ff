-- ===== src/Catalog/Unique.antt =====
-- The ids that the lookups are made for.
use mc_service.Prelude.{
  ◌≤◌, String, ◌≡◌, ◌≢◌, sym, ◌∙◌, ◌⊎◌, inl, inr, List, [], ◌∷◌, true, false, ◌||◌, str_eq, eq_iff,
  arith, length, All, All-mono, Has, IsDistinct, Bool-cases, if_holds, refl,
}
use mathlib.Core.Bool.{false≢true}
use mc_service.Catalog.Lookup.{unique_from, unique_ids, includes}

-- An id that is wanted and not there yet.
abbrev IsNew : List String → String → Type 0
IsNew seen id = (id ≢ "") × (includes id seen ≡ false)

unique_from-IsNew : (seen ids : List String) → All (IsNew seen) (unique_from seen ids)
unfolding unique_from
unique_from-IsNew seen [] = tt
unique_from-IsNew seen (id ∷ ids) = elim (Bool-cases (str_eq id "" || includes id seen)) [
  | inl skip ↦ rw skip (unique_from-IsNew seen ids)
  | inr take_it ↦ rw take_it (
    ((λ e. ground (arith, eq_iff id "")), ground arith),
    All-mono (IsNew (id ∷ seen)) (IsNew seen) (unique_from (id ∷ seen) ids)
        (λ x h. (h.0, ground (arith, h.1))) (unique_from-IsNew (id ∷ seen) ids),
  )
]

unique_from-IsDistinct : (seen ids : List String) → IsDistinct (unique_from seen ids)
unfolding unique_from
unique_from-IsDistinct seen [] = tt
unique_from-IsDistinct seen (id ∷ ids) = elim (Bool-cases (str_eq id "" || includes id seen)) [
  | inl skip ↦ rw skip (unique_from-IsDistinct seen ids)
  | inr take_it ↦ rw take_it (
    All-mono (IsNew (id ∷ seen)) (λ y. y ≢ id) (unique_from (id ∷ seen) ids)
        (λ x h e. ground (arith, h.1, eq_iff id x, sym e)) (unique_from-IsNew (id ∷ seen) ids),
    unique_from-IsDistinct (id ∷ seen) ids,
  )
]

pub unique_from-length : (seen ids : List String) → length (unique_from seen ids) ≤ length ids
unfolding unique_from
unique_from-length seen [] = omega arith
unique_from-length seen (id ∷ ids) =
    ground (arith, unique_from-length seen ids, unique_from-length (id ∷ seen) ids)

unique_from-Has :
    (seen ids : List String) (x : String)
    → Has x ids
    → x ≢ ""
    → (includes x seen ≡ true) ⊎ Has x (unique_from seen ids)
unfolding unique_from
unique_from-Has seen [] x h wanted = elim h [ ]
unique_from-Has seen (id ∷ ids) x (inl same) wanted =
    elim (Bool-cases (str_eq id "" || includes id seen)) [
      | inl skip ↦ inl (rw (sym same) (known id seen skip (λ e. wanted (sym same ∙ e))))
      | inr take_it ↦ rw take_it (inr (inl same))
    ]
  where
    known :
        (id : String) (seen : List String)
        → (str_eq id "" || includes id seen) ≡ true
        → id ≢ ""
        → includes id seen ≡ true
    known id seen e ne = ground (arith, eq_iff id "", ne)
unique_from-Has seen (id ∷ ids) x (inr later) wanted =
    elim (Bool-cases (str_eq id "" || includes id seen)) [
      | inl skip ↦ rw skip (unique_from-Has seen ids x later wanted)
      | inr take_it ↦ rw take_it (elim (unique_from-Has (id ∷ seen) ids x later wanted) [
        | inr there ↦ inr (inr there)
        | inl known ↦ elim (Bool-cases (str_eq id x)) [
          | inl same ↦ inr (inl ((eq_iff id x).0 same))
          | inr other ↦ inl (ground arith)
        ]
      ])
    ]

-- Every id of the list that is not empty is among those that the lookups are made for.
pub unique_ids-Has :
    (ids : List String) (id : String) → Has id ids → id ≢ "" → Has id (unique_ids ids)
unique_ids-Has ids id h wanted = elim (unique_from-Has [] ids id h wanted) [
  | inl e ↦ absurd (false≢true e)
  | inr there ↦ there
]

-- Each id is one of the list.
all_given : (ids : List String) → All (λ id. Has id ids) ids
all_given [] = tt
all_given (id ∷ ids) =
    (inl refl, All-mono (λ x. Has x ids) (λ x. Has x (id ∷ ids)) ids (λ x h. inr h) (all_given ids))

unique_from-given :
    (all seen ids : List String)
    → All (λ id. Has id all) ids
    → All (λ id. Has id all) (unique_from seen ids)
unfolding unique_from
unique_from-given all seen [] h = tt
unique_from-given all seen (id ∷ ids) h =
    if_holds (All (λ x. Has x all)) (str_eq id "" || includes id seen) _ _
      (λ _. unique_from-given all seen ids h.1)
      (λ _. (h.0, unique_from-given all (id ∷ seen) ids h.1))

covered :
    (all ids : List String)
    → All (λ id. Has id all) ids
    → All (λ id. (id ≡ "") ⊎ Has id (unique_ids all)) ids
covered all [] h = tt
covered all (id ∷ ids) h = (
  elim (Bool-cases (str_eq id "")) [
    | inl empty ↦ inl ((eq_iff id "").0 empty)
    | inr other ↦ inr (unique_ids-Has all id h.0 (λ e. ground (arith, eq_iff id "")))
  ],
  covered all ids h.1,
)

-- The lookups are made for each id once: the ids they are made for do not repeat, are not empty, are
-- no more than the list has, and are ids of the list; and each id of the list is empty or one of them.
pub unique_ids-IsDistinct :
    (ids : List String)
    → IsDistinct (unique_ids ids)
      × All (λ id. id ≢ "") (unique_ids ids)
      × (length (unique_ids ids) ≤ length ids)
      × All (λ id. Has id ids) (unique_ids ids)
      × All (λ id. (id ≡ "") ⊎ Has id (unique_ids ids)) ids
unique_ids-IsDistinct ids = (
  unique_from-IsDistinct [] ids,
  All-mono (IsNew []) (λ id. id ≢ "") (unique_ids ids) (λ id h. h.0) (unique_from-IsNew [] ids),
  unique_from-length [] ids,
  unique_from-given ids [] ids (all_given ids),
  covered ids ids (all_given ids),
)
