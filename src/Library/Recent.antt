-- ===== src/Library/Recent.antt =====
-- `getRecentlyAddedTrackIds`: which ids it returns, and in which order.
use mathlib.Core.Bool.{false≢true}
use mc_service.Prelude.{
  ℕ, zero, suc, ◌+◌, ◌≤◌, String, ◌≡◌, ◌≢◌, refl, sym, ◌∙◌, inl, inr, Option, some, List, [], ◌∷◌,
  true, arith, length, All, take, map, str_eq, eq_iff, ◌==◌, Bool-cases, get_elem?, All-take,
  All-map, All-mono, length-take-le, Has, IsDistinct, IsDistinct-take,
}
use mc_service.Prelude.Int.{ℤ, pos, pos_part, ltb_ℤ}
use mc_service.Sorting.{sort}
use mc_service.Sorting.Laws.{Precedes, IsSorted, All-sort, sort_of_IsSorted}
use mc_service.Playlists.{PlaylistTrack, Playlist}
use mc_service.Library.Defs.{
  negative_infinity, to_timestamp, compare_added, index_of_from, keep_first,
  recently_added_track_ids,
}

keep_first-from :
    (all : List String) (i : ℕ) (xs : List String)
    → All (λ x. i ≤ index_of_from 0 x all) (keep_first all i xs)
unfolding keep_first
keep_first-from all i [] = tt
keep_first-from all i (x ∷ xs) = elim (Bool-cases (index_of_from 0 x all == i)) [
  | inl first ↦
      rw first (ground arith, weaken (keep_first all (suc i) xs) (keep_first-from all (suc i) xs))
  | inr later ↦ rw later (weaken (keep_first all (suc i) xs) (keep_first-from all (suc i) xs))
]
  where
    weaken :
        (ys : List String)
        → All (λ y. suc i ≤ index_of_from 0 y all) ys
        → All (λ y. i ≤ index_of_from 0 y all) ys
    weaken [] h = tt
    weaken (y ∷ ys) (p, h) = (omega arith, weaken ys h)

keep_first-IsDistinct :
    (all : List String) (i : ℕ) (xs : List String) → IsDistinct (keep_first all i xs)
unfolding keep_first
keep_first-IsDistinct all i [] = tt
keep_first-IsDistinct all i (x ∷ xs) = elim (Bool-cases (index_of_from 0 x all == i)) [
  | inl first ↦ rw first (
    others (keep_first all (suc i) xs) (ground arith) (keep_first-from all (suc i) xs),
    keep_first-IsDistinct all (suc i) xs,
  )
  | inr later ↦ rw later (keep_first-IsDistinct all (suc i) xs)
]
  where
    others :
        (ys : List String)
        → index_of_from 0 x all ≡ i
        → All (λ y. suc i ≤ index_of_from 0 y all) ys
        → All (λ y. y ≢ x) ys
    others [] e h = tt
    others (y ∷ ys) e (p, h) = ((λ same. ground arith), others ys e h)

keep_first_sound :
    (P : String → Type 0) (all : List String) (i : ℕ) (xs : List String)
    → All P xs
    → All P (keep_first all i xs)
unfolding keep_first
keep_first_sound P all i [] h = tt
keep_first_sound P all i (x ∷ xs) (p, h) = elim (Bool-cases (index_of_from 0 x all == i)) [
  | inl first ↦ rw first (p, keep_first_sound P all (suc i) xs h)
  | inr later ↦ rw later (keep_first_sound P all (suc i) xs h)
]

-- The first place of an id is kept.
keep_first-Has :
    (all : List String) (x : String) (i k : ℕ) (xs : List String)
    → index_of_from 0 x all ≡ i + k
    → get_elem? xs k ≡ some x
    → Has x (keep_first all i xs)
unfolding keep_first
keep_first-Has all x i k [] e h = cc
keep_first-Has all x i zero (y ∷ ys) e h =
    let same : y ≡ x = cc in
    let first : (index_of_from 0 y all == i) ≡ true = ground arith in rw first (inl same)
keep_first-Has all x i (suc k) (y ∷ ys) e h = elim (Bool-cases (index_of_from 0 y all == i)) [
  | inl first ↦ rw first (inr (keep_first-Has all x (suc i) k ys (omega arith) h))
  | inr later ↦ rw later (keep_first-Has all x (suc i) k ys (omega arith) h)
]

index_of_from-get :
    (i : ℕ) (x : String) (xs : List String)
    → Has x xs
    → (k : ℕ) × (index_of_from i x xs ≡ i + k) × (get_elem? xs k ≡ some x)
unfolding index_of_from
index_of_from-get i x [] h = absurd h
index_of_from-get i x (y ∷ ys) h = elim (Bool-cases (str_eq y x)) [
  | inl same ↦ (0, rw same (omega arith), ground (arith, eq_iff y x))
  | inr other ↦ elim h [
    | inl same ↦ absurd (false≢true (sym other ∙ (eq_iff y x).1 same))
    | inr later ↦
        let (k, a, b) = index_of_from-get (suc i) x ys later in (suc k, rw other (omega arith), b)
  ]
]

abbrev ids : List PlaylistTrack → List String
ids = map (λ t. t.track_id)

Has-ids : (ts : List PlaylistTrack) → All (λ t. Has t.track_id (ids ts)) ts
Has-ids [] = tt
Has-ids (t ∷ ts) = (
  inl refl,
  All-mono (λ u. Has u.track_id (ids ts)) (λ u. Has u.track_id (ids (t ∷ ts))) ts (λ u h. inr h)
      (Has-ids ts),
)

module _ (date_parse : String → Option ℤ) where
  abbrev IsUndated : PlaylistTrack → Type 0
  IsUndated t = to_timestamp date_parse t.added_at ≡ negative_infinity

  undated-Precedes :
      (a : PlaylistTrack) (ts : List PlaylistTrack)
      → IsUndated a
      → All IsUndated ts
      → All (Precedes (compare_added date_parse) a) ts
  unfolding compare_added
  undated-Precedes a [] h k = tt
  undated-Precedes a (t ∷ ts) h (u, k) = (ground arith, undated-Precedes a ts h k)

  undated-IsSorted :
      (ts : List PlaylistTrack) → All IsUndated ts → IsSorted (compare_added date_parse) ts
  undated-IsSorted [] h = tt
  undated-IsSorted (t ∷ ts) (u, h) = (undated-Precedes t ts u h, undated-IsSorted ts h)

module _ (date_parse : String → Option ℤ) (playlist : Playlist) where
  -- At most `limit` ids are returned, none of them twice, and each is the id of a track of the
  -- playlist.
  pub recently_added_bounds :
      (limit : ℤ)
      → (length (recently_added_track_ids date_parse (some playlist) limit) ≤ pos_part limit)
        × IsDistinct (recently_added_track_ids date_parse (some playlist) limit)
        × All
            (λ id. Has id (map (λ t. t.track_id) playlist.tracks))
            (recently_added_track_ids date_parse (some playlist) limit)
  unfolding recently_added_track_ids
  recently_added_bounds limit = elim (Bool-cases (ltb_ℤ (pos 0) limit)) [
    | inr none_wanted ↦ rw none_wanted (omega arith, tt, tt)
    | inl wanted ↦
        let sorted = sort (compare_added date_parse) playlist.tracks in
        let P = λ (id : String). Has id (ids playlist.tracks) in
        rw wanted (
          length-take-le (pos_part limit) (keep_first (ids sorted) 0 (ids sorted)),
          IsDistinct-take (pos_part limit) (keep_first (ids sorted) 0 (ids sorted))
              (keep_first-IsDistinct (ids sorted) 0 (ids sorted)),
          All-take P (pos_part limit) (keep_first (ids sorted) 0 (ids sorted)) (
              keep_first_sound P (ids sorted) 0 (ids sorted) (
                All-map P (λ t. t.track_id) sorted
                  (All-sort (compare_added date_parse) (λ t. P t.track_id) playlist.tracks
                    (Has-ids playlist.tracks)))),
        )
  ]

  -- Where no track has a date that parses, and the limit is positive, the ids come in the order of the playlist's list,
  -- whatever the positions are.
  pub recently_added_undated :
      (limit : ℤ)
      → All (λ t. to_timestamp date_parse t.added_at ≡ negative_infinity) playlist.tracks
      → ltb_ℤ (pos 0) limit ≡ true
      → recently_added_track_ids date_parse (some playlist) limit
        ≡ take (pos_part limit) (
            keep_first
              (map (λ t. t.track_id) playlist.tracks)
              0
              (map (λ t. t.track_id) playlist.tracks))
  unfolding recently_added_track_ids
  recently_added_undated limit undated wanted = rw (
    wanted,
    sort_of_IsSorted (compare_added date_parse) playlist.tracks
        (undated-IsSorted date_parse playlist.tracks undated),
  )
