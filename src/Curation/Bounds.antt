-- ===== src/Curation/Bounds.antt =====
-- What `getCuratedPlaylists` returns.
use mc_service.Prelude.{
  ap, ℕ, suc, ◌≤◌, String, ◌≡◌, refl, List, [], ◌∷◌, Bool, true, false, not, arith, All, All-map,
  All-mono, All-take, map, length, take, length-take-le, Bool-cases, inl, inr,
}
use mc_service.Prelude.Int.{ℤ, pos, ltb_ℤ, pos_part}
use mc_service.Sorting.{sort}
use mc_service.Sorting.Laws.{All-sort}
use mc_service.Playlists.{Playlist}
use mc_service.Curation.Choice.{
  CuratedSource, CuratedPlaylist, human, filter, alternate, entry_of, or_instead,
  is_system_playlist, looks_curated, compare_scores, compare_lengths, curated_entries,
  fallback_entries, get_curated_playlists,
}

All-filter :
    {A : Type 0} (P : A → Type 0) (keep : A → Bool) (xs : List A)
    → All P xs
    → All (λ x. P x × (keep x ≡ true)) (filter keep xs)
All-filter P keep [] h = tt
All-filter P keep (x ∷ xs) h = elim (Bool-cases (keep x)) [
  | inl kept ↦ rw kept ((h.0, kept), All-filter P keep xs h.1)
  | inr dropped ↦ rw dropped (All-filter P keep xs h.1)
]

module _ (P : Playlist → Type 0) where
  -- A playlist that was given, and is not the system's.
  abbrev IsOwn : Playlist → Type 0
  IsOwn p = P p × (is_system_playlist p ≡ false)

  IsOwn-filter :
      (ps : List Playlist) → All P ps → All IsOwn (filter (λ p. not (is_system_playlist p)) ps)
  IsOwn-filter ps h =
      All-mono _ IsOwn (filter (λ p. not (is_system_playlist p)) ps)
        (λ p k. (k.0, ground (arith, k.1))) (All-filter P (λ p. not (is_system_playlist p)) ps h)

  All-alternate :
      (Q : Playlist → Type 0) (s : CuratedSource) (ps : List Playlist)
      → All Q ps
      → All (λ e. Q e.playlist) (alternate s ps)
  All-alternate Q s [] h = tt
  All-alternate Q s (p ∷ ps) h = (h.0, All-alternate Q _ ps h.1)

length-alternate : (s : CuratedSource) (ps : List Playlist) → length (alternate s ps) ≡ length ps
length-alternate s [] = refl
length-alternate s (p ∷ ps) = ap suc (length-alternate _ ps)

module _ (locale_compare : String → String → ℤ) (P : Playlist → Type 0) where
  curated_entries-All :
      (ps : List Playlist) (n : ℕ)
      → All P ps
      → All (λ e. IsOwn P e.playlist) (curated_entries locale_compare ps n)
        × (length (curated_entries locale_compare ps n) ≤ n)
  unfolding curated_entries
  curated_entries-All ps n h =
      let own = filter (λ p. not (is_system_playlist p)) ps in
      let entries = map entry_of (filter looks_curated own) in
      let Q = λ (e : CuratedPlaylist). IsOwn P e.playlist in
      (
        All-take Q n _ (
            All-sort (compare_scores locale_compare) Q entries (
              All-map Q entry_of (filter looks_curated own) (
                All-mono _ (IsOwn P) (filter looks_curated own) (λ p k. k.0)
                  (All-filter (IsOwn P) looks_curated own (IsOwn-filter P ps h))))),
        length-take-le n _,
      )

  fallback_entries-All :
      (ps : List Playlist) (n : ℕ)
      → All P ps
      → All (λ e. IsOwn P e.playlist) (fallback_entries locale_compare ps n)
        × (length (fallback_entries locale_compare ps n) ≤ n)
  unfolding fallback_entries
  fallback_entries-All ps n h =
      let own = filter (λ p. not (is_system_playlist p)) ps in
      let sorted = sort (compare_lengths locale_compare) own in
      (
        All-alternate P (IsOwn P) human (take n sorted) (
            All-take (IsOwn P) n sorted
              (All-sort (compare_lengths locale_compare) (IsOwn P) own (IsOwn-filter P ps h))),
        omega (arith, length-alternate human (take n sorted), length-take-le n sorted),
      )

  either :
      (Q : List CuratedPlaylist → Type 0) (es fs : List CuratedPlaylist)
      → Q es
      → Q fs
      → Q (or_instead es fs)
  either Q [] fs h k = k
  either Q (e ∷ es) fs h k = h

  -- At most `limit` playlists are returned. None of them is the playlist of favorites or the
  -- library, and each is one of those given: whatever holds of all of those holds of it.
  pub get_curated_playlists-All :
      (ps : List Playlist) (limit : ℤ)
      → All P ps
      → All
          (λ e. P e.playlist × (is_system_playlist e.playlist ≡ false))
          (get_curated_playlists locale_compare ps limit)
        × (length (get_curated_playlists locale_compare ps limit) ≤ pos_part limit)
  unfolding get_curated_playlists
  get_curated_playlists-All ps limit h = elim (Bool-cases (ltb_ℤ (pos 0) limit)) [
    | inr none_wanted ↦ rw none_wanted (tt, omega arith)
    | inl wanted ↦ rw wanted (
        either (λ es. All (λ e. IsOwn P e.playlist) es × (length es ≤ pos_part limit)) _ _
          (curated_entries-All ps (pos_part limit) h) (fallback_entries-All ps (pos_part limit) h))
  ]
