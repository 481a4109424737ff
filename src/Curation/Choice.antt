-- ===== src/Curation/Choice.antt =====
-- `inferCuratedSource` and `getCuratedPlaylists`.
use mc_service.Prelude.{
  ℕ, ◌+◌, String, Option, none, some, List, [], ◌∷◌, ◌++◌, Bool, true, false, not, ◌||◌, ◌==◌,
  if◌then◌else◌, codes, trim, same_codes, map, length, take,
}
use mc_service.Prelude.Int.{ℤ, pos, ◌-ℤ◌, ltb_ℤ, pos_part}
use mc_service.Sorting.{sort}
use mc_service.Playlists.{Playlist}
use mc_service.Library.Defs.{fold_name}
use mc_service.Curation.Patterns.{test, ml_source_pattern, human_source_pattern, curated_pattern}

pub data CuratedSource : Type 0 where
  human ml : CuratedSource

pub record CuratedPlaylist : Type 0 where
  pub playlist : Playlist
  pub source : CuratedSource

-- `description ?? ""`
abbrev pub description_of : Playlist → String
description_of p = elim p.description [ none ↦ "" | some s ↦ s ]

unfoldable pub playlist_text : Playlist → List ℕ
playlist_text p = trim (codes p.name ++ (32 ∷ codes (description_of p)))

unfoldable pub infer_curated_source : Playlist → Option CuratedSource
infer_curated_source p =
    if test ml_source_pattern (playlist_text p)
    then some ml
    else if test human_source_pattern (playlist_text p)
    then some human
    else none

unfoldable pub is_system_playlist : Playlist → Bool
is_system_playlist p =
    same_codes (fold_name p.name) (codes "favorites")
    || same_codes (fold_name p.name) (codes "my library")

-- `xs.filter(test)`
abbrev pub filter {ℓ} : {A : Type ℓ} → (A → Bool) → List A → List A
filter keep [] = []
filter keep (x ∷ xs) = let rest = filter keep xs in if keep x then x ∷ rest else rest

unfoldable pub looks_curated : Playlist → Bool
looks_curated p =
    test curated_pattern (playlist_text p)
    || elim (infer_curated_source p) [ none ↦ false | some _ ↦ true ]

abbrev or_human : Option CuratedSource → CuratedSource
or_human none = human
or_human (some s) = s

abbrev pub entry_of : Playlist → CuratedPlaylist
entry_of p = record { playlist = p; source = or_human (infer_curated_source p) }

unfoldable pub score : CuratedPlaylist → ℕ
score e = elim e.source [ ml ↦ 2 | human ↦ 1 ] + length e.playlist.tracks

-- `index % 2 === 0 ? "human" : "ml"`, from an index on
abbrev pub alternate : CuratedSource → List Playlist → List CuratedPlaylist
alternate s [] = []
alternate s (p ∷ ps) =
    record { playlist = p; source = s } ∷ alternate (elim s [ human ↦ ml | ml ↦ human ]) ps

abbrev pub or_instead : List CuratedPlaylist → List CuratedPlaylist → List CuratedPlaylist
or_instead [] others = others
or_instead (e ∷ es) others = e ∷ es

-- `a.localeCompare(b, undefined, { sensitivity: "base" })` is the browser's.
module _ (locale_compare : String → String → ℤ) where
  unfoldable pub compare_scores : CuratedPlaylist → CuratedPlaylist → ℤ
  compare_scores a b =
      if score a == score b
      then locale_compare a.playlist.name b.playlist.name
      else pos (score b) -ℤ pos (score a)

  unfoldable pub compare_lengths : Playlist → Playlist → ℤ
  compare_lengths a b =
      if length a.tracks == length b.tracks
      then locale_compare a.name b.name
      else pos (length b.tracks) -ℤ pos (length a.tracks)

  unfoldable pub curated_entries : List Playlist → ℕ → List CuratedPlaylist
  curated_entries playlists limit = take limit (
      sort compare_scores
        (map entry_of (filter looks_curated (filter (λ p. not (is_system_playlist p)) playlists))))

  unfoldable pub fallback_entries : List Playlist → ℕ → List CuratedPlaylist
  fallback_entries playlists limit =
      alternate human
        (take limit (sort compare_lengths (filter (λ p. not (is_system_playlist p)) playlists)))

  unfoldable pub get_curated_playlists : List Playlist → ℤ → List CuratedPlaylist
  get_curated_playlists playlists limit =
      if ltb_ℤ (pos 0) limit
      then or_instead (curated_entries playlists (pos_part limit))
          (fallback_entries playlists (pos_part limit))
      else []
