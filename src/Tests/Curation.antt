-- ===== src/Tests/Curation.antt =====
-- Names that the patterns take, and a choice of one playlist.
use mc_service.Prelude.{
  ◌≡◌, ◌≤◌, refl, String, none, some, List, [], ◌∷◌, true, false, All, length, trim,
}
use mc_service.Prelude.Int.{ℤ, pos}
use mc_service.Playlists.{Playlist}
use mc_service.Library.Defs.{fold_name}
use mc_service.Curation.Patterns.{match_here, match_part, match_text, match_spaces, test_from}
use mc_service.Curation.Choice.{
  ml, human, playlist_text, infer_curated_source, is_system_playlist, looks_curated,
  get_curated_playlists,
}
use mc_service.Curation.Bounds.{get_curated_playlists-All}

abbrev named : String → Playlist
named name = record { id = name; name = name; description = none; is_public = true; tracks = [] }

whole : Unit {0}
unfolding match_here match_part match_text match_spaces test_from playlist_text infer_curated_source
    trim is_system_playlist fold_name looks_curated
whole = tt

machine : infer_curated_source (named "Machine  Learning hits") ≡ some ml
unfolding whole
machine = refl

word : infer_curated_source (named "AI picks") ≡ some ml
unfolding whole
word = refl

part_of_a_word : infer_curated_source (named "rain") ≡ none
unfolding whole
part_of_a_word = refl

editors : infer_curated_source (named "Editorial") ≡ some human
unfolding whole
editors = refl

made_for_you : looks_curated (named "MadeForYou") ≡ true
unfolding whole
made_for_you = refl

system : is_system_playlist (named " My Library ") ≡ true
unfolding whole
system = refl

abbrev same_place : String → String → ℤ
same_place a b = pos 0

abbrev given : List Playlist
given = named "Favorites" ∷ named "Mix" ∷ []

get_curated_playlists-All_example :
    All
      (λ e. (e.playlist.is_public ≡ true) × (is_system_playlist e.playlist ≡ false))
      (get_curated_playlists same_place given (pos 3))
    × (length (get_curated_playlists same_place given (pos 3)) ≤ 3)
get_curated_playlists-All_example =
    get_curated_playlists-All same_place (λ p. p.is_public ≡ true) given (pos 3) (refl, (refl, tt))
