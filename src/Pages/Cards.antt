-- ===== src/Pages/Cards.antt =====
-- What the home and the discovery page share: the order of a playlist, the tracks by id, and the
-- cards of curated playlists.
use mc_service.Prelude.{
  String, Option, none, some, List, [], ◌∷◌, map, length, ℕ, if◌then◌else◌, str_eq, trimmed,
}
use mc_service.Prelude.Int.{ℤ, ◌-ℤ◌}
use mc_service.Sorting.{sort}
use mc_service.Playlists.{PlaylistTrack, Playlist}
use mc_service.Curation.Choice.{CuratedSource, human, ml, description_of}
use mc_service.Catalog.Types.{Track, CatalogViews}
use mc_service.Catalog.Operations.{get_track}
use mc_service.Platform.{Platform}
use mc_service.Session.State.{Server, M, ◌>>=◌, return, catch}

-- `CuratedPlaylistCard` and `CuratedPlaylistPreview`.
pub record CuratedCard : Type 0 where
  pub id : String
  pub name : String
  pub description : String
  pub source : CuratedSource
  pub track_count : ℕ
  pub artwork_url : String
  pub lead_track : Option Track

unfoldable pub source_label : CuratedSource → String
source_label ml = "ML"
source_label human = "Human"

abbrev pub by_position : PlaylistTrack → PlaylistTrack → ℤ
by_position a b = a.position -ℤ b.position

-- `sortPlaylistTrackIds` and `sortPlaylistTracks`
unfoldable pub sort_playlist_track_ids : Playlist → List String
sort_playlist_track_ids playlist = map (λ t. t.track_id) (sort by_position playlist.tracks)

abbrev pub first_id : List String → Option String
first_id [] = none
first_id (id ∷ ids) = if str_eq id "" then none else some id

-- `text || fallback`
abbrev pub or_fallback : String → String → String
or_fallback text fallback = if str_eq text "" then fallback else text

abbrev artwork_of : Option Track → String
artwork_of none = ""
artwork_of (some track) = track.artwork_url

abbrev pub card_of : String → Playlist → CuratedSource → Option Track → CuratedCard
card_of fallback playlist source lead = record {
  id = playlist.id;
  name = playlist.name;
  description = or_fallback (trimmed (description_of playlist)) fallback;
  source = source;
  track_count = length playlist.tracks;
  artwork_url = artwork_of lead;
  lead_track = lead;
}

-- A track that cannot be had is null.
abbrev pub lookup : CatalogViews → Platform → Server → String → M (Option Track)
lookup views browser server id =
    catch (do track ← get_track views browser server id; return (some track)) (λ _. return none)
