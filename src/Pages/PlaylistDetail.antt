-- ===== src/Pages/PlaylistDetail.antt =====
-- The page of a playlist, web/apps/player/src/pages/PlaylistDetailPage.tsx.
use mc_service.Prelude.{
  String, Option, none, some, List, [], ◌∷◌, Bool, true, false, if◌then◌else◌, str_eq,
}
use mc_service.Prelude.Int.{ℤ, pos, ◌+ℤ◌}
use mc_service.Platform.{Platform}
use mc_service.Session.State.{Server, Result, ok, raise, thrown, World, M, ◌>>=◌, return, throw}
use mc_service.Playlists.{Playlist, Views, get_playlist}
use mc_service.Catalog.Types.{Track, CatalogViews}
use mc_service.Catalog.Lookup.{unique_ids, get_entry}
use mc_service.Pages.Cards.{lookup, sort_playlist_track_ids}

pub record PlaylistPage : Type 0 where
  pub playlist : Option Playlist
  pub tracks : List Track
  pub loading : Bool
  pub error : String

abbrev pub opened : PlaylistPage
opened = record { playlist = none; tracks = []; loading = true; error = "" }

abbrev with_entry : String → Option Track → List (String × Track) → List (String × Track)
with_entry id none entries = entries
with_entry id (some track) entries = (id, track) ∷ entries

abbrev with_some : {A : Type 0} → Option A → List A → List A
with_some none xs = xs
with_some (some x) xs = x ∷ xs

-- The tracks of a list of ids, where those without an entry are left out.
unfoldable pub ordered_tracks : List (String × Track) → List String → List Track
ordered_tracks entries [] = []
ordered_tracks entries (id ∷ ids) = with_some (get_entry id entries) (ordered_tracks entries ids)

unfoldable pub total_duration : List Track → ℤ
total_duration [] = pos 0
total_duration (t ∷ ts) = t.duration_secs +ℤ total_duration ts

unfoldable pub begin_playlist : PlaylistPage → PlaylistPage
begin_playlist p = record p { loading = true; error = "" }

-- `loadPlaylist` behind its last `await`; `cancelled` is whether the page is gone by then.
unfoldable pub end_playlist : Bool → Result (Playlist × List Track) → PlaylistPage → PlaylistPage
end_playlist true r p = p
end_playlist false (ok (playlist, tracks)) p = record p {
  playlist = some playlist;
  tracks = tracks;
  loading = false;
}
end_playlist false (raise e) p = record p {
  error = "Could not load this playlist.";
  playlist = none;
  tracks = [];
  loading = false;
}

module _ (views : Views) (catalog_views : CatalogViews) (browser : Platform) (server : Server) where
  -- The entries of the ids whose tracks could be had.
  unfoldable pub fetch_entries : List String → M (List (String × Track))
  fetch_entries [] = return []
  fetch_entries (id ∷ ids) = do
    track ← lookup catalog_views browser server id
    entries ← fetch_entries ids
    return (with_entry id track entries)

  -- A member of undefined throws.
  abbrev tracks_of : Option Playlist → M (Playlist × List Track)
  tracks_of none = throw thrown
  tracks_of (some playlist) = do
    entries ← fetch_entries (unique_ids (sort_playlist_track_ids playlist))
    return (playlist, ordered_tracks entries (sort_playlist_track_ids playlist))

  unfoldable pub playlist_data : String → M (Playlist × List Track)
  unfolding fetch_entries ordered_tracks
  playlist_data id = do playlist ← get_playlist views browser server id; tracks_of playlist

  -- The effect on the id of the address.
  unfoldable pub load_playlist : Bool → String → PlaylistPage → World → PlaylistPage × World
  unfolding playlist_data begin_playlist end_playlist
  load_playlist cancelled id p w =
      let (r, w') = playlist_data id w in
      if str_eq id ""
      then (record p { loading = false; error = "Playlist not found." }, w)
      else (end_playlist cancelled r (begin_playlist p), w')
