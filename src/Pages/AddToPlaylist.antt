-- ===== src/Pages/AddToPlaylist.antt =====
-- The dialog that adds a track to a playlist,
-- web/apps/player/src/components/common/AddToPlaylistModal.tsx.
use mc_service.Prelude.{
  String, Option, none, some, List, [], ◌∷◌, Bool, true, false, not, ◌||◌, ◌==◌, if◌then◌else◌,
  str_eq, trimmed, codes, same_codes,
}
use mc_service.Prelude.Int.{ℤ}
use mc_service.Sorting.{sort}
use mc_service.Platform.{Platform}
use mc_service.Session.State.{Server, Failure, api_error, thrown, Result, ok, raise, World}
use mc_service.Playlists.{Playlist, Views, list_playlists, create_playlist, add_track}
use mc_service.Library.Defs.{fold_name, first_page}
use mc_service.Curation.Choice.{filter}
use mc_service.Catalog.Lookup.{includes}

pub record AddDialog : Type 0 where
  pub playlists : List Playlist
  pub loading : Bool
  pub error : String
  pub creating : Bool
  pub new_playlist_name : String
  pub new_playlist_description : String
  pub saving_playlist_id : Option String
  pub saved_playlist_ids : List String

abbrev pub is_conflict_error : Failure → Bool
is_conflict_error (api_error status body) = status == 409
is_conflict_error thrown = false

-- The comparison of names is the browser's.
unfoldable pub playlists_sorted : (String → String → ℤ) → AddDialog → List Playlist
playlists_sorted locale_compare d =
    filter (λ p. not (same_codes (fold_name p.name) (codes "my library")))
      (sort (λ a b. locale_compare a.name b.name) d.playlists)

abbrev begin_load : AddDialog → AddDialog
begin_load d = record d { loading = true; error = ""; saved_playlist_ids = [] }

-- `cancelled` is whether the dialog is gone by then.
unfoldable pub end_load : Bool → Result (List Playlist) → AddDialog → AddDialog
end_load true r d = d
end_load false (ok playlists) d = record d { playlists = playlists; loading = false }
end_load false (raise e) d = record d { error = "Could not load playlists."; loading = false }

-- A reply with no body, which the type excludes, is not modelled: it counts as a failure.
unfoldable pub end_create : Result (Option Playlist) → AddDialog → AddDialog
end_create (ok (some created)) d = record d {
  playlists = created ∷ d.playlists;
  new_playlist_name = "";
  new_playlist_description = "";
  error = "";
  creating = false;
}
end_create _ d = record d { error = "Could not create playlist."; creating = false }

abbrev add_id : String → List String → List String
add_id id ids = if includes id ids then ids else id ∷ ids

-- A conflict says that the track is there already.
unfoldable pub end_add : String → Result (Option Playlist) → AddDialog → AddDialog
end_add id (ok reply) d = record d {
  saved_playlist_ids = add_id id d.saved_playlist_ids;
  error = "";
  saving_playlist_id = none;
}
end_add id (raise e) d =
    if is_conflict_error e
    then record d {
      saved_playlist_ids = add_id id d.saved_playlist_ids;
      error = "";
      saving_playlist_id = none;
    }
    else record d { error = "Could not add to playlist."; saving_playlist_id = none }

module _ (views : Views) (browser : Platform) (server : Server) where
  -- The effect on the dialog's opening and on its track.
  unfoldable pub load_playlists : Bool → Bool → String → AddDialog → World → AddDialog × World
  unfolding end_load
  load_playlists is_open cancelled track_id d w =
      let (r, w') = list_playlists views browser server first_page w in
      if not is_open || str_eq track_id ""
      then (d, w)
      else (end_load cancelled r (begin_load d), w')

  unfoldable pub handle_create_playlist : AddDialog → World → AddDialog × World
  unfolding end_create
  handle_create_playlist d w =
      let (r, w') =
        create_playlist views browser server
          (record {
            name = trimmed d.new_playlist_name;
            description = some (trimmed d.new_playlist_description);
            is_public = some false;
          })
          w in
      if str_eq (trimmed d.new_playlist_name) "" then (d, w) else (end_create r d, w')

  unfoldable pub handle_add_to_playlist : String → Playlist → AddDialog → World → AddDialog × World
  unfolding end_add
  handle_add_to_playlist track_id playlist d w =
      let (r, w') = add_track views browser server playlist.id track_id w in
      if str_eq track_id "" || includes playlist.id d.saved_playlist_ids
      then (d, w)
      else (end_add playlist.id r d, w')
