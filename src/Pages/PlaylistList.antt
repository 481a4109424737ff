-- ===== src/Pages/PlaylistList.antt =====
-- The page of all playlists, web/apps/player/src/pages/PlaylistsPage.tsx.
use mc_service.Prelude.{
  String, Option, some, List, [], ◌∷◌, Bool, true, false, not, if◌then◌else◌, str_eq, trimmed,
  codes, same_codes,
}
use mc_service.Prelude.Int.{ℤ, pos, negsuc}
use mc_service.Sorting.{sort}
use mc_service.Platform.{Platform}
use mc_service.Session.State.{Server, Result, ok, raise, World, M, ◌>>=◌}
use mc_service.Playlists.{Playlist, Views, list_playlists, create_playlist}
use mc_service.Library.Defs.{
  ensure_user_favorites_playlist, fold_name, has_name, favorites_name, first_page,
}
use mc_service.Curation.Choice.{filter}

pub record PlaylistsPage : Type 0 where
  pub playlists : List Playlist
  pub loading : Bool
  pub creating : Bool
  pub create_slot_open : Bool
  pub new_playlist_name : String
  pub new_playlist_description : String
  pub error : String

abbrev pub opened : PlaylistsPage
opened = record {
  playlists = [];
  loading = true;
  creating = false;
  create_slot_open = false;
  new_playlist_name = "";
  new_playlist_description = "";
  error = "";
}

unfoldable pub is_favorites_playlist : Playlist → Bool
is_favorites_playlist p = has_name favorites_name p

unfoldable pub is_legacy_library_playlist : Playlist → Bool
is_legacy_library_playlist p = same_codes (fold_name p.name) (codes "my library")

-- The comparison of names is the browser's.
module _ (locale_compare : String → String → ℤ) where
  abbrev by_favorite : Bool → Bool → ℤ → ℤ
  by_favorite true true names = names
  by_favorite false false names = names
  by_favorite true false names = negsuc 0
  by_favorite false true names = pos 1

  unfoldable pub favorites_first : Playlist → Playlist → ℤ
  unfolding is_favorites_playlist
  favorites_first a b =
      by_favorite (is_favorites_playlist a) (is_favorites_playlist b) (locale_compare a.name b.name)

  unfoldable pub visible_playlists : PlaylistsPage → List Playlist
  unfolding favorites_first is_legacy_library_playlist
  visible_playlists p =
      filter (λ q. not (is_legacy_library_playlist q)) (sort favorites_first p.playlists)

unfoldable pub end_playlists : Result (List Playlist) → PlaylistsPage → PlaylistsPage
end_playlists (ok playlists) p = record p { playlists = playlists; loading = false; error = "" }
end_playlists (raise e) p = record p { loading = false; error = "Could not load playlists." }

-- A reply with no body, which the type excludes, is not modelled: it counts as a failure.
unfoldable pub end_creation : Result (Option Playlist) → PlaylistsPage → PlaylistsPage
end_creation (ok (some playlist)) p = record p {
  playlists = playlist ∷ p.playlists;
  new_playlist_name = "";
  new_playlist_description = "";
  create_slot_open = false;
  creating = false;
  error = "";
}
end_creation _ p = record p { creating = false; error = "Could not create playlist." }

module _ (views : Views) (browser : Platform) (server : Server) where
  unfoldable pub playlists_data : M (List Playlist)
  playlists_data = do
    _ ← ensure_user_favorites_playlist views browser server
    list_playlists views browser server first_page

  unfoldable pub load_playlists : PlaylistsPage → World → PlaylistsPage × World
  unfolding playlists_data end_playlists
  load_playlists p w = let (r, w') = playlists_data w in (end_playlists r p, w')

  unfoldable pub handle_create_playlist : PlaylistsPage → World → PlaylistsPage × World
  unfolding end_creation
  handle_create_playlist p w =
      let (r, w') =
        create_playlist views browser server
          (record {
            name = trimmed p.new_playlist_name;
            description = some (trimmed p.new_playlist_description);
            is_public = some false;
          })
          w in
      if str_eq (trimmed p.new_playlist_name) "" then (p, w) else (end_creation r p, w')
