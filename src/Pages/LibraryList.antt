-- ===== src/Pages/LibraryList.antt =====
-- The library page, web/apps/player/src/pages/LibraryPage.tsx.
use mc_service.Prelude.{String, Option, none, some, List, [], ◌∷◌, Bool, true, false, if◌then◌else◌}
use mc_service.Prelude.Int.{ℤ, ◌-ℤ◌}
use mc_service.Sorting.{sort}
use mc_service.Platform.{Platform}
use mc_service.Session.State.{Server, Result, ok, raise, thrown, World, M, ◌>>=◌, return, throw}
use mc_service.Playlists.{Playlist, Views}
use mc_service.Library.Defs.{
  Timestamp, time, negative_infinity, minus, order_of, is_zero, ensure_user_favorites_playlist,
}
use mc_service.Catalog.Types.{Track, CatalogViews}
use mc_service.Pages.Attempts.{is_unauthorized_error}
use mc_service.Pages.Cards.{lookup, sort_playlist_track_ids}

pub data LibrarySortMode : Type 0 where
  alphabetical album artist recent : LibrarySortMode

pub record LibraryPage : Type 0 where
  pub tracks : List Track
  pub loading : Bool
  pub load_error : String
  pub sort_mode : LibrarySortMode

abbrev pub opened : LibraryPage
opened = record { tracks = []; loading = true; load_error = ""; sort_mode = alphabetical }

-- The first comparison that is not 0 decides.
abbrev or_else_by : ℤ → ℤ → ℤ
or_else_by c d = if is_zero c then d else c

-- `Date.parse` and `localeCompare` are the browser's.
module _ (date_parse : String → Option ℤ) (locale_compare : String → String → ℤ) where
  unfoldable pub track_timestamp : Track → Timestamp
  track_timestamp t = elim (date_parse t.created_at) [ none ↦ negative_infinity | some n ↦ time n ]

  unfoldable pub compare_in : LibrarySortMode → Track → Track → ℤ
  unfolding track_timestamp
  compare_in album a b =
      or_else_by (locale_compare a.album_title b.album_title)
        (or_else_by (a.track_number -ℤ b.track_number) (locale_compare a.title b.title))
  compare_in artist a b =
      or_else_by (locale_compare a.artist_name b.artist_name) (locale_compare a.title b.title)
  compare_in recent a b = order_of (minus (track_timestamp b) (track_timestamp a))
  compare_in alphabetical a b = locale_compare a.title b.title

  unfoldable pub sorted_tracks : LibraryPage → List Track
  unfolding compare_in
  sorted_tracks p = sort (compare_in p.sort_mode) p.tracks

abbrev with_some : {A : Type 0} → Option A → List A → List A
with_some none xs = xs
with_some (some x) xs = x ∷ xs

unfoldable pub begin_library : LibraryPage → LibraryPage
begin_library p = record p { loading = true; load_error = "" }

unfoldable pub end_library : Result (List Track) → LibraryPage → LibraryPage
end_library (ok tracks) p = record p { tracks = tracks; loading = false }
end_library (raise e) p =
    if is_unauthorized_error e
    then record p { loading = false }
    else record p { load_error = "Failed to load your favorites."; loading = false }

module _ (views : Views) (catalog_views : CatalogViews) (browser : Platform) (server : Server) where
  unfoldable pub resolve_ids : List String → M (List Track)
  resolve_ids [] = return []
  resolve_ids (id ∷ ids) = do
    track ← lookup catalog_views browser server id
    tracks ← resolve_ids ids
    return (with_some track tracks)

  -- A member of undefined throws; an empty playlist has no ids.
  abbrev tracks_of : Option Playlist → M (List Track)
  tracks_of none = throw thrown
  tracks_of (some playlist) = resolve_ids (sort_playlist_track_ids playlist)

  unfoldable pub library_data : M (List Track)
  unfolding resolve_ids
  library_data = do
    playlist ← ensure_user_favorites_playlist views browser server
    tracks_of playlist

  unfoldable pub load_library : LibraryPage → World → LibraryPage × World
  unfolding library_data begin_library end_library
  load_library p w = let (r, w') = library_data w in (end_library r (begin_library p), w')
