-- ===== src/Pages/Discovery/Defs.antt =====
-- What the discovery page loads, and its state.
use mc_service.Prelude.{
  ℕ, String, Option, none, some, List, [], ◌∷◌, ◌++◌, Bool, true, false, not, map, take,
  if◌then◌else◌, str_eq, codes,
}
use mathlib.Core.List.{reverse}
use mc_service.Prelude.Int.{ℤ, pos, ◌-ℤ◌}
use mc_service.Prelude.Decimal.{decimal_text}
use mc_service.Sorting.{sort}
use mc_service.Platform.{Platform}
use mc_service.Session.State.{Server, Result, ok, raise, World, M, ◌>>=◌, return}
use mc_service.Playlists.{Playlist, Views, list_playlists}
use mc_service.Library.Defs.{find, keep_first, to_timestamp, minus, order_of}
use mc_service.Curation.Patterns.{Part, text, optional, spaces, test}
use mc_service.Curation.Choice.{CuratedPlaylist, filter, description_of, get_curated_playlists}
use mc_service.Catalog.Types.{Track, Album, PaginatedResponse, CatalogViews}
use mc_service.Catalog.Lookup.{includes}
use mc_service.Catalog.Operations.{list_tracks, list_albums}
use mc_service.Pages.Cards.{CuratedCard, sort_playlist_track_ids, first_id, card_of}
use mc_service.Pages.Discovery.Loop.{Progress, fetch_all_tracks}

pub record DiscoveryPage : Type 0 where
  pub loading : Bool
  pub loading_all_tracks : Bool
  pub progress : Progress
  pub curated_playlists : List CuratedCard
  pub admin_favorite_albums : List Album
  pub recently_added_tracks : List Track
  pub all_tracks : List Track

-- The alternatives of the pattern of `isAdminFavoritePlaylist`.
abbrev pub admin_pattern : List (List Part)
admin_pattern =
    (text "admin" ∷ spaces ∷ text "favorite" ∷ optional "s" ∷ [])
    ∷ (text "admin" ∷ spaces ∷ text "pick" ∷ optional "s" ∷ [])
    ∷ (text "featured" ∷ [])
    ∷ (text "popular" ∷ spaces ∷ text "music" ∷ [])
    ∷ (text "popular" ∷ spaces ∷ text "albums" ∷ [])
    ∷ (text "popular" ∷ spaces ∷ text "tracks" ∷ [])
    ∷ (text "popular" ∷ spaces ∷ [])
    ∷ []

unfoldable pub is_admin_favorite_playlist : Playlist → Bool
is_admin_favorite_playlist p = test admin_pattern (codes p.name ++ (32 ∷ codes (description_of p)))

-- `new Map(tracks.map((track) => [track.id, track])).get(id)`: the last track with the id.
unfoldable pub track_of : List Track → String → Option Track
track_of tracks id = find (λ t. str_eq t.id id) (reverse tracks)

abbrev lead_of : List Track → Option String → Option Track
lead_of tracks none = none
lead_of tracks (some id) = track_of tracks id

abbrev pub discovery_card : List Track → CuratedPlaylist → CuratedCard
discovery_card tracks e =
    card_of "Curated for your next session." e.playlist e.source
      (lead_of tracks (first_id (sort_playlist_track_ids e.playlist)))

-- The two members that are optional and not given read as empty.
abbrev pub album_of : Track → Album
album_of t = record {
  id = t.album_id;
  title = t.album_title;
  artist_id = t.artist_id;
  artist_name = t.artist_name;
  year = t.year;
  genre = t.genre;
  artwork_url = t.artwork_url;
  track_count = pos 0;
  created_at = t.created_at;
  metadata_json = "";
  manually_edited = false;
}

abbrev album_step : Option Track → List String → (List String → List Album) → List Album
album_step none seen rest = rest seen
album_step (some t) seen rest =
    let skipped = rest seen in
    let taken = rest (t.album_id ∷ seen) in
    if includes t.album_id seen then skipped else album_of t ∷ taken

-- The loop that fills `albumById`; `seen` are its keys.
unfoldable pub albums_of : List Track → List String → List String → List Album
unfolding track_of
albums_of tracks [] seen = []
albums_of tracks (id ∷ ids) seen = album_step (track_of tracks id) seen (albums_of tracks ids)

abbrev flat_map : {A : Type 0} → (A → List String) → List A → List String
flat_map f [] = []
flat_map f (x ∷ xs) = f x ++ flat_map f xs

unfoldable pub admin_track_ids : List Playlist → List String
admin_track_ids playlists =
    let ids = flat_map sort_playlist_track_ids playlists in take 40 (keep_first ids 0 ids)

unfoldable pub admin_albums : List Track → List Playlist → List Album
unfolding albums_of admin_track_ids
admin_albums tracks playlists =
    take 10 (albums_of tracks (admin_track_ids (filter is_admin_favorite_playlist playlists)) [])

abbrev pub by_track_count : Album → Album → ℤ
by_track_count a b = b.track_count -ℤ a.track_count

abbrev page_params : String → String → List (String × Option String)
page_params page size = ("page", some page) ∷ ("page_size", some size) ∷ []

-- `cancelled` is whether the page was left before the first reply; "unauthorized" and other failures differ in what
-- is logged alone.
unfoldable pub begin_discovery : DiscoveryPage → DiscoveryPage
begin_discovery p = record p {
  loading = true;
  loading_all_tracks = true;
  progress = record { tracks_loaded = 0; tracks_total = none };
}

abbrev ended_discovery : Bool → DiscoveryPage → DiscoveryPage
ended_discovery cancelled p =
    if cancelled then p else record p { loading = false; loading_all_tracks = false }

-- `Date.parse` and `localeCompare` are the browser's.
module _ (date_parse : String → Option ℤ) (locale_compare : String → String → ℤ) where
  abbrev pub by_creation : Track → Track → ℤ
  by_creation a b = order_of (
      minus (to_timestamp date_parse (some b.created_at))
        (to_timestamp date_parse (some a.created_at)))

  unfoldable pub recent_tracks : List Track → List Track
  recent_tracks tracks = take 16 (sort by_creation tracks)

  module _ (views : Views) (catalog_views : CatalogViews) (browser : Platform)
      (server : Server) where
    abbrev pub list_page : ℕ → M (PaginatedResponse Track)
    list_page page =
        list_tracks catalog_views browser server (page_params (decimal_text page) "100")

    abbrev or_popular : List Album → M (List Album)
    or_popular [] = do
      fallback ← list_albums catalog_views browser server (page_params "1" "10")
      return (sort by_track_count fallback.items)
    or_popular (album ∷ albums) = return (album ∷ albums)

    abbrev shown :
        Bool → List Track → List Playlist → DiscoveryPage → Result (List Album) → DiscoveryPage
    shown cancelled tracks playlists p (ok albums) = if cancelled then p else record p {
      curated_playlists =
          map (discovery_card tracks) (get_curated_playlists locale_compare playlists (pos 12));
      recently_added_tracks = recent_tracks tracks;
      admin_favorite_albums = albums;
    }
    shown cancelled tracks playlists p (raise e) = p

    -- Behind the loop over the pages of tracks.
    abbrev pub tracks_loaded :
        Bool
        → List Playlist
        → DiscoveryPage
        → Option (Result (List Track) × Progress × World)
        → Option (DiscoveryPage × World)
    tracks_loaded cancelled playlists p none = none
    tracks_loaded cancelled playlists p (some (raise e, progress, w)) =
        some (ended_discovery cancelled (record p { progress = progress }), w)
    tracks_loaded cancelled playlists p (some (ok tracks, progress, w)) =
        if cancelled
        then some (record p { progress = progress }, w)
        else (let (r, w') = or_popular (admin_albums tracks playlists) w in
            some (
              ended_discovery cancelled (
                  shown cancelled tracks playlists
                    (record p { progress = progress; all_tracks = tracks }) r),
              w',
            ))

    abbrev playlists_loaded :
        Bool → ℕ → DiscoveryPage → Result (List Playlist) × World → Option (DiscoveryPage × World)
    playlists_loaded cancelled fuel p (raise e, w) = some (ended_discovery cancelled p, w)
    playlists_loaded cancelled fuel p (ok playlists, w) =
        tracks_loaded cancelled playlists p
          (fetch_all_tracks list_page (not cancelled) fuel p.progress w)

    -- `loadData`; `none` is the want of fuel.
    unfoldable pub load_data : Bool → ℕ → DiscoveryPage → World → Option (DiscoveryPage × World)
    unfolding begin_discovery fetch_all_tracks recent_tracks admin_albums
    load_data cancelled fuel p w =
        playlists_loaded cancelled fuel (begin_discovery p)
          (list_playlists views browser server (page_params "1" "250") w)
