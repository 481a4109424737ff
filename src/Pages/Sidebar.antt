-- ===== src/Pages/Sidebar.antt =====
-- The sidebar of the current track, web/apps/player/src/components/layout/RightSidebar.tsx.
use mc_service.Prelude.{
  ℕ, ◌+◌, String, Option, none, some, List, [], ◌∷◌, Bool, true, false, not, ◌||◌, map, take,
  if◌then◌else◌, str_eq, trimmed,
}
use mc_service.Prelude.Int.{ℤ, pos, ◌-ℤ◌}
use mc_service.Sorting.{sort}
use mc_service.Platform.{Platform}
use mc_service.Session.State.{Server, Result, ok, raise, World, M, ◌>>=◌, return, catch}
use mc_service.Playlists.{Views}
use mc_service.Library.Defs.{ensure_user_favorites_playlist, recently_added_track_ids, is_zero}
use mc_service.Curation.Choice.{filter}
use mc_service.Catalog.Types.{Track, Album, Artist, PaginatedResponse, CatalogViews}
use mc_service.Catalog.Lookup.{epoch}
use mc_service.Catalog.Operations.{get_album, get_artist, list_tracks, list_albums, list_artists}
use mc_service.Pages.Cards.{lookup}

pub record Sidebar : Type 0 where
  pub recent_liked_track : Option Track
  pub current_artist : Option Artist
  pub album : Option Album
  pub album_tracks : List Track
  pub other_albums : List Album
  pub related_artists : List Artist
  pub loading_recent_liked : Bool
  pub loading_details : Bool
  pub error : String

unfoldable pub empty_paginated : {A : Type 0} → PaginatedResponse A
empty_paginated = record {
  items = [];
  total = pos 0;
  page = pos 1;
  page_size = pos 0;
  total_pages = pos 1;
}

abbrev ArtistCounts : Type 0
ArtistCounts = List (String × String × ℕ)

-- One more track of an artist; the first name is kept.
unfoldable pub count_artist : String → String → ArtistCounts → ArtistCounts
count_artist id name [] = (id, name, 1) ∷ []
count_artist id name ((k, known, n) ∷ counts) =
    let rest = count_artist id name counts in
    if str_eq k id then (k, known, n + 1) ∷ counts else (k, known, n) ∷ rest

-- The loop over the tracks of a genre, for a track by the artist `own`.
unfoldable pub artist_counts : String → List Track → ArtistCounts → ArtistCounts
unfolding count_artist
artist_counts own [] counts = counts
artist_counts own (t ∷ ts) counts = artist_counts own ts (
    if str_eq t.artist_id "" || str_eq t.artist_id own
    then counts
    else count_artist t.artist_id t.artist_name counts)

abbrev more_tracks : String × String × ℕ → String × String × ℕ → ℤ
more_tracks (a, x, m) (b, y, n) = pos n -ℤ pos m

-- The ids with the names that stand for the artists that cannot be had.
unfoldable pub ranked_artists : ArtistCounts → List (String × String)
ranked_artists counts = map (λ e. (e.0, e.1)) (take 6 (sort more_tracks counts))

-- The members that are optional and not given read as empty.
abbrev named_artist : String → String → Artist
named_artist id name = record {
  id = id;
  name = name;
  bio = "";
  image_url = "";
  album_count = pos 0;
  track_count = pos 0;
  created_at = epoch;
  metadata_json = "";
  manually_edited = false;
  formed_date = "";
  origin_country = "";
}

abbrev params : List (String × String) → List (String × Option String)
params ps = map (λ p. (p.0, some p.1)) ps

abbrev if_id : {A : Type 0} → String → A → M A → M A
if_id id a call w = let (r, w') = call w in if str_eq id "" then (ok a, w) else (r, w')

abbrev by_place : Track → Track → ℤ
by_place a b =
    if is_zero (a.disc_number -ℤ b.disc_number)
    then a.track_number -ℤ b.track_number
    else a.disc_number -ℤ b.disc_number

-- What `loadDetails` waits for.
pub record Details : Type 0 where
  pub album : Option Album
  pub tracks : PaginatedResponse Track
  pub albums : PaginatedResponse Album
  pub artist : Option Artist
  pub related : List Artist

-- `loadDetails` behind its `await`; `cancelled` is whether another track is shown by then.
unfoldable pub end_details : Bool → Track → Result Details → Sidebar → Sidebar
end_details true track r s = s
end_details false track (raise e) s = record s {
  error = "Could not load song details.";
  loading_details = false;
}
end_details false track (ok d) s = record s {
  current_artist = d.artist;
  album = d.album;
  album_tracks = sort by_place d.tracks.items;
  other_albums = take 8 (filter (λ a. not (str_eq a.id track.album_id)) d.albums.items);
  related_artists = d.related;
  loading_details = false;
}

abbrev pub cleared : Sidebar → Sidebar
cleared s = record s {
  current_artist = none;
  album = none;
  album_tracks = [];
  other_albums = [];
  related_artists = [];
  error = "";
}

unfoldable pub end_recent : Bool → Result (Option Track) → Sidebar → Sidebar
end_recent true r s = s
end_recent false (ok track) s = record s {
  recent_liked_track = track;
  loading_recent_liked = false;
}
end_recent false (raise e) s = record s { recent_liked_track = none; loading_recent_liked = false }

module _ (views : CatalogViews) (browser : Platform) (server : Server) where
  unfoldable pub resolve_artists : List (String × String) → M (List Artist)
  resolve_artists [] = return []
  resolve_artists ((id, name) ∷ rest) = do
    artist ← catch (get_artist views browser server id) (λ _. return (named_artist id name))
    artists ← resolve_artists rest
    return (artist ∷ artists)

  abbrev any_artists : Track → M (List Artist)
  any_artists track = do
    artists ← list_artists views browser server (params (("page", "1") ∷ ("page_size", "12") ∷ []))
    return (take 6 (filter (λ a. not (str_eq a.id track.artist_id)) artists.items))

  abbrev or_any : Track → List (String × String) → M (List Artist)
  or_any track [] = any_artists track
  or_any track (e ∷ es) = resolve_artists (e ∷ es)

  abbrev by_genre : Track → M (List Artist)
  by_genre track = do
    tracks ←
        list_tracks views browser server
          (params (("genre", track.genre) ∷ ("page", "1") ∷ ("page_size", "160") ∷ []))
    or_any track (ranked_artists (artist_counts track.artist_id tracks.items []))

  unfoldable pub fetch_related_artists : Track → M (List Artist)
  unfolding resolve_artists ranked_artists artist_counts
  fetch_related_artists track =
      if str_eq (trimmed track.genre) "" then any_artists track else by_genre track

  abbrev some_of : {A : Type 0} → M A → M (Option A)
  some_of call = do a ← call; return (some a)

  unfoldable pub details : Track → M Details
  unfolding fetch_related_artists empty_paginated
  details track = do
    album ← if_id track.album_id none (some_of (get_album views browser server track.album_id))
    tracks ← if_id track.album_id empty_paginated (
        list_tracks views browser server
          (params (("album_id", track.album_id) ∷ ("page", "1") ∷ ("page_size", "120") ∷ [])))
    albums ← if_id track.artist_id empty_paginated (
        list_albums views browser server
          (params (("artist_id", track.artist_id) ∷ ("page", "1") ∷ ("page_size", "18") ∷ [])))
    artist ←
        if_id track.artist_id none
          (catch (some_of (get_artist views browser server track.artist_id)) (λ _. return none))
    related ← fetch_related_artists track
    return (record {
      album = album;
      tracks = tracks;
      albums = albums;
      artist = artist;
      related = related;
    })

  abbrev details_of : Bool → Option Track → Sidebar → World → Sidebar × World
  details_of cancelled none s w = (cleared s, w)
  details_of cancelled (some track) s w =
      let (r, w') = details track w in
      (end_details cancelled track r (record s { loading_details = true; error = "" }), w')

  -- The effect on the track that is shown.
  unfoldable pub load_details : Bool → Option Track → Sidebar → World → Sidebar × World
  unfolding details end_details
  load_details cancelled shown s w = details_of cancelled shown s w

  module _ (date_parse : String → Option ℤ) (playlists : Views) where
    abbrev first_of : List String → M (Option Track)
    first_of [] = return none
    first_of (id ∷ ids) = lookup views browser server id

    unfoldable pub recent_liked : M (Option Track)
    recent_liked = do
      favorites ← ensure_user_favorites_playlist playlists browser server
      first_of (recently_added_track_ids date_parse favorites (pos 1))

    -- The effect on the current track: with none, the track that was liked last is loaded.
    unfoldable pub load_recent_liked_track : Bool → Option Track → Sidebar → World → Sidebar × World
    unfolding recent_liked end_recent
    load_recent_liked_track cancelled (some track) s w = (s, w)
    load_recent_liked_track cancelled none s w =
        let (r, w') = recent_liked w in
        (end_recent cancelled r (record s { loading_recent_liked = true }), w')
