-- ===== src/Catalog/Lookup.antt =====
-- Metadata of a track, conversion of the replies, and the lookups of artists and albums by their ids.
use mc_service.Prelude.{
  String, Option, none, some, List, [], ◌∷◌, Bool, false, ◌||◌, if◌then◌else◌, str_eq, length,
}
use Prim.Native.String
use mc_service.Prelude.Int.{pos}
use mc_service.Json.{Json}
use mc_service.Platform.{Platform}
use mc_service.Session.State.{Server, M, ◌>>=◌, return, catch}
use mc_service.Session.Client.{api_get}
use mc_service.Catalog.Types.{
  ApiPagination, ApiTrack, ApiAlbum, ApiArtist, TrackMetadata, Track, Album, Artist,
  PaginatedResponse, CatalogViews,
}

-- `value ?? other`
abbrev pub or_else : {A : Type 0} → Option A → A → A
or_else none d = d
or_else (some a) d = a

abbrev pub no_metadata : TrackMetadata
no_metadata = record { artist = none; album = none; artwork_url = none }

-- `none` is null, of which no member can be read.
unfoldable pub parse_metadata : CatalogViews → Platform → String → Option TrackMetadata
parse_metadata views browser raw =
    if str_eq raw ""
    then some no_metadata
    else elim (browser.parse raw) [ none ↦ some no_metadata | some j ↦ views.metadata j ]

unfoldable pub to_paginated_response :
    {A : Type 0} → List A → Option ApiPagination → PaginatedResponse A
to_paginated_response items none = record {
  items = items;
  total = pos (length items);
  page = pos 1;
  page_size = pos (length items);
  total_pages = pos 1;
}
to_paginated_response items (some p) = record {
  items = items;
  total = p.total_items;
  page = p.current_page;
  page_size = p.page_size;
  total_pages = p.total_pages;
}

-- `new Date(0).toISOString()`
abbrev pub epoch : String
epoch = "1970-01-01T00:00:00.000Z"

unfoldable pub map_artist : ApiArtist → Artist
map_artist artist = record {
  id = artist.id;
  name = artist.name;
  bio = artist.bio;
  image_url = artist.image_url;
  album_count = pos 0;
  track_count = pos 0;
  created_at = or_else artist.created_at epoch;
  metadata_json = artist.metadata_json;
  manually_edited = or_else artist.manually_edited false;
  formed_date = or_else artist.formed_date "";
  origin_country = or_else artist.origin_country "";
}

unfoldable pub map_album : ApiAlbum → String → Album
map_album album artist_name = record {
  id = album.id;
  title = album.title;
  artist_id = album.artist_id;
  artist_name = artist_name;
  year = album.year;
  genre = album.genre;
  artwork_url = album.artwork_url;
  track_count = pos 0;
  created_at = or_else album.created_at epoch;
  metadata_json = album.metadata_json;
  manually_edited = or_else album.manually_edited false;
}

unfoldable pub map_track : ApiTrack → String → String → String → Track
map_track track artist_name album_title artwork_url = record {
  id = track.id;
  title = track.title;
  artist_id = track.artist_id;
  artist_name = artist_name;
  album_id = track.album_id;
  album_title = album_title;
  duration_secs = track.duration_secs;
  track_number = track.track_number;
  disc_number = track.disc_number;
  genre = track.genre;
  year = track.year;
  artwork_url = artwork_url;
  created_at = or_else track.created_at epoch;
  metadata_json = track.metadata_json;
  manually_edited = or_else track.manually_edited false;
}

-- `set.has(id)`
abbrev pub includes : String → List String → Bool
includes id [] = false
includes id (x ∷ xs) = str_eq x id || includes id xs

-- `[...new Set(ids.filter(Boolean))]`, where `seen` is in the set already.
unfoldable pub unique_from : List String → List String → List String
unique_from seen [] = []
unique_from seen (id ∷ ids) =
    let skipped = unique_from seen ids in
    let taken = unique_from (id ∷ seen) ids in
    if str_eq id "" || includes id seen then skipped else id ∷ taken

abbrev pub unique_ids : List String → List String
unique_ids ids = unique_from [] ids

-- `map.get(id)`
unfoldable pub get_entry : {A : Type 0} → String → List (String × A) → Option A
get_entry id [] = none
get_entry id ((key, value) ∷ entries) = if str_eq key id then some value else get_entry id entries

abbrev pub artist_path : String → String
artist_path id = String.◌++◌ "/catalog/artists/" id

abbrev pub album_path : String → String
album_path id = String.◌++◌ "/catalog/albums/" id

abbrev pub track_path : String → String
track_path id = String.◌++◌ "/catalog/tracks/" id

-- A parsed reply as a type; `none` is undefined.
abbrev pub as_view : {A : Type 0} → (Json → A) → Option Json → Option A
as_view view none = none
as_view view (some j) = some (view j)

abbrev pub add_entry : {A : Type 0} → String → Option A → List (String × A) → List (String × A)
add_entry id none entries = entries
add_entry id (some a) entries = (id, a) ∷ entries

module _ (browser : Platform) (server : Server) where
  -- `api.get(path).catch(() => null)`; `none` is null or undefined.
  unfoldable pub get_or_null : {A : Type 0} → (Json → A) → String → M (Option A)
  get_or_null view path =
      catch (do res ← api_get browser server path []; return (as_view view res)) (λ _. return none)

  -- `id ? api.get(path).catch(() => null) : null`
  unfoldable pub lookup : {A : Type 0} → (Json → A) → (String → String) → String → M (Option A)
  lookup view path_of id = if str_eq id "" then return none else get_or_null view (path_of id)

  -- The requests for the ids, one after another, and the map of the replies that are there.
  unfoldable pub fetch_each :
      {A : Type 0} → (Json → A) → (String → String) → List String → M (List (String × A))
  fetch_each view path_of [] = return []
  fetch_each view path_of (id ∷ ids) = do
    found ← get_or_null view (path_of id)
    entries ← fetch_each view path_of ids
    return (add_entry id found entries)

  unfoldable pub fetch_by_id :
      {A : Type 0} → (Json → A) → (String → String) → List String → M (List (String × A))
  fetch_by_id view path_of ids = fetch_each view path_of (unique_ids ids)

  module _ (views : CatalogViews) where
    unfoldable pub fetch_artists_by_id : List String → M (List (String × ApiArtist))
    fetch_artists_by_id = fetch_by_id views.artist artist_path

    unfoldable pub fetch_albums_by_id : List String → M (List (String × ApiAlbum))
    fetch_albums_by_id = fetch_by_id views.album album_path
