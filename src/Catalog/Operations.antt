-- ===== src/Catalog/Operations.antt =====
-- The operations of `catalogApi`.
use mc_service.Prelude.{
  String, Option, none, some, List, [], ◌∷◌, Bool, true, false, ◌||◌, if◌then◌else◌, map, codes,
  trim,
}
use mc_service.Json.{Json}
use mc_service.Platform.{Platform}
use mc_service.Session.State.{thrown, Server, M, ◌>>=◌, return, throw}
use mc_service.Session.Client.{api_get, api_patch}
use mc_service.Catalog.Types.{
  ApiTrack, ApiAlbum, ApiArtist, TrackMetadata, Track, Album, Artist, PaginatedResponse,
  CatalogViews,
}
use mc_service.Catalog.Lookup.{
  or_else, parse_metadata, to_paginated_response, map_artist, map_album, map_track, get_entry,
  artist_path, album_path, track_path, lookup, fetch_artists_by_id, fetch_albums_by_id,
}

abbrev pub unknown_artist : String
unknown_artist = "Unknown Artist"

abbrev pub unknown_album : String
unknown_album = "Unknown Album"

-- `!text?.trim()`
unfoldable pub is_blank : Option String → Bool
is_blank none = true
is_blank (some s) = elim (trim (codes s)) [ [] ↦ true | _ ∷ _ ↦ false ]

-- A reply of which a member is read; a member of undefined throws.
unfoldable pub reply_of : {A : Type 0} → (Json → A) → Option Json → M A
reply_of view none = throw thrown
reply_of view (some j) = return (view j)

-- `found ?? metadata.member ?? other`
unfoldable pub resolve :
    Option String → (TrackMetadata → Option String) → Option TrackMetadata → String → M String
resolve (some found) member metadata other = return found
resolve none member none other = throw thrown
resolve none member (some metadata) other = return (or_else (member metadata) other)

abbrev pub artist_name_of : Option ApiArtist → Option String
artist_name_of none = none
artist_name_of (some a) = some a.name

abbrev pub title_of : Option ApiAlbum → Option String
title_of none = none
title_of (some a) = some a.title

abbrev pub artwork_of : Option ApiAlbum → Option String
artwork_of none = none
artwork_of (some a) = some a.artwork_url

unfoldable pub resolve_track :
    ApiTrack → Option TrackMetadata → Option ApiArtist → Option ApiAlbum → M Track
resolve_track track metadata artist album = do
  name ← resolve (artist_name_of artist) (λ m. m.artist) metadata unknown_artist
  title ← resolve (title_of album) (λ m. m.album) metadata unknown_album
  artwork ← resolve (artwork_of album) (λ m. m.artwork_url) metadata ""
  return (map_track track name title artwork)

-- The ids of the tracks whose metadata pass a test, which reads a member of each.
unfoldable pub missing_ids :
    (TrackMetadata → Bool)
    → (ApiTrack → String)
    → List (ApiTrack × Option TrackMetadata)
    → M (List String)
missing_ids test id_of [] = return []
missing_ids test id_of ((track, none) ∷ rest) = throw thrown
missing_ids test id_of ((track, some metadata) ∷ rest) = do
  ids ← missing_ids test id_of rest
  return (if test metadata then id_of track ∷ ids else ids)

unfoldable pub resolve_tracks :
    List (String × ApiArtist)
    → List (String × ApiAlbum)
    → List (ApiTrack × Option TrackMetadata)
    → M (List Track)
resolve_tracks artists albums [] = return []
resolve_tracks artists albums ((track, metadata) ∷ rest) = do
  first ←
      resolve_track track metadata (get_entry track.artist_id artists)
        (get_entry track.album_id albums)
  others ← resolve_tracks artists albums rest
  return (first ∷ others)

abbrev pub lacks_artist : TrackMetadata → Bool
lacks_artist m = is_blank m.artist

abbrev pub lacks_album : TrackMetadata → Bool
lacks_album m = is_blank m.album || is_blank m.artwork_url

-- `ids.length > 0 ? fetch(ids) : new Map()`
abbrev pub fetch_some : {A : Type 0} → (List String → M (List A)) → List String → M (List A)
fetch_some fetch [] = return []
fetch_some fetch (id ∷ ids) = fetch (id ∷ ids)

abbrev pub name_album : List (String × ApiArtist) → ApiAlbum → Album
name_album artists album =
    map_album album (or_else (artist_name_of (get_entry album.artist_id artists)) unknown_artist)

abbrev pub with_metadata : CatalogViews → Platform → ApiTrack → ApiTrack × Option TrackMetadata
with_metadata views browser track = (track, parse_metadata views browser track.metadata_json)

module _ (views : CatalogViews) (browser : Platform) (server : Server) where
  unfoldable pub complete_tracks : List (ApiTrack × Option TrackMetadata) → M (List Track)
  complete_tracks tracks = do
    artist_ids ← missing_ids lacks_artist (λ t. t.artist_id) tracks
    album_ids ← missing_ids lacks_album (λ t. t.album_id) tracks
    artists ← fetch_some (fetch_artists_by_id browser server views) artist_ids
    albums ← fetch_some (fetch_albums_by_id browser server views) album_ids
    resolve_tracks artists albums tracks

  unfoldable pub list_tracks : List (String × Option String) → M (PaginatedResponse Track)
  list_tracks params = do
    res ← api_get browser server "/catalog/tracks" params
    response ← reply_of views.track_list res
    tracks ← complete_tracks (map (with_metadata views browser) (or_else response.items []))
    return (to_paginated_response tracks response.pagination)

  -- What `getTrack` and `updateTrack` make of the reply.
  unfoldable pub complete_track : ApiTrack → M Track
  complete_track track = do
    artist ← lookup browser server views.artist artist_path track.artist_id
    album ← lookup browser server views.album album_path track.album_id
    resolve_track track (parse_metadata views browser track.metadata_json) artist album

  unfoldable pub get_track : String → M Track
  get_track id = do
    res ← api_get browser server (track_path id) []
    track ← reply_of views.track res
    complete_track track

  unfoldable pub list_albums : List (String × Option String) → M (PaginatedResponse Album)
  list_albums params = do
    res ← api_get browser server "/catalog/albums" params
    response ← reply_of views.album_list res
    artists ←
        fetch_artists_by_id browser server views
          (map (λ a. a.artist_id) (or_else response.items []))
    return (
        to_paginated_response (map (name_album artists) (or_else response.items []))
          response.pagination)

  -- What `getAlbum` and `updateAlbum` make of the reply.
  unfoldable pub complete_album : ApiAlbum → M Album
  complete_album album = do
    artist ← lookup browser server views.artist artist_path album.artist_id
    return (map_album album (or_else (artist_name_of artist) unknown_artist))

  unfoldable pub get_album : String → M Album
  get_album id = do
    res ← api_get browser server (album_path id) []
    album ← reply_of views.album res
    complete_album album

  unfoldable pub list_artists : List (String × Option String) → M (PaginatedResponse Artist)
  list_artists params = do
    res ← api_get browser server "/catalog/artists" params
    response ← reply_of views.artist_list res
    return (to_paginated_response (map map_artist (or_else response.items [])) response.pagination)

  unfoldable pub get_artist : String → M Artist
  get_artist id = do
    res ← api_get browser server (artist_path id) []
    artist ← reply_of views.artist res
    return (map_artist artist)

  unfoldable pub update_track : String → Json → M Track
  update_track id body = do
    res ← api_patch browser server (track_path id) (some body)
    updated ← reply_of views.track res
    complete_track updated

  unfoldable pub update_album : String → Json → M Album
  update_album id body = do
    res ← api_patch browser server (album_path id) (some body)
    updated ← reply_of views.album res
    complete_album updated

  unfoldable pub update_artist : String → Json → M Artist
  update_artist id body = do
    res ← api_patch browser server (artist_path id) (some body)
    updated ← reply_of views.artist res
    return (map_artist updated)
