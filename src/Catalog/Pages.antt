-- ===== src/Catalog/Pages.antt =====
-- A page of the catalog comes whole once the server has replied with its list.
use mc_service.Prelude.{
  ◌+◌, ◌*◌, String, ◌≡◌, refl, Option, some, List, [], arith, length, length-map, map,
}
use mc_service.Json.{Json}
use mc_service.Platform.{Platform}
use mc_service.Session.State.{ok, World, Server, return}
use mc_service.Session.Client.{api_get}
use mc_service.Session.Outcome.{EndsIn, return-EndsIn, bind-EndsIn, EndsIn-weaken}
use mc_service.Catalog.Types.{
  ApiTrack, ApiAlbum, ApiArtist, TrackMetadata, Track, Album, PaginatedResponse, CatalogViews,
}
use mc_service.Catalog.Lookup.{or_else, to_paginated_response}
use mc_service.Catalog.Operations.{name_album, with_metadata, list_albums, reply_of}
use mc_service.Catalog.Listing.{AreNamed, AreArtists, artists-EndsIn}

module _ (views : CatalogViews) (browser : Platform) (server : Server) where
  abbrev pub listed_tracks : Json → List (ApiTrack × Option TrackMetadata)
  listed_tracks json = map (with_metadata views browser) (or_else (views.track_list json).items [])

  -- A page with the tracks of the reply, in its order, each with its names. The lookups run from `w`
  -- to `w'`.
  pub record IsTrackPage (json : Json) (w : World) (page : PaginatedResponse Track) (w' : World)
      : Type 0 where
    pub tracks : List Track
    pub named : AreNamed views browser server (listed_tracks json) w tracks w'
    pub paged : page ≡ to_paginated_response tracks (views.track_list json).pagination

  abbrev pub listed_albums : Json → List ApiAlbum
  listed_albums json = or_else (views.album_list json).items []

  -- A page with the albums of the reply, in its order, named by artists that the server replied
  -- with.
  pub record IsAlbumPage (json : Json) (w : World) (page : PaginatedResponse Album) (w' : World)
      : Type 0 where
    pub artists : List (String × ApiArtist)
    pub are_artists :
        AreArtists views browser server (map (λ a. a.artist_id) (listed_albums json)) w artists w'
    pub paged :
        page
        ≡ to_paginated_response
            (map (name_album artists) (listed_albums json))
            (views.album_list json).pagination

  -- Once the server has replied with a list of albums, `listAlbums` ends with a page, whatever it
  -- answers to the lookups of artists, and after three calls at most for each album. The page holds
  -- the albums of the list in its order, each with the name of the artist that the server replied
  -- with, else a fixed one.
  pub list_albums-EndsIn :
      (params : List (String × Option String)) (w w' : World) (json : Json)
      → api_get browser server "/catalog/albums" params w ≡ (ok (some json), w')
      → EndsIn
          (IsAlbumPage json w')
          (3 * length (listed_albums json))
          w'
          (list_albums views browser server params w)
  unfolding list_albums reply_of
  list_albums-EndsIn params w w' json e = rw e (
      EndsIn-weaken _ _ (3 * length (map (λ a. a.artist_id) (listed_albums json)) + 0) _ w' _
        (λ a v x. x) (omega (arith, length-map (listed_albums json) (λ a. a.artist_id)))
        (bind-EndsIn
          (AreArtists views browser server (map (λ a. a.artist_id) (listed_albums json)) w')
          (IsAlbumPage json w') _ 0 w' _
          (λ artists. return (
            to_paginated_response (map (name_album artists) (listed_albums json))
              (views.album_list json).pagination))
          (artists-EndsIn views browser server (map (λ a. a.artist_id) (listed_albums json)) w')
          (λ artists w'' are.
            return-EndsIn (IsAlbumPage json w') _ w''
              (record { artists = artists; are_artists = are; paged = refl }))))
