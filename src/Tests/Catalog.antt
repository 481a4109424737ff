-- ===== src/Tests/Catalog.antt =====
-- A catalog of one album and two tracks, whose artist the server knows.
use mc_service.Prelude.{
  ◌≢◌, ◌≤◌, ◌≡◌, ◌⊎◌, refl, String, none, some, [], ◌∷◌, true, length, All, Has, inl, inr,
  IsDistinct, eq_iff,
}
use mathlib.Core.Bool.{false≢true}
use mc_service.Prelude.Int.{pos}
use mc_service.Json.{null, obj, end}
use mc_service.Platform.{Platform}
use mc_service.Session.State.{World, Server}
use mc_service.Session.Auth.{initial}
use mc_service.Session.Client.{api_get, request, send, fetch, finish, request_again}
use mc_service.Session.Outcome.{EndsIn}
use mc_service.Catalog.Types.{ApiTrack, ApiAlbum, ApiArtist, TrackMetadata, CatalogViews}
use mc_service.Catalog.Lookup.{
  parse_metadata, fetch_by_id, unique_ids, unique_from, fetch_each, get_or_null,
  fetch_artists_by_id, get_entry, map_album, to_paginated_response,
}
use mc_service.Catalog.Operations.{list_albums, reply_of}
use mc_service.Catalog.Unique.{unique_ids-IsDistinct, unique_ids-Has}
use mc_service.Catalog.Pages.{IsAlbumPage, list_albums-EndsIn}

abbrev api_track : String → String → ApiTrack
api_track id metadata_json = record {
  id = id;
  title = "title";
  artist_id = "a1";
  album_id = "";
  duration_secs = pos 180;
  track_number = pos 1;
  disc_number = pos 1;
  genre = "";
  year = pos 2020;
  metadata_json = metadata_json;
  created_at = none;
  manually_edited = none;
}

abbrev api_album : ApiAlbum
api_album = record {
  id = "al";
  title = "album";
  artist_id = "a1";
  year = pos 2020;
  genre = "";
  artwork_url = "";
  metadata_json = "";
  created_at = none;
  manually_edited = none;
}

abbrev api_artist : ApiArtist
api_artist = record {
  id = "a1";
  name = "Artist";
  bio = "";
  image_url = "";
  metadata_json = "";
  created_at = none;
  manually_edited = none;
  formed_date = none;
  origin_country = none;
}

abbrev named : TrackMetadata
named = record { artist = some "Guest"; album = none; artwork_url = none }

abbrev views : CatalogViews
views = record {
  track_list = λ _. record {
    items = some (api_track "t1" "" ∷ api_track "t2" "{}" ∷ []);
    pagination = none;
  };
  album_list = λ _. record { items = some (api_album ∷ []); pagination = none };
  artist_list = λ _. record { items = none; pagination = none };
  track = λ _. api_track "t2" "{}";
  album = λ _. api_album;
  artist = λ _. api_artist;
  metadata = λ _. some named;
}

abbrev browser : Platform
browser = record {
  has_window = true;
  accepts = λ _ _ _. true;
  parse = λ _. some null;
  stringify = λ _. "";
  atob = λ _. none;
  to_number = λ _. none;
}

abbrev server : Server
server _ = some (record { status = 200; content = some (obj end) })

abbrev fresh : World
fresh = initial none []

whole : Unit {0}
unfolding initial api_get request send fetch finish request_again parse_metadata fetch_by_id
    fetch_each get_or_null unique_from list_albums reply_of fetch_artists_by_id get_entry map_album
    to_paginated_response
whole = tt

abbrev after : String → World
after path = (api_get browser server path [] fresh).1

unique_ids-IsDistinct_example :
    IsDistinct (unique_ids ("a" ∷ "b" ∷ "a" ∷ "" ∷ []))
    × All (λ id. id ≢ "") (unique_ids ("a" ∷ "b" ∷ "a" ∷ "" ∷ []))
    × (length (unique_ids ("a" ∷ "b" ∷ "a" ∷ "" ∷ [])) ≤ 4)
    × All (λ id. Has id ("a" ∷ "b" ∷ "a" ∷ "" ∷ [])) (unique_ids ("a" ∷ "b" ∷ "a" ∷ "" ∷ []))
    × All
        (λ id. (id ≡ "") ⊎ Has id (unique_ids ("a" ∷ "b" ∷ "a" ∷ "" ∷ [])))
        ("a" ∷ "b" ∷ "a" ∷ "" ∷ [])
unique_ids-IsDistinct_example = unique_ids-IsDistinct ("a" ∷ "b" ∷ "a" ∷ "" ∷ [])

kept_id : Has "a" (unique_ids ("b" ∷ "a" ∷ "a" ∷ []))
kept_id =
    unique_ids-Has ("b" ∷ "a" ∷ "a" ∷ []) "a" (inr (inl refl))
      (λ e. false≢true ((eq_iff "a" "").1 e))

albums_named :
    EndsIn
      (IsAlbumPage views browser server (obj end) (after "/catalog/albums"))
      3
      (after "/catalog/albums")
      (list_albums views browser server [] fresh)
unfolding whole
albums_named =
    list_albums-EndsIn views browser server [] fresh (after "/catalog/albums") (obj end) refl
