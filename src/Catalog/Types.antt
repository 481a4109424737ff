-- ===== src/Catalog/Types.antt =====
-- The objects of the catalog's replies, those that the client hands on, and the casts between.
use mc_service.Prelude.{String, Option, List, Bool}
use mc_service.Prelude.Int.{ℤ}
use mc_service.Json.{Json}

pub record ApiPagination : Type 0 where
  pub total_items : ℤ
  pub total_pages : ℤ
  pub current_page : ℤ
  pub page_size : ℤ

pub record ApiTrack : Type 0 where
  pub id : String
  pub title : String
  pub artist_id : String
  pub album_id : String
  pub duration_secs : ℤ
  pub track_number : ℤ
  pub disc_number : ℤ
  pub genre : String
  pub year : ℤ
  pub metadata_json : String
  pub created_at : Option String
  pub manually_edited : Option Bool

pub record ApiAlbum : Type 0 where
  pub id : String
  pub title : String
  pub artist_id : String
  pub year : ℤ
  pub genre : String
  pub artwork_url : String
  pub metadata_json : String
  pub created_at : Option String
  pub manually_edited : Option Bool

pub record ApiArtist : Type 0 where
  pub id : String
  pub name : String
  pub bio : String
  pub image_url : String
  pub metadata_json : String
  pub created_at : Option String
  pub manually_edited : Option Bool
  pub formed_date : Option String
  pub origin_country : Option String

-- The list responses, of tracks, albums or artists; `items` stands for the member of that name.
pub record ListResponse (A : Type 0) : Type 0 where
  pub items : Option (List A)
  pub pagination : Option ApiPagination

pub record TrackMetadata : Type 0 where
  pub artist : Option String
  pub album : Option String
  pub artwork_url : Option String

pub record Track : Type 0 where
  pub id : String
  pub title : String
  pub artist_id : String
  pub artist_name : String
  pub album_id : String
  pub album_title : String
  pub duration_secs : ℤ
  pub track_number : ℤ
  pub disc_number : ℤ
  pub genre : String
  pub year : ℤ
  pub artwork_url : String
  pub created_at : String
  pub metadata_json : String
  pub manually_edited : Bool

pub record Album : Type 0 where
  pub id : String
  pub title : String
  pub artist_id : String
  pub artist_name : String
  pub year : ℤ
  pub genre : String
  pub artwork_url : String
  pub track_count : ℤ
  pub created_at : String
  pub metadata_json : String
  pub manually_edited : Bool

pub record Artist : Type 0 where
  pub id : String
  pub name : String
  pub bio : String
  pub image_url : String
  pub album_count : ℤ
  pub track_count : ℤ
  pub created_at : String
  pub metadata_json : String
  pub manually_edited : Bool
  pub formed_date : String
  pub origin_country : String

pub record PaginatedResponse (A : Type 0) : Type 0 where
  pub items : List A
  pub total : ℤ
  pub page : ℤ
  pub page_size : ℤ
  pub total_pages : ℤ

-- The casts of a parsed value: what reading it as a type gives. Of metadata `none` is null.
pub record CatalogViews : Type 0 where
  pub track_list : Json → ListResponse ApiTrack
  pub album_list : Json → ListResponse ApiAlbum
  pub artist_list : Json → ListResponse ApiArtist
  pub track : Json → ApiTrack
  pub album : Json → ApiAlbum
  pub artist : Json → ApiArtist
  pub metadata : Json → Option TrackMetadata
