-- ===== src/Pages/Artist.antt =====
-- The artist page, web/apps/player/src/pages/ArtistPage.tsx.
use mc_service.Prelude.{
  String, Option, none, some, List, [], ◌∷◌, Bool, true, false, not, take, map, length, ℕ,
  if◌then◌else◌, str_eq,
}
use mc_service.Prelude.Int.{ℤ, pos, ◌-ℤ◌, ◌+ℤ◌}
use mc_service.Sorting.{sort}
use mc_service.Platform.{Platform}
use mc_service.Session.State.{Server, Result, ok, raise, World, M, ◌>>=◌, return}
use mc_service.Library.Defs.{to_timestamp, minus, order_of, is_zero}
use mc_service.Curation.Choice.{filter}
use mc_service.Catalog.Types.{Track, Album, Artist, CatalogViews}
use mc_service.Catalog.Lookup.{includes}
use mc_service.Catalog.Operations.{get_artist, list_albums, list_tracks}
use mc_service.Pages.Attempts.{is_unauthorized_error}
use mc_service.Pages.Discovery.Defs.{album_of}

pub record ArtistPage : Type 0 where
  pub artist : Option Artist
  pub albums : List Album
  pub tracks : List Track
  pub loading : Bool
  pub error : Option String

abbrev pub opened : ArtistPage
opened = record { artist = none; albums = []; tracks = []; loading = true; error = none }

-- The loop of `uniqueBy`, where the keys in `seen` have occurred.
unfoldable pub unique_by : {A : Type 0} → (A → String) → List String → List A → List A
unique_by key seen [] = []
unique_by key seen (x ∷ xs) =
    let skipped = unique_by key seen xs in
    let taken = unique_by key (key x ∷ seen) xs in
    if includes (key x) seen then skipped else x ∷ taken

abbrev pub by_year : Album → Album → ℤ
by_year a b = b.year -ℤ a.year

abbrev own_ids : List Album → List String
own_ids albums = map (λ a. a.id) albums

abbrev total : List Track → ℤ
total [] = pos 0
total (t ∷ ts) = t.duration_secs +ℤ total ts

pub record ArtistStats : Type 0 where
  pub album_count : ℕ
  pub track_count : ℕ
  pub total_duration_secs : ℤ

-- The albums of the tracks that are on none of the artist's own, each once.
unfoldable pub appears_on : ArtistPage → List Album
unfolding unique_by
appears_on p = sort by_year (
    map album_of (
      unique_by (λ t. t.album_id) []
        (filter (λ t. not (includes t.album_id (own_ids p.albums))) p.tracks)))

-- `Date.parse` and `toLowerCase` are the browser's.
module _ (date_parse : String → Option ℤ) where
  abbrev newer : String → String → ℤ
  newer a b = order_of (minus (to_timestamp date_parse (some b)) (to_timestamp date_parse (some a)))

  abbrev pub by_release : Album → Album → ℤ
  by_release a b =
      if is_zero (b.year -ℤ a.year) then newer a.created_at b.created_at else b.year -ℤ a.year

  unfoldable pub sorted_albums : ArtistPage → List Album
  sorted_albums p = sort by_release p.albums

  unfoldable pub top_tracks : (String → String) → ArtistPage → List Track
  unfolding unique_by
  top_tracks fold p = take 5 (
      sort (λ a b. newer a.created_at b.created_at)
        (unique_by (λ t. fold t.title) []
          (filter (λ t. includes t.album_id (own_ids p.albums)) p.tracks)))

  unfoldable pub stats : ArtistPage → ArtistStats
  unfolding sorted_albums
  stats p = record {
    album_count = length (sorted_albums p);
    track_count = length p.tracks;
    total_duration_secs = total p.tracks;
  }

abbrev of_artist : String → String → List (String × Option String)
of_artist id size = ("artist_id", some id) ∷ ("page", some "1") ∷ ("page_size", some size) ∷ []

unfoldable pub begin_artist : ArtistPage → ArtistPage
begin_artist p = record p { loading = true; error = none }

-- `load` behind its `await`; `cancelled` is whether the page is gone by then.
unfoldable pub end_artist :
    Bool → Result (Artist × List Album × List Track) → ArtistPage → ArtistPage
end_artist true r p = p
end_artist false (ok (artist, albums, tracks)) p = record p {
  artist = some artist;
  albums = albums;
  tracks = tracks;
  loading = false;
}
end_artist false (raise e) p =
    if is_unauthorized_error e
    then record p { loading = false }
    else record p { error = some "We couldn't load this artist."; loading = false }

module _ (views : CatalogViews) (browser : Platform) (server : Server) where
  unfoldable pub artist_data : String → M (Artist × List Album × List Track)
  artist_data id = do
    artist ← get_artist views browser server id
    albums ← list_albums views browser server (of_artist id "100")
    tracks ← list_tracks views browser server (of_artist id "200")
    return (artist, albums.items, tracks.items)

  -- The effect on the id of the address; without one nothing is loaded.
  unfoldable pub load_artist : Bool → String → ArtistPage → World → ArtistPage × World
  unfolding artist_data begin_artist end_artist
  load_artist cancelled id p w =
      let (r, w') = artist_data id w in
      if str_eq id "" then (p, w) else (end_artist cancelled r (begin_artist p), w')
