-- ===== src/Admin/Metadata.antt =====
-- The metadata editor, web/apps/admin/src/pages/MetadataEditorPage.tsx, and its drawer `EditDrawer`.
use mc_service.Prelude.{
  String, Option, none, some, List, [], ◌∷◌, Bool, false, ◌||◌, if◌then◌else◌, str_eq, codes,
  trimmed, contains,
}
use Prim.Native.String
use mc_service.Prelude.Int.{ℤ}
use mc_service.Json.{Json, bool, num, str, obj, field, end}
use mc_service.Platform.{Platform}
use mc_service.Session.State.{Server, Result, ok, raise, World, M, ◌>>=◌, return}
use mc_service.Curation.Choice.{filter}
use mc_service.Catalog.Types.{Track, Album, Artist, CatalogViews}
use mc_service.Catalog.Operations.{
  list_tracks, list_albums, list_artists, update_track, update_album, update_artist,
}
use mc_service.Admin.Feedback.{Feedback, success, error, told, api_error_message}

pub data EditorTab : Type 0 where
  tracks albums artists : EditorTab

pub data EditingRecord : Type 0 where
  track_record : Track → EditingRecord
  album_record : Album → EditingRecord
  artist_record : Artist → EditingRecord

pub record EditorPage : Type 0 where
  pub tab : EditorTab
  pub track_items : List Track
  pub album_items : List Album
  pub artist_items : List Artist
  pub loading : Bool
  pub search : String
  pub editing : Option EditingRecord
  pub feedback : Option Feedback

abbrev pub opened : EditorPage
opened = record {
  tab = tracks;
  track_items = [];
  album_items = [];
  artist_items = [];
  loading = false;
  search = "";
  editing = none;
  feedback = none;
}

-- The forms of the drawer, as they are filled for a record.
pub record TrackForm : Type 0 where
  pub title : String
  pub genre : String
  pub year : ℤ
  pub track_number : ℤ
  pub disc_number : ℤ

pub record AlbumForm : Type 0 where
  pub title : String
  pub year : ℤ
  pub genre : String
  pub artwork_url : String

pub record ArtistForm : Type 0 where
  pub name : String
  pub bio : String
  pub image_url : String
  pub formed_date : String
  pub origin_country : String

-- The record with its form.
pub data EditForm : Type 0 where
  of_track : Track → TrackForm → EditForm
  of_album : Album → AlbumForm → EditForm
  of_artist : Artist → ArtistForm → EditForm

unfoldable pub form_of : EditingRecord → EditForm
form_of (track_record t) = of_track t (record {
  title = t.title;
  genre = t.genre;
  year = t.year;
  track_number = t.track_number;
  disc_number = t.disc_number;
})
form_of (album_record a) =
    of_album a
      (record { title = a.title; year = a.year; genre = a.genre; artwork_url = a.artwork_url })
form_of (artist_record a) = of_artist a (record {
  name = a.name;
  bio = a.bio;
  image_url = a.image_url;
  formed_date = a.formed_date;
  origin_country = a.origin_country;
})

abbrev pub record_is_edited : EditingRecord → Bool
record_is_edited (track_record t) = t.manually_edited
record_is_edited (album_record a) = a.manually_edited
record_is_edited (artist_record a) = a.manually_edited

abbrev track_body : TrackForm → Json
track_body f = obj (
    field "title" (str f.title) (
      field "genre" (str f.genre) (
        field "year" (num f.year) (
          field "track_number" (num f.track_number)
            (field "disc_number" (num f.disc_number) end)))))

abbrev album_body : AlbumForm → Json
album_body f = obj (
    field "title" (str f.title) (
      field "year" (num f.year)
        (field "genre" (str f.genre) (field "artwork_url" (str f.artwork_url) end))))

abbrev artist_body : ArtistForm → Json
artist_body f = obj (
    field "name" (str f.name) (
      field "bio" (str f.bio) (
        field "image_url" (str f.image_url) (
          field "formed_date" (str f.formed_date)
            (field "origin_country" (str f.origin_country) end)))))

abbrev saved_message : String → String
saved_message name = String.◌++◌ "Saved “" (String.◌++◌ name "”.")

abbrev all_records : List (String × Option String)
all_records = ("page", some "1") ∷ ("page_size", some "200") ∷ []

-- The searches; `fold` is `toLowerCase`.
module _ (fold : String → String) where
  abbrev term : EditorPage → String
  term p = fold (trimmed p.search)

  abbrev holds : String → String → Bool
  holds q text = contains (codes q) (codes (fold text))

  unfoldable pub filtered_tracks : EditorPage → List Track
  filtered_tracks p =
      if str_eq (term p) ""
      then p.track_items
      else filter
          (λ t.
            holds (term p) t.title || holds (term p) t.artist_name || holds (term p) t.album_title)
          p.track_items

  unfoldable pub filtered_albums : EditorPage → List Album
  filtered_albums p =
      if str_eq (term p) ""
      then p.album_items
      else filter (λ a. holds (term p) a.title || holds (term p) a.artist_name) p.album_items

  unfoldable pub filtered_artists : EditorPage → List Artist
  filtered_artists p =
      if str_eq (term p) ""
      then p.artist_items
      else filter (λ a. holds (term p) a.name) p.artist_items

-- `shown` is how the page renders a message that is not a text.
module _ (shown : Json → String) where
  abbrev pub loaded :
      {A : Type 0} → (A → EditorPage → EditorPage) → Result A → EditorPage → EditorPage
  loaded keep (ok items) p = record (keep items p) { loading = false }
  loaded keep (raise e) p = record p {
    feedback = told error (api_error_message shown "Could not load catalog records." e);
    loading = false;
  }

  -- The end of a save or a reset: the drawer closes, unless it failed.
  unfoldable pub end_edit : String → Result String → EditorPage → EditorPage
  end_edit fallback (ok message) p = record p { editing = none; feedback = told success message }
  end_edit fallback (raise e) p = record p {
    feedback = told error (api_error_message shown fallback e);
  }

  module _ (views : CatalogViews) (browser : Platform) (server : Server) where
    unfoldable pub load : EditorTab → EditorPage → World → EditorPage × World
    load tracks p w =
        let (r, w') = list_tracks views browser server all_records w in
        (loaded (λ res q. record q { track_items = res.items }) r p, w')
    load albums p w =
        let (r, w') = list_albums views browser server all_records w in
        (loaded (λ res q. record q { album_items = res.items }) r p, w')
    load artists p w =
        let (r, w') = list_artists views browser server all_records w in
        (loaded (λ res q. record q { artist_items = res.items }) r p, w')

    unfoldable pub save : EditForm → M String
    save (of_track t f) = do
      _ ← update_track views browser server t.id (track_body f)
      return (saved_message f.title)
    save (of_album a f) = do
      _ ← update_album views browser server a.id (album_body f)
      return (saved_message f.title)
    save (of_artist a f) = do
      _ ← update_artist views browser server a.id (artist_body f)
      return (saved_message f.name)

    abbrev unfreeze : Json
    unfreeze = obj (field "manually_edited" (bool false) end)

    abbrev reset_message : String
    reset_message =
        "Cleared manual override. iTunes ingestion will refresh this record on its next run."

    unfoldable pub refetch : EditForm → M String
    refetch (of_track t f) = do
      _ ← update_track views browser server t.id unfreeze
      return reset_message
    refetch (of_album a f) = do
      _ ← update_album views browser server a.id unfreeze
      return reset_message
    refetch (of_artist a f) = do
      _ ← update_artist views browser server a.id unfreeze
      return reset_message

    -- Behind a save or a reset that did not fail, the tab is loaded again.
    abbrev after_edit : String → Result String × World → EditorPage → EditorPage × World
    after_edit fallback (ok message, w) p = load p.tab (end_edit fallback (ok message) p) w
    after_edit fallback (raise e, w) p = (end_edit fallback (raise e) p, w)

    unfoldable pub handle_save : EditForm → EditorPage → World → EditorPage × World
    unfolding save load end_edit
    handle_save form p w = after_edit "Save failed." (save form w) p

    unfoldable pub handle_refetch : EditForm → EditorPage → World → EditorPage × World
    unfolding refetch load end_edit
    handle_refetch form p w = after_edit "Could not reset to iTunes metadata." (refetch form w) p
