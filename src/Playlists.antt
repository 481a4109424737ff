-- ===== src/Playlists.antt =====
-- web/packages/shared/src/api/playlists.ts: playlists over the API client.
pub mod Ending
use mc_service.Prelude.{ℕ, String, Option, none, some, List, [], ◌∷◌, Bool, true, false}
use Prim.Native.String
use mc_service.Prelude.Int.{ℤ}
use mc_service.Json.{Json, bool, str, obj, field, end}
use mc_service.Platform.{Platform}
use mc_service.Session.State.{ok, raise, thrown, Server, M, ◌>>=◌, return}
use mc_service.Session.Client.{api_get, api_post, api_delete}

pub record PlaylistTrack : Type 0 where
  pub track_id : String
  pub position : ℤ
  pub added_at : Option String

pub record Playlist : Type 0 where
  pub id : String
  pub name : String
  pub description : Option String
  pub is_public : Bool
  pub tracks : List PlaylistTrack

-- The casts of a parsed reply: what reading it as a type gives. Of a list of playlists `none` is a
-- missing member `playlists`.
pub record Views : Type 0 where
  pub playlist_list : Json → Option (List Playlist)
  pub playlist : Json → Playlist

abbrev pub favorites_description : String
favorites_description = "Tracks marked as favorites"

pub record CreatePlaylistRequest : Type 0 where
  pub name : String
  pub description : Option String
  pub is_public : Option Bool

abbrev or_empty : Option String → String
or_empty none = ""
or_empty (some s) = s

abbrev or_false : Option Bool → Bool
or_false none = false
or_false (some b) = b

abbrev pub create_body : CreatePlaylistRequest → Json
create_body request = obj (
    field "name" (str request.name) (
      field "description" (str (or_empty request.description))
        (field "is_public" (bool (or_false request.is_public)) end)))

abbrev pub add_body : String → Json
add_body track_id = obj (field "trackId" (str track_id) end)

abbrev pub playlist_path : String → String
playlist_path id = String.◌++◌ "/playlists/" id

abbrev pub tracks_path : String → String
tracks_path id = String.◌++◌ (playlist_path id) "/tracks"

module _ (views : Views) where
  -- `response.playlists ?? []`; a member of undefined throws.
  unfoldable pub listed : Option Json → M (List Playlist)
  listed none w = (raise thrown, w)
  listed (some j) w = elim (views.playlist_list j) [ none ↦ (ok [], w) | some ps ↦ (ok ps, w) ]

  -- The cast of a reply; `none` is undefined.
  abbrev pub as_playlist : Option Json → Option Playlist
  as_playlist none = none
  as_playlist (some j) = some (views.playlist j)

  module _ (browser : Platform) (server : Server) where
    unfoldable pub list_playlists : List (String × Option String) → M (List Playlist)
    list_playlists params = do res ← api_get browser server "/playlists" params; listed res

    unfoldable pub create_playlist : CreatePlaylistRequest → M (Option Playlist)
    create_playlist request = do
      res ← api_post browser server "/playlists" (some (create_body request))
      return (as_playlist res)

    unfoldable pub get_playlist : String → M (Option Playlist)
    get_playlist id = do
      res ← api_get browser server (playlist_path id) []
      return (as_playlist res)

    unfoldable pub add_track : String → String → M (Option Playlist)
    add_track id track_id = do
      res ← api_post browser server (tracks_path id) (some (add_body track_id))
      return (as_playlist res)

    unfoldable pub remove_track : String → String → M (Option Playlist)
    remove_track id track_id = do
      res ← api_delete browser server (String.◌++◌ (tracks_path id) (String.◌++◌ "/" track_id))
      return (as_playlist res)
