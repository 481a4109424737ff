-- ===== src/Player/History.antt =====
-- player.ts, lines 4 to 52: the history of recently played tracks and its copy in `localStorage`.
use mc_service.Prelude.{
  ℕ, String, Option, none, some, List, [], ◌∷◌, if◌then◌else◌, str_eq, take, map,
}
use mc_service.Json.{Json, null, str, arr, obj, Items, nil, cons, Fields, member, of_list}
use mc_service.Platform.{Storage, get_item, set_item, Platform}
use mc_service.Player.State.{Track}

abbrev pub recently_played_key : String
recently_played_key = "player_recently_played"

abbrev pub recently_played_limit : ℕ
recently_played_limit = 80

-- The test of the `filter`: an object with a text `id` and a text `title`.
as_track_of : Fields → Option Json → Option Json → Option Track
as_track_of fields (some (str id)) (some (str title)) =
    some (record { id = id; title = title; members = fields })
as_track_of fields _ _ = none

unfoldable pub as_track : Json → Option Track
unfolding member as_track_of
as_track (obj fields) = as_track_of fields (member "id" fields) (member "title" fields)
as_track _ = none

unfoldable pub keep_tracks : Items → List (Option Track)
unfolding as_track
keep_tracks nil = []
keep_tracks (cons entry rest) = elim (as_track entry) [
  | none ↦ keep_tracks rest
  | some track ↦ some track ∷ keep_tracks rest
]

tracks_of : Option Json → List (Option Track)
tracks_of (some (arr items)) = keep_tracks items
tracks_of _ = []

-- `JSON.stringify` writes an `undefined` entry of an array as `null`.
abbrev pub entry_json : Option Track → Json
entry_json none = null
entry_json (some track) = obj track.members

abbrev pub history_json : List (Option Track) → Json
history_json tracks = arr (of_list (map entry_json tracks))

module _ (browser : Platform) where
  open browser use {has_window, accepts, parse, stringify}

  unfoldable pub load_recently_played : Storage → List (Option Track)
  unfolding tracks_of keep_tracks
  load_recently_played storage =
      if has_window
      then elim (get_item recently_played_key storage) [
        | none ↦ []
        | some raw ↦ if str_eq raw "" then [] else tracks_of (parse raw)
      ]
      else []

  -- A `setItem` that throws is ignored.
  unfoldable pub persist_recently_played : List (Option Track) → Storage → Storage
  persist_recently_played tracks storage =
      let text = stringify (history_json tracks) in
      if has_window
      then (if accepts storage recently_played_key text
          then set_item recently_played_key text storage
          else storage)
      else storage

  -- The new history; its copy in storage is the second part.
  unfoldable pub push_recently_played :
      List (Option Track) → Option Track → Storage → List (Option Track) × Storage
  push_recently_played history track storage =
      let next = take recently_played_limit (track ∷ history) in
      (next, persist_recently_played next storage)
