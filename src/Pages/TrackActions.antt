-- ===== src/Pages/TrackActions.antt =====
-- The menu of a track, web/apps/player/src/components/common/TrackActionsModal.tsx: its library
-- state and its place. Lengths are whole numbers of half pixels.
use mc_service.Prelude.{
  ℕ, ◌+◌, ◌-◌, ◌≤◌, String, Option, none, some, List, ◌∷◌, Bool, true, false, not, ◌||◌,
  if◌then◌else◌, str_eq, leb, arith,
}
use mc_service.Platform.{Platform}
use mc_service.Session.State.{Server, thrown, Result, ok, raise, World, M, ◌>>=◌, return, throw}
use mc_service.Playlists.{Playlist, Views, remove_track, add_track}
use mc_service.Library.Defs.{ensure_user_favorites_playlist, playlist_contains_track}
use mc_service.Pages.Attempts.{is_unauthorized_error}
use mc_service.Pages.AddToPlaylist.{is_conflict_error}
pub mod Ending

-- `told` are the calls of `onLibraryStateChange`, the latest first; `is_closed` is whether `onClose`
-- was called.
pub record TrackMenu : Type 0 where
  pub favorites_playlist : Option Playlist
  pub loading_library : Bool
  pub saving_library : Bool
  pub error : String
  pub told : List (String × Bool)
  pub is_closed : Bool

abbrev pub is_in_library : String → TrackMenu → Bool
is_in_library track_id m = playlist_contains_track m.favorites_playlist (some track_id)

abbrev begin_load : TrackMenu → TrackMenu
begin_load m = record m { loading_library = true; error = "" }

-- `cancelled` is whether the menu is gone by then.
unfoldable pub end_load : Bool → Result (Option Playlist) → TrackMenu → TrackMenu
end_load true r m = m
end_load false (ok playlist) m = record m { favorites_playlist = playlist; loading_library = false }
end_load false (raise e) m = record m {
  error = if is_unauthorized_error e then m.error else "Could not load your library state.";
  loading_library = false;
}

-- The end of a save; `before` is whether the track was in the library.
unfoldable pub end_toggle : String → Bool → Result (Option Playlist) → TrackMenu → TrackMenu
end_toggle track_id before (ok updated) m = record m {
  favorites_playlist = updated;
  told = (track_id, not before) ∷ m.told;
  is_closed = true;
  saving_library = false;
}
end_toggle track_id before (raise e) m =
    if is_conflict_error e
    then record m { told = (track_id, true) ∷ m.told; saving_library = false }
    else record m {
      error = if is_unauthorized_error e then m.error else "Could not update library.";
      saving_library = false;
    }

abbrev begin_toggle : TrackMenu → TrackMenu
begin_toggle m = record m { saving_library = true; error = "" }

module _ (views : Views) (browser : Platform) (server : Server) where
  unfoldable pub load_favorites_playlist : Bool → TrackMenu → World → TrackMenu × World
  unfolding end_load
  load_favorites_playlist cancelled m w =
      let (r, w') = ensure_user_favorites_playlist views browser server w in
      (end_load cancelled r (begin_load m), w')

  -- `favoritesPlaylist ?? (await ensureUserFavoritesPlaylist())`
  abbrev known_or_ensured : Option Playlist → M (Option Playlist)
  known_or_ensured (some playlist) = return (some playlist)
  known_or_ensured none = ensure_user_favorites_playlist views browser server

  -- A member of undefined throws.
  abbrev updated_at : Bool → String → Option Playlist → M (Option Playlist)
  updated_at before track_id none = throw thrown
  updated_at true track_id (some playlist) = remove_track views browser server playlist.id track_id
  updated_at false track_id (some playlist) = add_track views browser server playlist.id track_id

  unfoldable pub update_library : String → TrackMenu → M (Option Playlist)
  update_library track_id m = do
    playlist ← known_or_ensured m.favorites_playlist
    updated_at (is_in_library track_id m) track_id playlist

  unfoldable pub handle_toggle_library : String → TrackMenu → World → TrackMenu × World
  unfolding end_toggle update_library
  handle_toggle_library track_id m w =
      let (r, w') = update_library track_id m w in
      if str_eq track_id "" || m.saving_library
      then (m, w)
      else (end_toggle track_id (is_in_library track_id m) r (begin_toggle m), w')

abbrev pub min : ℕ → ℕ → ℕ
min a b = if leb a b then a else b

abbrev pub max : ℕ → ℕ → ℕ
max a b = if leb a b then b else a

abbrev pub panel_width : ℕ
panel_width = 496

abbrev pub panel_height : ℕ
panel_height = 624

abbrev pub edge_gap : ℕ
edge_gap = 24

-- The left and the top of the menu at an anchor in a window. A difference that stops at 0 gives the
-- same place as a negative one, since the gap is greater.
unfoldable pub panel_left : ℕ → ℕ → ℕ
panel_left anchor_x viewport_width =
    max edge_gap (min (anchor_x - panel_width) (viewport_width - panel_width - edge_gap))

unfoldable pub panel_top : ℕ → ℕ → ℕ
panel_top anchor_y viewport_height =
    if leb (anchor_y + 12 + panel_height) (viewport_height - edge_gap)
    then anchor_y + 12
    else max edge_gap (anchor_y - panel_height - 12)

-- In a window that is 272 pixels wide the menu keeps 12 pixels to both sides.
pub panel_left_bounds :
    (anchor_x viewport_width : ℕ)
    → 544 ≤ viewport_width
    → (24 ≤ panel_left anchor_x viewport_width)
      × (panel_left anchor_x viewport_width + panel_width + 24 ≤ viewport_width)
unfolding panel_left
panel_left_bounds x w h = ground arith

-- In a window that is 330 pixels high, at an anchor in it, the menu keeps 6 pixels above and below.
pub panel_top_bounds :
    (anchor_y viewport_height : ℕ)
    → 660 ≤ viewport_height
    → anchor_y ≤ viewport_height
    → (12 ≤ panel_top anchor_y viewport_height)
      × (panel_top anchor_y viewport_height + panel_height + 12 ≤ viewport_height)
unfolding panel_top
panel_top_bounds y h tall inside = ground arith
