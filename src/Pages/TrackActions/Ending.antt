-- ===== src/Pages/TrackActions/Ending.antt =====
-- A 401 while the menu of a track saves.
use mc_service.Prelude.{
  String, ◌≡◌, refl, Option, none, some, Bool, true, false, ◌||◌, str_eq, if_off, subst, sym, ◌∙◌,
}
use mc_service.Json.{Json}
use mc_service.Platform.{Platform}
use mc_service.Session.State.{Result, raise, api_error, World, Server}
use mc_service.Session.Ending.{IsEnded}
use mc_service.Playlists.{Playlist, Views}
use mc_service.Playlists.Ending.{add_track-IsEnded, remove_track-IsEnded}
use mc_service.Library.Saving.{bound-IsEnded, ensure-IsEnded, ensure-handler}
use mc_service.Pages.TrackActions.{
  TrackMenu, is_in_library, begin_toggle, end_toggle, known_or_ensured, updated_at, update_library,
  handle_toggle_library,
}

-- The menu stays open, without a message, and takes the next click.
pub record IsQuiet (before after : TrackMenu) : Type 0 where
  pub error : after.error ≡ ""
  pub saving : after.saving_library ≡ false
  pub is_closed : after.is_closed ≡ before.is_closed
  pub told : after.told ≡ before.told
  pub favorites : after.favorites_playlist ≡ before.favorites_playlist

end_toggle-IsQuiet :
    (track_id : String) (before : Bool) (m : TrackMenu) (r : Result (Option Playlist))
    {b : Option Json}
    → r ≡ raise (api_error 401 b)
    → IsQuiet m (end_toggle track_id before r (begin_toggle m))
unfolding end_toggle
end_toggle-IsQuiet track_id before m r e =
    subst (λ r'. IsQuiet m (end_toggle track_id before r' (begin_toggle m))) (sym e)
      (record { error = refl; saving = refl; is_closed = refl; told = refl; favorites = refl })

module _ (views : Views) (browser : Platform) (window : browser.has_window ≡ true)
    (server : Server) where
  known-IsEnded :
      (o : Option Playlist) (w : World) {b : Option Json}
      → w.has_handler ≡ true
      → (known_or_ensured views browser server o w).0 ≡ raise (api_error 401 b)
      → IsEnded (known_or_ensured views browser server o w).1
  known-IsEnded (some p) w handler e = cc
  known-IsEnded none w handler e = ensure-IsEnded views browser window server w handler e

  known-handler :
      (o : Option Playlist) (w : World)
      → (known_or_ensured views browser server o w).1.has_handler ≡ w.has_handler
  known-handler (some p) w = refl
  known-handler none w = ensure-handler views browser window server w

  updated-IsEnded :
      (before : Bool) (track_id : String) (o : Option Playlist) (w : World) {b : Option Json}
      → w.has_handler ≡ true
      → (updated_at views browser server before track_id o w).0 ≡ raise (api_error 401 b)
      → IsEnded (updated_at views browser server before track_id o w).1
  updated-IsEnded before track_id none w handler e = cc
  updated-IsEnded true track_id (some p) w handler e =
      remove_track-IsEnded views browser window server p.id track_id w handler e
  updated-IsEnded false track_id (some p) w handler e =
      add_track-IsEnded views browser window server p.id track_id w handler e

  update-IsEnded :
      (track_id : String) (m : TrackMenu) (w : World) {b : Option Json}
      → w.has_handler ≡ true
      → (update_library views browser server track_id m w).0 ≡ raise (api_error 401 b)
      → IsEnded (update_library views browser server track_id m w).1
  unfolding update_library
  update-IsEnded track_id m w handler e =
      bound-IsEnded views browser window server
        (known_or_ensured views browser server m.favorites_playlist w) _
        (known-handler m.favorites_playlist w ∙ handler)
        (known-IsEnded m.favorites_playlist w handler)
        (λ o w' h. updated-IsEnded (is_in_library track_id m) track_id o w' h) e

  -- Where a click on the library's entry is taken, that of a track with an id while nothing is
  -- saved, and one of its calls fails with a 401, nobody is signed in any more, in memory and in
  -- storage; and the menu stays as it was, without a message: with a window and with the handler of
  -- the auth store in place.
  pub handle_toggle_library-IsEnded :
      (track_id : String) (m : TrackMenu) (w : World) {b : Option Json}
      → (str_eq track_id "" || m.saving_library) ≡ false
      → w.has_handler ≡ true
      → (update_library views browser server track_id m w).0 ≡ raise (api_error 401 b)
      → IsEnded (handle_toggle_library views browser server track_id m w).1
        × IsQuiet m (handle_toggle_library views browser server track_id m w).0
  unfolding handle_toggle_library
  handle_toggle_library-IsEnded track_id m w taken handler e =
      subst (λ (r : TrackMenu × World). IsEnded r.1 × IsQuiet m r.0)
        (sym (if_off (str_eq track_id "" || m.saving_library) _ _ taken))
        (
          update-IsEnded track_id m w handler e,
          end_toggle-IsQuiet track_id (is_in_library track_id m) m _ e,
        )
