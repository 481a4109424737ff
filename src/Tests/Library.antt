-- ===== src/Tests/Library.antt =====
-- A playlist with dates, one without, and saves against small servers.
use mc_service.Prelude.{
  ◌≡◌, ◌≤◌, refl, String, Option, none, some, List, [], ◌∷◌, true, false, length, All, Has,
  IsDistinct, map, if◌then◌else◌, str_eq, trim,
}
use mc_service.Prelude.Int.{ℤ, pos, ◌-ℤ◌}
use mc_service.Json.{str, obj, end}
use mc_service.Platform.{Platform, get_item}
use mc_service.Session.State.{World, Server}
use mc_service.Session.Auth.{initial}
use mc_service.Session.Ending.{IsEnded}
use mc_service.Playlists.{PlaylistTrack, Playlist, Views, add_track, listed, list_playlists}
use mc_service.Sorting.{sort, insert}
use mc_service.Session.Client.{
  api_get, request, send, fetch, finish, request_again, can_attempt_refresh, refresh_access_token,
  refresh_with, end_session, should_clear_session_on_unauthorized, resume_request, renew,
}
use mc_service.Library.Defs.{
  recently_added_track_ids, compare_added, to_timestamp, keep_first, ensure_named_playlist,
  found_or_created, index_of_from, find, fold_name, save_track_to_library,
  ensure_user_favorites_playlist,
}
use mc_service.Library.Recent.{recently_added_bounds, recently_added_undated}
use mc_service.Pages.TrackActions.{TrackMenu, update_library, handle_toggle_library}
use mc_service.Pages.TrackActions.Ending.{IsQuiet, handle_toggle_library-IsEnded}
use mc_service.Session.Client.{api_post, api_delete}
use mc_service.Playlists.{remove_track}
use mc_service.Library.Defs.{playlist_contains_track}
use mc_service.Library.Saving.{Saves, save_track-add_track, save_track-IsEnded}

abbrev track : String → ℤ → Option String → PlaylistTrack
track id position added_at = record { track_id = id; position = position; added_at = added_at }

abbrev playlist : List PlaylistTrack → Playlist
playlist tracks = record {
  id = "p";
  name = " FAVORITES ";
  description = none;
  is_public = false;
  tracks = tracks;
}

abbrev date_parse : String → Option ℤ
date_parse text = if str_eq text "monday" then some (pos 1) else some (pos 2)

abbrev dated : Playlist
dated = playlist (
    track "a" (pos 0) (some "monday")
    ∷ track "b" (pos 1) (some "tuesday")
    ∷ track "c" (pos 2) (some "monday")
    ∷ track "b" (pos 3) (some "monday")
    ∷ [])

abbrev undated : Playlist
undated = playlist (track "a" (pos 0) none ∷ track "b" (pos 1) none ∷ [])

newest : recently_added_track_ids date_parse (some dated) (pos 2) ≡ "b" ∷ "c" ∷ []
unfolding recently_added_track_ids compare_added to_timestamp keep_first index_of_from sort insert
    ◌-ℤ◌
newest = refl

recently_added_bounds_example :
    (length (recently_added_track_ids date_parse (some dated) (pos 2)) ≤ 2)
    × IsDistinct (recently_added_track_ids date_parse (some dated) (pos 2))
    × All
        (λ id. Has id (map (λ t. t.track_id) dated.tracks))
        (recently_added_track_ids date_parse (some dated) (pos 2))
recently_added_bounds_example = recently_added_bounds date_parse dated (pos 2)

recently_added_undated_example :
    recently_added_track_ids date_parse (some undated) (pos 5) ≡ "a" ∷ "b" ∷ []
unfolding to_timestamp keep_first index_of_from
recently_added_undated_example =
    recently_added_undated date_parse undated (pos 5) (refl, (refl, tt)) refl

abbrev browser : Platform
browser = record {
  has_window = true;
  accepts = λ _ _ _. true;
  parse = λ _. none;
  stringify = λ _. "";
  atob = λ _. none;
  to_number = λ _. none;
}

abbrev views : Views
views = record { playlist_list = λ _. some (undated ∷ []); playlist = λ _. undated }

-- A server that has the track already.
abbrev server : Server
server [] = none
server (req ∷ _) =
    if str_eq req.method "GET"
    then some (record { status = 200; content = some (obj end) })
    else some (record { status = 409; content = some (str "duplicate") })

abbrev refusing : Server
refusing _ = some (record { status = 401; content = none })

abbrev fresh : World
fresh = initial none []

whole : Unit {0}
unfolding initial ensure_user_favorites_playlist ensure_named_playlist list_playlists api_get
    request send fetch finish request_again listed find fold_name found_or_created
    save_track_to_library can_attempt_refresh refresh_access_token refresh_with end_session
    should_clear_session_on_unauthorized resume_request renew trim get_item
whole = tt

save_track-add_track_example :
    ((save_track_to_library views browser server "a" fresh).1
      ≡ (add_track views browser server "p" "a"
          (ensure_user_favorites_playlist views browser server fresh).1).1)
    × Saves
        (add_track views browser server "p" "a"
          (ensure_user_favorites_playlist views browser server fresh).1).0
        (save_track_to_library views browser server "a" fresh).0
unfolding whole
save_track-add_track_example =
    save_track-add_track views browser server "a" fresh
      (ensure_user_favorites_playlist views browser server fresh).1 undated refl

save_track-IsEnded_example : IsEnded (save_track_to_library views browser refusing "a" fresh).1
unfolding whole
save_track-IsEnded_example =
    save_track-IsEnded views browser refl refusing "a" fresh {b = none} refl refl

abbrev menu : TrackMenu
menu = record {
  favorites_playlist = some undated;
  loading_library = false;
  saving_library = false;
  error = "";
  told = [];
  is_closed = false;
}

handle_toggle_library-IsEnded_example :
    IsEnded (handle_toggle_library views browser refusing "a" menu fresh).1
    × IsQuiet menu (handle_toggle_library views browser refusing "a" menu fresh).0
unfolding whole update_library playlist_contains_track add_track remove_track api_post api_delete
handle_toggle_library-IsEnded_example =
    handle_toggle_library-IsEnded views browser refl refusing "a" menu fresh {b = none} refl refl
      refl
