-- ===== src/Library/Saving.antt =====
-- Saving a track to the library: what the calls end with, and what a 401 does.
use mc_service.Prelude.{
  String, ◌≡◌, ◌≢◌, refl, ◌⊎◌, inl, inr, Option, none, some, Bool, true, arith, ◌∙◌, Bool-cases,
  ◌==◌,
}
use mc_service.Json.{Json}
use mc_service.Platform.{Platform}
use mc_service.Session.State.{
  Failure, Result, ok, raise, api_error, thrown, World, Server, M, bind, handle, return,
}
use mc_service.Session.Ending.{IsEnded}
use mc_service.Playlists.{Playlist, Views, favorites_description, list_playlists, add_track}
use mc_service.Playlists.Ending.{
  list_playlists-IsEnded, list_playlists-handler, create_playlist-IsEnded, create_playlist-handler,
  add_track-IsEnded,
}
use mc_service.Library.Defs.{
  SaveToLibraryResult, added, already_saved, has_name, find, first_page, favorites_name,
  found_or_created, ensure_named_playlist, ensure_user_favorites_playlist, add_to_favorites,
  save_failed, save_track_to_library,
}

-- What `saveTrackToLibrary` makes of the result of `addTrack`.
abbrev pub Saves : Result (Option Playlist) → Result SaveToLibraryResult → Type 0
Saves (ok _) r = r ≡ ok added
Saves (raise (api_error status body)) r =
    ((status ≡ 409) × (r ≡ ok already_saved))
    ⊎ ((status ≢ 409) × (r ≡ raise (api_error status body)))
Saves (raise thrown) r = r ≡ raise thrown

settle :
    (r : Result (Option Playlist) × World)
    → ((handle (bind r (λ _. return added)) save_failed).1 ≡ r.1)
      × Saves r.0 (handle (bind r (λ _. return added)) save_failed).0
unfolding save_failed
settle (ok a, w) = (refl, refl)
settle (raise (api_error status body), w) = elim (Bool-cases (status == 409)) [
  | inl same ↦ rw same (refl, inl (ground arith, refl))
  | inr other ↦ rw other (refl, inr (ground arith, refl))
]
settle (raise thrown, w) = (refl, refl)

module _ (views : Views) (browser : Platform) (server : Server) (track_id : String) where
  -- Where the playlist of favorites is at hand, saving ends as `addTrack` at it does, with the same
  -- effects: a success means "added", a 409 means "already saved", and every other failure is
  -- passed on.
  pub save_track-add_track :
      (w w' : World) (favorites : Playlist)
      → ensure_user_favorites_playlist views browser server w ≡ (ok (some favorites), w')
      → ((save_track_to_library views browser server track_id w).1
          ≡ (add_track views browser server favorites.id track_id w').1)
        × Saves
            (add_track views browser server favorites.id track_id w').0
            (save_track_to_library views browser server track_id w).0
  unfolding save_track_to_library add_to_favorites
  save_track-add_track w w' favorites e =
      rw (e, save_track_to_library)
        (settle (add_track views browser server favorites.id track_id w'))

module _ (views : Views) (browser : Platform) (window : browser.has_window ≡ true)
    (server : Server) where
  found-IsEnded :
      (name description : String) (o : Option Playlist) (w : World) {b : Option Json}
      → w.has_handler ≡ true
      → (found_or_created views browser server name description o w).0 ≡ raise (api_error 401 b)
      → IsEnded (found_or_created views browser server name description o w).1
  unfolding found_or_created
  found-IsEnded name description (some p) w handler e = cc
  found-IsEnded name description none w handler e =
      create_playlist-IsEnded views browser window server _ w handler e

  pub bound-IsEnded :
      {A B : Type 0} (r : Result A × World) (f : A → M B) {b : Option Json}
      → r.1.has_handler ≡ true
      → (r.0 ≡ raise (api_error 401 b) → IsEnded r.1)
      → ((a : A) (w : World)
          → w.has_handler ≡ true
          → (f a w).0 ≡ raise (api_error 401 b)
          → IsEnded (f a w).1)
      → (bind r f).0 ≡ raise (api_error 401 b)
      → IsEnded (bind r f).1
  bound-IsEnded (ok a, w) f handler h k e = k a w handler e
  bound-IsEnded (raise x, w) f handler h k e = h (cc)

  pub ensure-IsEnded :
      (w : World) {b : Option Json}
      → w.has_handler ≡ true
      → (ensure_user_favorites_playlist views browser server w).0 ≡ raise (api_error 401 b)
      → IsEnded (ensure_user_favorites_playlist views browser server w).1
  unfolding ensure_user_favorites_playlist ensure_named_playlist
  ensure-IsEnded w handler e =
      bound-IsEnded (list_playlists views browser server first_page w) _
        (list_playlists-handler views browser window server first_page w ∙ handler)
        (list_playlists-IsEnded views browser window server first_page w handler)
        (λ ps w' h.
          found-IsEnded favorites_name favorites_description (find (has_name favorites_name) ps) w'
            h)
        e

  recast :
      {A B : Type 0} (x y : Failure)
      → ◌≡◌ {A = Result A} (raise x) (raise y)
      → ◌≡◌ {A = Result B} (raise x) (raise y)
  recast x y e = cc

  saved-ne-raise :
      {b : Option Json}
      → ◌≡◌ {A = Result SaveToLibraryResult} (ok already_saved) (raise (api_error 401 b))
      → ⊥
  saved-ne-raise e = cc

  bound-handler :
      {A B : Type 0} (r : Result A × World) (f : A → M B) (b : Bool)
      → r.1.has_handler ≡ b
      → ((a : A) (w : World) → w.has_handler ≡ b → (f a w).1.has_handler ≡ b)
      → (bind r f).1.has_handler ≡ b
  bound-handler (ok a, w) f b h k = k a w h
  bound-handler (raise x, w) f b h k = h

  found-handler :
      (name description : String) (o : Option Playlist) (w : World)
      → (found_or_created views browser server name description o w).1.has_handler ≡ w.has_handler
  unfolding found_or_created
  found-handler name description (some p) w = refl
  found-handler name description none w = create_playlist-handler views browser window server _ w

  pub ensure-handler :
      (w : World)
      → (ensure_user_favorites_playlist views browser server w).1.has_handler ≡ w.has_handler
  unfolding ensure_user_favorites_playlist ensure_named_playlist
  ensure-handler w =
      bound-handler (list_playlists views browser server first_page w) _ w.has_handler
        (list_playlists-handler views browser window server first_page w)
        (λ ps w' h.
          found-handler favorites_name favorites_description (find (has_name favorites_name) ps) w'
          ∙ h)

  add-IsEnded :
      (track_id : String) (o : Option Playlist) (w : World) {b : Option Json}
      → w.has_handler ≡ true
      → (handle (add_to_favorites views browser server track_id o w) save_failed).0
        ≡ raise (api_error 401 b)
      → IsEnded (handle (add_to_favorites views browser server track_id o w) save_failed).1
  unfolding add_to_favorites save_failed
  add-IsEnded track_id none w handler e = cc
  add-IsEnded track_id (some p) w handler e =
      passed (add_track views browser server p.id track_id w)
        (add_track-IsEnded views browser window server p.id track_id w handler) e
    where
      passed :
          {b : Option Json} (r : Result (Option Playlist) × World)
          → (r.0 ≡ raise (api_error 401 b) → IsEnded r.1)
          → (handle (bind r (λ _. return added)) save_failed).0 ≡ raise (api_error 401 b)
          → IsEnded (handle (bind r (λ _. return added)) save_failed).1
      passed (ok a, w') h e' = cc
      passed (raise (api_error status body), w') h e' = elim (Bool-cases (status == 409)) [
        | inl same ↦ absurd (saved-ne-raise (rw same at e'))
        | inr other ↦ rw other (h (recast (api_error status body) _ (rw other at e')))
      ]
      passed (raise thrown, w') h e' = cc

  -- Where saving a track fails with a 401, at whichever of its requests, nobody is signed in any
  -- more, in memory and in storage: with a window and with the handler of the auth store in place.
  pub save_track-IsEnded :
      (track_id : String) (w : World) {b : Option Json}
      → w.has_handler ≡ true
      → (save_track_to_library views browser server track_id w).0 ≡ raise (api_error 401 b)
      → IsEnded (save_track_to_library views browser server track_id w).1
  unfolding save_track_to_library
  save_track-IsEnded track_id w handler e =
      bound-IsEnded (ensure_user_favorites_playlist views browser server w) _
        (ensure-handler w ∙ handler) (ensure-IsEnded w handler)
        (λ o w' h. add-IsEnded track_id o w' h) e
