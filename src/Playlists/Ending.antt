-- ===== src/Playlists/Ending.antt =====
-- A 401 at the calls of playlists.ts ends the session.
use mc_service.Prelude.{
  ℕ, String, ◌≡◌, ◌≢◌, refl, inl, inr, Option, none, some, List, [], true, false, arith, ap,
  Bool-cases,
}
use Prim.Native.Char.{code}
use Prim.Native.String
use text.Mathlib.Text.{starts_with}
use text.Mathlib.TextLemmas.{cons-append}
use text.Mathlib.TextEquality.{starts_with_iff}
use mc_service.Json.{Json}
use mc_service.Platform.{Platform}
use mc_service.Session.State.{Failure, Result, ok, raise, api_error, World, Server, M, bind, return}
use mc_service.Session.Client.{
  RequestOptions, request, should_clear_session_on_unauthorized, api_get, api_post, api_delete,
}
use mc_service.Session.Handler.{request-handler}
use mc_service.Session.Ending.{IsEnded, request-IsEnded}
use mc_service.Playlists.{
  Views, list_playlists, create_playlist, add_track, remove_track, listed, as_playlist, tracks_path,
  create_body, add_body, CreatePlaylistRequest,
}

-- A failure of a bind comes from its first part, where the second part never fails so.
raise_of_bind :
    {A B : Type 0} (r : Result A × World) (f : A → M B) (x : Failure)
    → ((a : A) (w : World) → (f a w).0 ≢ raise x)
    → (bind r f).0 ≡ raise x
    → (r.0 ≡ raise x) × ((bind r f).1 ≡ r.1)
raise_of_bind (ok a, w) f x h e = absurd (h a w e)
raise_of_bind (raise y, w) f x h e = (cc, refl)

-- The second character of a text.
abbrev second : String → ℕ
second String.[] = 0
second (String.◌∷◌ c String.[]) = 0
second (String.◌∷◌ c (String.◌∷◌ d s)) = code d

second-tracks_path : (id : String) → second (tracks_path id) ≡ b'p'
second-tracks_path id = rw (cons-append, cons-append, cons-append, cons-append) refl

second-track_path :
    (id track_id : String) → second (String.◌++◌ (tracks_path id) (String.◌++◌ "/" track_id)) ≡ b'p'
second-track_path id track_id =
    rw (cons-append, cons-append, cons-append, cons-append, cons-append, cons-append) refl

not_login : (path : String) → second path ≡ b'p' → starts_with path "/auth/login" ≡ false
not_login path p = elim (Bool-cases (starts_with path "/auth/login")) [
  | inr other ↦ other
  | inl h ↦
      let (r, e) = (starts_with_iff path "/auth/login").0 h in
      let a : second (String.◌++◌ "/auth/login" r) ≡ b'a' = rw (cons-append, cons-append) refl in
      absurd (omega (arith, a, ap second e, p))
]

not_register : (path : String) → second path ≡ b'p' → starts_with path "/auth/register" ≡ false
not_register path p = elim (Bool-cases (starts_with path "/auth/register")) [
  | inr other ↦ other
  | inl h ↦
      let (r, e) = (starts_with_iff path "/auth/register").0 h in
      let a : second (String.◌++◌ "/auth/register" r) ≡ b'a' = rw (cons-append, cons-append) refl in
      absurd (omega (arith, a, ap second e, p))
]

clears : (path : String) → second path ≡ b'p' → should_clear_session_on_unauthorized path ≡ true
unfolding should_clear_session_on_unauthorized
clears path p = rw (not_login path p, not_register path p)

module _ (views : Views) (browser : Platform) (window : browser.has_window ≡ true)
    (server : Server) where
  listed-ne-api_error :
      (res : Option Json) (w : World) {b : Option Json}
      → (listed views res w).0 ≢ raise (api_error 401 b)
  unfolding listed
  listed-ne-api_error none w = cc
  listed-ne-api_error (some j) w = ground arith

  listed-keeps : (r : Result (Option Json) × World) → (bind r (listed views)).1 ≡ r.1
  unfolding listed
  listed-keeps (ok none, w) = refl
  listed-keeps (ok (some j), w) = ground arith
  listed-keeps (raise e, w) = refl

  pub list_playlists-IsEnded :
      (params : List (String × Option String)) (w : World) {b : Option Json}
      → w.has_handler ≡ true
      → (list_playlists views browser server params w).0 ≡ raise (api_error 401 b)
      → IsEnded (list_playlists views browser server params w).1
  unfolding list_playlists api_get should_clear_session_on_unauthorized
  list_playlists-IsEnded params w {b} handler e =
      let r =
        request browser server "/playlists"
          (record { method = "GET"; content = none; params = params }) true w in
      let (a, same) =
        raise_of_bind r (listed views) (api_error 401 b) (λ res w'. listed-ne-api_error res w') e in
      rw same (
        request-IsEnded browser window server "/playlists"
          (record { method = "GET"; content = none; params = params }) true w refl handler a)

  pub create_playlist-IsEnded :
      (body : CreatePlaylistRequest) (w : World) {b : Option Json}
      → w.has_handler ≡ true
      → (create_playlist views browser server body w).0 ≡ raise (api_error 401 b)
      → IsEnded (create_playlist views browser server body w).1
  unfolding create_playlist api_post should_clear_session_on_unauthorized
  create_playlist-IsEnded body w {b} handler e =
      let o : RequestOptions = record {
        method = "POST";
        content = some (create_body body);
        params = [];
      } in
      let r = request browser server "/playlists" o true w in
      let (a, same) =
        raise_of_bind r (λ res. return (as_playlist views res)) (api_error 401 b)
          (λ res w'. λ h. cc) e in
      rw same (request-IsEnded browser window server "/playlists" o true w refl handler a)

  pub add_track-IsEnded :
      (id track_id : String) (w : World) {b : Option Json}
      → w.has_handler ≡ true
      → (add_track views browser server id track_id w).0 ≡ raise (api_error 401 b)
      → IsEnded (add_track views browser server id track_id w).1
  unfolding add_track api_post
  add_track-IsEnded id track_id w {b} handler e =
      let o : RequestOptions = record {
        method = "POST";
        content = some (add_body track_id);
        params = [];
      } in
      let r = request browser server (tracks_path id) o true w in
      let (a, same) =
        raise_of_bind r (λ res. return (as_playlist views res)) (api_error 401 b)
          (λ res w'. λ h. cc) e in
      rw same (
        request-IsEnded browser window server (tracks_path id) o true w
          (clears (tracks_path id) (second-tracks_path id)) handler a)

  pub remove_track-IsEnded :
      (id track_id : String) (w : World) {b : Option Json}
      → w.has_handler ≡ true
      → (remove_track views browser server id track_id w).0 ≡ raise (api_error 401 b)
      → IsEnded (remove_track views browser server id track_id w).1
  unfolding remove_track api_delete
  remove_track-IsEnded id track_id w {b} handler e =
      let o : RequestOptions = record { method = "DELETE"; content = none; params = [] } in
      let path = String.◌++◌ (tracks_path id) (String.◌++◌ "/" track_id) in
      let r = request browser server path o true w in
      let (a, same) =
        raise_of_bind r (λ res. return (as_playlist views res)) (api_error 401 b)
          (λ res w'. λ h. cc) e in
      rw same (
        request-IsEnded browser window server path o true w
          (clears path (second-track_path id track_id)) handler a)

  pub list_playlists-handler :
      (params : List (String × Option String)) (w : World)
      → (list_playlists views browser server params w).1.has_handler ≡ w.has_handler
  unfolding list_playlists api_get
  list_playlists-handler params w =
      rw
        (listed-keeps (
          request browser server "/playlists"
            (record { method = "GET"; content = none; params = params }) true w))
        (request-handler browser server "/playlists"
          (record { method = "GET"; content = none; params = params }) true w)

  pub create_playlist-handler :
      (body : CreatePlaylistRequest) (w : World)
      → (create_playlist views browser server body w).1.has_handler ≡ w.has_handler
  unfolding create_playlist api_post
  create_playlist-handler body w =
      let o : RequestOptions = record {
        method = "POST";
        content = some (create_body body);
        params = [];
      } in
      rw (returned (request browser server "/playlists" o true w))
        (request-handler browser server "/playlists" o true w)
    where
      returned :
          (r : Result (Option Json) × World)
          → (bind r (λ res. return (as_playlist views res))).1 ≡ r.1
      returned (ok a, w') = refl
      returned (raise e, w') = refl
