-- ===== src/Library/Defs.antt =====
-- library.ts: finding or creating the playlist of favorites, saving a track, and the ids of the
-- tracks that were added last.
use mc_service.Prelude.{
  ℕ, suc, String, Option, none, some, List, [], ◌∷◌, Bool, true, false, if◌then◌else◌, str_eq, ◌==◌,
  take, map, codes, trim, lower, same_codes,
}
use mc_service.Prelude.Int.{ℤ, pos, negsuc, ◌-ℤ◌, ltb_ℤ, pos_part}
use mc_service.Sorting.{sort}
use mc_service.Platform.{Platform}
use mc_service.Session.State.{Failure, api_error, thrown, Server, M, ◌>>=◌, return, throw, catch}
use mc_service.Playlists.{
  PlaylistTrack, Playlist, Views, list_playlists, create_playlist, add_track, favorites_description,
}

abbrev pub favorites_name : String
favorites_name = "Favorites"

pub data SaveToLibraryResult : Type 0 where
  added already_saved : SaveToLibraryResult

-- `name.trim().toLowerCase()`
unfoldable pub fold_name : String → List ℕ
fold_name name = map lower (trim (codes name))

abbrev pub has_name : String → Playlist → Bool
has_name name playlist = same_codes (fold_name playlist.name) (fold_name name)

-- `xs.find(test)`
unfoldable pub find {ℓ} : {A : Type ℓ} → (A → Bool) → List A → Option A
find test [] = none
find test (x ∷ xs) = if test x then some x else find test xs

abbrev pub first_page : List (String × Option String)
first_page = ("page", some "1") ∷ ("page_size", some "200") ∷ []

-- The handler of `saveTrackToLibrary`.
unfoldable pub save_failed : Failure → M SaveToLibraryResult
save_failed (api_error status body) =
    if status == 409 then return already_saved else throw (api_error status body)
save_failed thrown = throw thrown

module _ (views : Views) (browser : Platform) (server : Server) where
  unfoldable pub found_or_created : String → String → Option Playlist → M (Option Playlist)
  found_or_created name description (some playlist) = return (some playlist)
  found_or_created name description none =
      create_playlist views browser server
        (record { name = name; description = some description; is_public = some false })

  unfoldable pub ensure_named_playlist : String → String → M (Option Playlist)
  ensure_named_playlist name description = do
    playlists ← list_playlists views browser server first_page
    found_or_created name description (find (has_name name) playlists)

  unfoldable pub ensure_user_favorites_playlist : M (Option Playlist)
  ensure_user_favorites_playlist = ensure_named_playlist favorites_name favorites_description

  -- The `try` block of `saveTrackToLibrary`; a member of undefined throws.
  unfoldable pub add_to_favorites : String → Option Playlist → M SaveToLibraryResult
  add_to_favorites track_id none = throw thrown
  add_to_favorites track_id (some favorites) = do
    _ ← add_track views browser server favorites.id track_id
    return added

  unfoldable pub save_track_to_library : String → M SaveToLibraryResult
  unfolding save_failed
  save_track_to_library track_id = do
    favorites ← ensure_user_favorites_playlist
    catch (add_to_favorites track_id favorites) save_failed

-- `xs.some(test)`
abbrev pub any {ℓ} : {A : Type ℓ} → (A → Bool) → List A → Bool
any test [] = false
any test (x ∷ xs) = if test x then true else any test xs

unfoldable pub playlist_contains_track : Option Playlist → Option String → Bool
playlist_contains_track (some playlist) (some track_id) =
    if str_eq track_id "" then false else any (λ t. str_eq t.track_id track_id) playlist.tracks
playlist_contains_track _ _ = false

-- A number that `toTimestamp` returns.
pub data Timestamp : Type 0 where
  negative_infinity : Timestamp
  time : ℤ → Timestamp

-- `a - b`, as a number that a comparator may return or that is tested against 0; `none` is NaN.
-- An infinite difference has the sign of -1 or 1.
abbrev pub minus : Timestamp → Timestamp → Option ℤ
minus negative_infinity negative_infinity = none
minus negative_infinity (time b) = some (negsuc 0)
minus (time a) negative_infinity = some (pos 1)
minus (time a) (time b) = some (a -ℤ b)

-- `xs.indexOf(x)`, counting from `i`; the length of all if it is not there.
unfoldable pub index_of_from : ℕ → String → List String → ℕ
index_of_from i x [] = i
index_of_from i x (y ∷ ys) = if str_eq y x then i else index_of_from (suc i) x ys

-- `.filter((trackId, index, all) => all.indexOf(trackId) === index)`, from the index `i`
unfoldable pub keep_first : List String → ℕ → List String → List String
keep_first all i [] = []
keep_first all i (x ∷ xs) =
    let rest = keep_first all (suc i) xs in if index_of_from 0 x all == i then x ∷ rest else rest

abbrev pub is_zero : ℤ → Bool
is_zero (pos n) = n == 0
is_zero (negsuc n) = false

-- A comparator's result, where NaN counts as 0.
abbrev pub order_of : Option ℤ → ℤ
order_of none = pos 0
order_of (some n) = n

-- `Date.parse`; `none` is NaN.
module _ (date_parse : String → Option ℤ) where
  unfoldable pub to_timestamp : Option String → Timestamp
  to_timestamp none = negative_infinity
  to_timestamp (some value) =
      if str_eq value ""
      then negative_infinity
      else elim (date_parse value) [ none ↦ negative_infinity | some n ↦ time n ]

  -- The comparator of `getRecentlyAddedTrackIds`.
  unfoldable pub compare_added : PlaylistTrack → PlaylistTrack → ℤ
  compare_added a b = elim (minus (to_timestamp b.added_at) (to_timestamp a.added_at)) [
    | none ↦ pos 0
    | some delta ↦ if is_zero delta then b.position -ℤ a.position else delta
  ]

  unfoldable pub recently_added_track_ids : Option Playlist → ℤ → List String
  recently_added_track_ids none limit = []
  recently_added_track_ids (some playlist) limit =
      if ltb_ℤ (pos 0) limit
      then (let ids = map (λ t. t.track_id) (sort compare_added playlist.tracks) in
          take (pos_part limit) (keep_first ids 0 ids))
      else []
