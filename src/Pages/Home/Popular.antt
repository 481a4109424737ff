-- ===== src/Pages/Home/Popular.antt =====
-- The entries of popular favorites: reading a reply that is not typed, asking for it in turn, and
-- counting what was played here.
use mc_service.Prelude.{
  ℕ, ◌+◌, String, Option, none, some, List, [], ◌∷◌, Bool, false, ◌||◌, ◌==◌, take, codes,
  if◌then◌else◌, str_eq, trimmed,
}
use mc_service.Prelude.Int.{ℤ, pos, ◌-ℤ◌, pos_part}
use mc_service.Prelude.Decimal.{parse_int, decimal_text}
use mc_service.Json.{Json, Items, nil, cons, arr, num, str}
use mc_service.Sorting.{sort}
use mc_service.Platform.{Platform}
use mc_service.Session.State.{Server, Failure, api_error, thrown, Result, ok, raise, World, M}
use mc_service.Session.Client.{api_get}
use mc_service.Catalog.Lookup.{includes}
use mc_service.Pages.Attempts.{is_unauthorized_error, first_member, member_of}

pub record PopularFavoriteEntry : Type 0 where
  pub track_id : String
  pub play_count : ℕ

-- `parseCount`; numbers are whole, so that rounding keeps them.
unfoldable pub parse_count : Option Json → ℕ
parse_count (some (num n)) = pos_part n
parse_count (some (str text)) = elim (parse_int (codes text)) [ none ↦ 0 | some n ↦ pos_part n ]
parse_count _ = 0

abbrev entry_with : Option Json → ℕ → Option PopularFavoriteEntry
entry_with (some (str id)) plays =
    if str_eq (trimmed id) "" then none else some (record { track_id = id; play_count = plays })
entry_with _ plays = none

-- An item that is not an object has none of the members.
unfoldable pub entry_of : Json → Option PopularFavoriteEntry
unfolding parse_count
entry_of item =
    entry_with (first_member ("track_id" ∷ "trackId" ∷ "id" ∷ []) (some item))
      (parse_count (first_member ("play_count" ∷ "playCount" ∷ "plays" ∷ "count" ∷ []) (some item)))

abbrev prepended :
    Option PopularFavoriteEntry → List PopularFavoriteEntry → List PopularFavoriteEntry
prepended none es = es
prepended (some e) es = e ∷ es

unfoldable pub entries_of : Items → List PopularFavoriteEntry
unfolding entry_of
entries_of nil = []
entries_of (cons item items) = prepended (entry_of item) (entries_of items)

-- The first of the members that is an array.
abbrev first_array : List (Option Json) → Items
first_array [] = nil
first_array (some (arr items) ∷ others) = items
first_array (_ ∷ others) = first_array others

unfoldable pub items_of : Option Json → Items
items_of (some (arr items)) = items
items_of payload =
    first_array
      (member_of "items" payload ∷ member_of "tracks" payload ∷ member_of "data" payload ∷ [])

abbrev pub by_plays : PopularFavoriteEntry → PopularFavoriteEntry → ℤ
by_plays a b = pos b.play_count -ℤ pos a.play_count

-- `normalizePopularFavoriteEntries`
unfoldable pub normalize_entries : Option Json → List PopularFavoriteEntry
unfolding items_of entries_of
normalize_entries payload = sort by_plays (entries_of (items_of payload))

-- `error.status === 404 || error.status === 501`
abbrev pub is_absent : Failure → Bool
is_absent (api_error status body) = status == 404 || status == 501
is_absent thrown = false

abbrev first_entries :
    ℕ → M (List PopularFavoriteEntry) → List PopularFavoriteEntry → M (List PopularFavoriteEntry)
first_entries limit others [] w = others w
first_entries limit others (e ∷ es) w = (ok (take limit (e ∷ es)), w)

-- Behind an attempt; `others` are the attempts that are left.
abbrev pub asked :
    ℕ
    → M (List PopularFavoriteEntry)
    → Result (Option Json) × World
    → Result (List PopularFavoriteEntry) × World
asked limit others (ok payload, w) = first_entries limit others (normalize_entries payload) w
asked limit others (raise e, w) =
    if is_unauthorized_error e then (raise e, w) else if is_absent e then others w else (ok [], w)

abbrev pub analytics_paths : List String
analytics_paths =
    "/analytics/favorites/popular" ∷ "/analytics/favorites/top" ∷ "/analytics/popular-favorites"
    ∷ []

module _ (browser : Platform) (server : Server) where
  unfoldable pub fetch_popular_from : ℕ → List String → M (List PopularFavoriteEntry)
  unfolding normalize_entries
  fetch_popular_from limit [] w = (ok [], w)
  fetch_popular_from limit (path ∷ paths) w =
      let others = fetch_popular_from limit paths in
      asked limit others (api_get browser server path (("limit", some (decimal_text limit)) ∷ []) w)

  -- `fetchPopularFavoritesFromAnalytics`
  unfoldable pub fetch_popular : ℕ → M (List PopularFavoriteEntry)
  unfolding fetch_popular_from
  fetch_popular limit = fetch_popular_from limit analytics_paths

-- `localCounts.set(id, (localCounts.get(id) ?? 0) + 1)`: a new key is the last.
unfoldable pub bump : String → List PopularFavoriteEntry → List PopularFavoriteEntry
bump id [] = record { track_id = id; play_count = 1 } ∷ []
bump id (e ∷ es) =
    let rest = bump id es in
    if str_eq e.track_id id then record e { play_count = e.play_count + 1 } ∷ es else e ∷ rest

-- The loop over the history, given by the ids of its tracks, that counts the favorites in it.
unfoldable pub local_counts :
    List String → List String → List PopularFavoriteEntry → List PopularFavoriteEntry
unfolding bump
local_counts favorites [] counts = counts
local_counts favorites (id ∷ ids) counts =
    local_counts favorites ids (if includes id favorites then bump id counts else counts)

unfoldable pub local_ranking : List String → List String → List PopularFavoriteEntry
unfolding local_counts
local_ranking favorites history = take 5 (sort by_plays (local_counts favorites history []))
