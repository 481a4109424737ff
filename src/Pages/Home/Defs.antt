-- ===== src/Pages/Home/Defs.antt =====
-- What the home page loads, and its state.
use mc_service.Prelude.{
  ℕ, ◌-◌, String, Option, none, some, List, [], ◌∷◌, ◌++◌, Bool, true, false, map, take, length,
  leb, if◌then◌else◌, str_eq,
}
use mc_service.Prelude.Int.{ℤ, pos}
use mc_service.Platform.{Platform}
use mc_service.Session.State.{Server, Result, ok, raise, World, M, ◌>>=◌, return}
use mc_service.Playlists.{Playlist, Views, list_playlists}
use mc_service.Library.Defs.{any, ensure_user_favorites_playlist, recently_added_track_ids}
use mc_service.Curation.Choice.{CuratedPlaylist, filter, get_curated_playlists}
use mc_service.Catalog.Types.{Track, CatalogViews}
use mc_service.Catalog.Lookup.{includes}
use mc_service.Pages.Cards.{CuratedCard, sort_playlist_track_ids, first_id, card_of, lookup}
use mc_service.Pages.Home.Popular.{PopularFavoriteEntry, fetch_popular, local_ranking}

pub record PopularFavorite : Type 0 where
  pub track : Track
  pub play_count : ℕ

pub record HomePage : Type 0 where
  pub curated_playlists : List CuratedCard
  pub favorites_playlist : Option Playlist
  pub analytics_favorite_entries : List PopularFavoriteEntry
  pub popular_favorites : List PopularFavorite
  pub loading : Bool

abbrev pub opened : HomePage
opened = record {
  curated_playlists = [];
  favorites_playlist = none;
  analytics_favorite_entries = [];
  popular_favorites = [];
  loading = true;
}

abbrev with_track : Track → List Track → List Track
with_track t uniques = if any (λ u. str_eq u.id t.id) uniques then uniques else uniques ++ (t ∷ [])

-- The loop that fills `uniqueTracks`, which are given.
unfoldable pub recent_from : List Track → List Track → List Track
recent_from uniques [] = uniques
recent_from uniques (t ∷ ts) =
    let rest = recent_from (with_track t uniques) ts in
    if leb 12 (length (with_track t uniques)) then with_track t uniques else rest

unfoldable pub recently_played : List Track → List Track
unfolding recent_from
recently_played history = recent_from [] history

abbrev pub popular_favorite_queue : HomePage → List Track
popular_favorite_queue p = map (λ e. e.track) p.popular_favorites

-- The entries with the counts 5, 4, 3, 2, 1, and then 1.
abbrev added_entries : ℕ → List String → List PopularFavoriteEntry
added_entries n [] = []
added_entries n (id ∷ ids) =
    record { track_id = id; play_count = if leb n 1 then 1 else n } ∷ added_entries (n - 1) ids

abbrev or_entries :
    List PopularFavoriteEntry → List PopularFavoriteEntry → List PopularFavoriteEntry
or_entries [] others = others
or_entries (e ∷ es) others = e ∷ es

abbrev track_ids : Playlist → List String
track_ids playlist = map (λ t. t.track_id) playlist.tracks

-- `Date.parse` is the browser's.
module _ (date_parse : String → Option ℤ) where
  -- The entries that are shown: of the server, else of what was played here, else of what was added
  -- last. `history` are the ids of the tracks that were played.
  unfoldable pub ranked_entries :
      Playlist → List PopularFavoriteEntry → List String → List PopularFavoriteEntry
  ranked_entries favorites analytics history =
      or_entries
        (or_entries (take 5 (filter (λ e. includes e.track_id (track_ids favorites)) analytics))
          (local_ranking (track_ids favorites) history))
        (added_entries 5 (recently_added_track_ids date_parse (some favorites) (pos 5)))

  module _ (catalog_views : CatalogViews) (browser : Platform) (server : Server) where
    abbrev favorite_with : ℕ → Option Track → List PopularFavorite → List PopularFavorite
    favorite_with plays none rest = rest
    favorite_with plays (some track) rest = record { track = track; play_count = plays } ∷ rest

    unfoldable pub resolve_entries : List PopularFavoriteEntry → M (List PopularFavorite)
    resolve_entries [] = return []
    resolve_entries (e ∷ es) = do
      track ← lookup catalog_views browser server e.track_id
      rest ← resolve_entries es
      return (favorite_with e.play_count track rest)

    abbrev resolved : Bool → HomePage → Result (List PopularFavorite) × World → HomePage × World
    resolved cancelled p (ok favorites, w) =
        if cancelled then (p, w) else (record p { popular_favorites = favorites }, w)
    resolved cancelled p (raise e, w) = (p, w)

    abbrev popular_of : Bool → List String → Option Playlist → HomePage → World → HomePage × World
    popular_of cancelled history none p w = (record p { popular_favorites = [] }, w)
    popular_of cancelled history (some favorites) p w = elim favorites.tracks [
      | [] ↦ (record p { popular_favorites = [] }, w)
      | t ∷ ts ↦
          resolved cancelled p
            (resolve_entries (ranked_entries favorites p.analytics_favorite_entries history) w)
    ]

    -- `resolvePopularFavorites`
    unfoldable pub resolve_popular_favorites :
        Bool → List String → HomePage → World → HomePage × World
    unfolding ranked_entries resolve_entries
    resolve_popular_favorites cancelled history p w =
        popular_of cancelled history p.favorites_playlist p w

    abbrev lead_of : Option String → M (Option Track)
    lead_of none = return none
    lead_of (some id) = lookup catalog_views browser server id

    unfoldable pub home_cards : List CuratedPlaylist → M (List CuratedCard)
    home_cards [] = return []
    home_cards (e ∷ es) = do
      lead ← lead_of (first_id (sort_playlist_track_ids e.playlist))
      rest ← home_cards es
      return
          (card_of "Fresh recommendations from your music cloud." e.playlist e.source lead ∷ rest)

    module _ (views : Views) (locale_compare : String → String → ℤ) where
      -- The `try` block of `fetchData`.
      unfoldable pub home_data : M (List CuratedCard × Option Playlist × List PopularFavoriteEntry)
      unfolding home_cards
      home_data = do
        playlists ←
            list_playlists views browser server
              (("page", some "1") ∷ ("page_size", some "200") ∷ [])
        favorites ← ensure_user_favorites_playlist views browser server
        cards ← home_cards (get_curated_playlists locale_compare playlists (pos 8))
        entries ← fetch_popular browser server 5
        return (cards, favorites, entries)

      abbrev end_fetch :
          Bool
          → Result (List CuratedCard × Option Playlist × List PopularFavoriteEntry)
          → HomePage
          → HomePage
      end_fetch true r p = p
      end_fetch false (raise e) p = record p { loading = false }
      end_fetch false (ok (cards, favorites, entries)) p = record p {
        curated_playlists = cards;
        favorites_playlist = favorites;
        analytics_favorite_entries = entries;
        loading = false;
      }

      -- `cancelled` is whether the page is gone by then.
      unfoldable pub fetch_data : Bool → HomePage → World → HomePage × World
      unfolding home_data
      fetch_data cancelled p w = let (r, w') = home_data w in (end_fetch cancelled r p, w')
