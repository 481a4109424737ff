-- ===== src/Pages/Home/Counts.antt =====
-- What was played here is ranked by how often each favorite occurs in the history.
use mc_service.Prelude.{◌+◌, ◌≤◌, ◌≡◌, refl, String, List, [], ◌∷◌, take, arith, All, All-mono}
use mc_service.Prelude.Int.{◌-ℤ◌}
use mathlib.Core.List.{Perm}
use mc_service.Sorting.{sort}
use mc_service.Sorting.Laws.{IsOrder, IsSorted, Precedes, sort-IsSorted, sort-perm}
use mc_service.Pages.Home.Popular.{PopularFavoriteEntry, by_plays, local_counts, local_ranking}
use mc_service.Pages.Home.Held.{Holds, Holds_same, favorite_plays, counts-Holds}

-- No entry was played more often than one before it.
abbrev pub IsMostFirst : List PopularFavoriteEntry → Type 0
IsMostFirst [] = Unit
IsMostFirst (e ∷ es) = All (λ x. x.play_count ≤ e.play_count) es × IsMostFirst es

precedes-le : (x y : PopularFavoriteEntry) → Precedes by_plays x y → y.play_count ≤ x.play_count
unfolding ◌-ℤ◌
precedes-le x y h = ground arith

sorted-IsMostFirst : (es : List PopularFavoriteEntry) → IsSorted by_plays es → IsMostFirst es
sorted-IsMostFirst [] h = tt
sorted-IsMostFirst (e ∷ es) h = (
  All-mono (Precedes by_plays e) (λ x. x.play_count ≤ e.play_count) es (precedes-le e) h.0,
  sorted-IsMostFirst es h.1,
)

-- The first five of the counts, the most played first.
pub record IsRanking (favorites history : List String) (es : List PopularFavoriteEntry)
    : Type 0 where
  pub counts : List PopularFavoriteEntry
  pub holds : Holds (favorite_plays favorites history) counts
  pub ranked : List PopularFavoriteEntry
  pub perm : Perm ranked counts
  pub most_first : IsMostFirst ranked
  pub taken : es ≡ take 5 ranked

by_plays-IsOrder : IsOrder by_plays (λ e. Unit {0})
unfolding ◌-ℤ◌
by_plays-IsOrder = record {
  total = λ x y _ _ h. ground arith;
  trans = λ x y z _ _ _ p q. ground arith;
}

all_of : (es : List PopularFavoriteEntry) → All (λ e. Unit {0}) es
all_of [] = tt
all_of (e ∷ es) = (tt, all_of es)

-- The ranking of what was played here is the first five of a list with one entry for each favorite
-- that was played, in which no entry was played more often than one before it: an entry tells how
-- often the track occurs in the history, as a count over the whole history gives it. An id without an entry is no favorite or was not played.
pub local_ranking-IsRanking :
    (favorites history : List String)
    → IsRanking favorites history (local_ranking favorites history)
unfolding local_ranking
local_ranking-IsRanking favorites history =
    let counts = local_counts favorites history [] in
    record {
      counts = counts;
      holds =
          Holds_same (λ id. 0 + favorite_plays favorites history id) _ counts (λ id. omega arith)
            (counts-Holds favorites history (λ _. 0) []
              (record { distinct = tt; entries = tt; absent = λ _. refl }));
      ranked = sort by_plays counts;
      perm = sort-perm by_plays counts;
      most_first =
          sorted-IsMostFirst (sort by_plays counts)
            (sort-IsSorted by_plays (λ e. Unit {0}) by_plays-IsOrder counts (all_of counts));
      taken = refl;
    }
