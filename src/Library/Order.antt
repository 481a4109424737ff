-- ===== src/Library/Order.antt =====
-- `getRecentlyAddedTrackIds`: the order of the ids of a playlist whose dates parse.
use mc_service.Prelude.{◌+◌, ◌<◌, String, ◌≡◌, ◌⊎◌, Option, List, [], ◌∷◌, All}
use mc_service.Prelude.Int.{ℤ, pos_part, neg_part, ◌≤ℤ◌}
use mc_service.Playlists.{PlaylistTrack}
use mc_service.Library.Defs.{time, to_timestamp}

-- The earlier one of two dated positions: added later, or at the same time and further back.
abbrev Before : ℤ → ℤ → ℤ → ℤ → Type 0
Before m p n q = (pos_part n + neg_part m < pos_part m + neg_part n) ⊎ ((m ≡ n) × (q ≤ℤ p))

module _ (date_parse : String → Option ℤ) where
  abbrev pub IsAddedAt : PlaylistTrack → ℤ → Type 0
  IsAddedAt t n = to_timestamp date_parse t.added_at ≡ time n

  abbrev pub IsDated : PlaylistTrack → Type 0
  IsDated t = (n : ℤ) × IsAddedAt t n

  -- `a` may stand before `b`: it was added later, or at the same time and stands further back.
  pub record IsNewer (a b : PlaylistTrack) : Type 0 where
    pub at_a : ℤ
    pub at_b : ℤ
    pub added_a : IsAddedAt a at_a
    pub added_b : IsAddedAt b at_b
    pub before : Before at_a a.position at_b b.position

  abbrev pub IsNewestFirst : List PlaylistTrack → Type 0
  IsNewestFirst [] = Unit
  IsNewestFirst (t ∷ ts) = All (IsNewer t) ts × IsNewestFirst ts
