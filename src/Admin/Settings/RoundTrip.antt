-- ===== src/Admin/Settings/RoundTrip.antt =====
-- The form shows the bitrates that the server holds, and reads the same again.
use mc_service.Prelude.{◌≤◌, ◌<◌, ◌≡◌, List, [], ◌∷◌, true, All}
use mc_service.Prelude.Int.{ℤ, pos, negsuc, ltb_ℤ}
use mc_service.Prelude.Decimal.{limit}

-- A positive number of 21 digits at most.
abbrev pub IsBitrate : ℤ → Type 0
IsBitrate (pos n) = (1 ≤ n) × (n < limit 20)
IsBitrate (negsuc n) = ⊥

abbrev pub IsAscending : List ℤ → Type 0
IsAscending [] = Unit
IsAscending (n ∷ ns) = All (λ m. ltb_ℤ n m ≡ true) ns × IsAscending ns
