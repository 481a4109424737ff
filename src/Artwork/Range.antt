-- ===== src/Artwork/Range.antt =====
-- The hash is a 32-bit integer, and every seed has a gradient.
use mc_service.Prelude.{◌<◌}
use mc_service.Prelude.Int.{ℤ, pos, negsuc}

abbrev pub IsInt32 : ℤ → Type 0
IsInt32 (pos n) = n < 2147483648
IsInt32 (negsuc n) = n < 2147483648
