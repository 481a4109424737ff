-- ===== src/Tests/Artwork.antt =====
-- The hash of a text, and a gradient.
use mc_service.Prelude.{◌≡◌, refl, codes}
use mc_service.Prelude.Int.{◌+ℤ◌, ◌-ℤ◌, ◌*ℤ◌}
use mc_service.Artwork.Defs.{hash_seed, hash_from, units, to_int32}

hash_of_music : hash_seed (codes "music") ≡ 104263205
unfolding hash_seed hash_from units to_int32 ◌+ℤ◌ ◌-ℤ◌ ◌*ℤ◌
hash_of_music = refl

-- The hash of this text is -2^31, the value whose absolute value is no 32-bit integer.
hash_at_the_edge : hash_seed (codes "polygenelubricants") ≡ 2147483648
unfolding hash_seed hash_from units to_int32 ◌+ℤ◌ ◌-ℤ◌ ◌*ℤ◌
hash_at_the_edge = refl
