-- ===== src/Artwork/Defs.antt =====
-- `hashSeed` on 32-bit integers, and `gradientFromSeed`.
use mc_service.Prelude.{
  ℕ, ◌+◌, ◌-◌, ◌/◌, ◌%◌, String, Option, none, some, List, [], ◌∷◌, ltb, if◌then◌else◌, codes, trim,
  get_elem?,
}
use Prim.Native.String
use mc_service.Prelude.Int.{ℤ, pos, negsuc, ◌+ℤ◌, ◌-ℤ◌, ◌*ℤ◌}

-- The value that `| 0` and `<<` leave: the 32-bit integer with the same remainder by 2^32.
abbrev residue : ℤ → ℕ
residue (pos n) = n % 4294967296
residue (negsuc n) = 4294967295 - n % 4294967296

unfoldable pub to_int32 : ℤ → ℤ
to_int32 z = let u = residue z in if ltb u 2147483648 then pos u else negsuc (4294967295 - u)

-- The values of `charCodeAt`: code points beyond 2^16 are two units.
unfoldable pub units : List ℕ → List ℕ
units [] = []
units (c ∷ cs) =
    let rest = units cs in
    if ltb c 65536
    then c ∷ rest
    else (55296 + (c - 65536) / 1024) ∷ (56320 + (c - 65536) % 1024) ∷ rest

-- The loop of `hashSeed`.
unfoldable pub hash_from : ℤ → List ℕ → ℤ
hash_from hash [] = hash
hash_from hash (c ∷ cs) = hash_from (to_int32 ((to_int32 (hash *ℤ pos 32) -ℤ hash) +ℤ pos c)) cs

-- `Math.abs`
abbrev pub abs : ℤ → ℕ
abs (pos n) = n
abs (negsuc n) = n + 1

unfoldable pub hash_seed : List ℕ → ℕ
hash_seed seed = abs (hash_from (pos 0) (units seed))

abbrev pub gradient_pairs : List (String × String)
gradient_pairs =
    ("#f43f5e", "#8b5cf6")
    ∷ ("#06b6d4", "#3b82f6")
    ∷ ("#22c55e", "#0ea5e9")
    ∷ ("#f59e0b", "#ef4444")
    ∷ ("#84cc16", "#14b8a6")
    ∷ ("#a855f7", "#ec4899")
    ∷ ("#0ea5e9", "#6366f1")
    ∷ ("#f97316", "#e11d48")
    ∷ []

-- `text.trim() || "music"`
abbrev pub or_music : List ℕ → List ℕ
or_music [] = codes "music"
or_music (c ∷ cs) = c ∷ cs

abbrev pub gradient_text : String × String → String
gradient_text (from, to) =
    String.◌++◌ "linear-gradient(135deg, "
      (String.◌++◌ from (String.◌++◌ " 0%, " (String.◌++◌ to " 100%)")))

abbrev pub text_of : Option (String × String) → Option String
text_of none = none
text_of (some pair) = some (gradient_text pair)

-- `none` is the exception for an index that is not in the list.
unfoldable pub gradient_from_seed : String → Option String
gradient_from_seed seed =
    text_of (get_elem? gradient_pairs (hash_seed (or_music (trim (codes seed))) % 8))
