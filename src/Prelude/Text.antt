-- ===== src/Prelude/Text.antt =====
-- Texts by their code points, and the text functions of the language that the program calls.
use Prim.Native.Nat.{ℕ, ◌+◌}
use Prim.Native.Char.{code}
use Prim.Native.String.{String}
use mathlib.Core.List.{List, [], ◌∷◌, reverse}
use mathlib.Core.Bool.{Bool, true, false, ◌&&◌, ◌||◌}
use mc_service.Prelude.Tests.{leb, ◌==◌, if◌then◌else◌}

abbrev pub codes : String → List ℕ
codes String.[] = []
codes (String.◌∷◌ c s) = code c ∷ codes s

-- White space and line ends, as `trim` and `\s` know them.
abbrev pub is_space : ℕ → Bool
is_space c =
    (leb 9 c && leb c 13)
    || c == 32
    || c == 160
    || c == 5760
    || (leb 8192 c && leb c 8202)
    || c == 8232
    || c == 8233
    || c == 8239
    || c == 8287
    || c == 12288
    || c == 65279

unfoldable pub trim_start : List ℕ → List ℕ
trim_start [] = []
trim_start (c ∷ cs) = elim (is_space c) [ true ↦ trim_start cs | false ↦ c ∷ cs ]

-- `text.trim()`
unfoldable pub trim : List ℕ → List ℕ
unfolding trim_start
trim cs = reverse (trim_start (reverse (trim_start cs)))

-- `text.toLowerCase()` on ASCII; other characters are kept. It is used to compare with the texts
-- "favorites" and "my library", whose letters no other character is mapped to, and for patterns
-- with the flag `i`, which fold no other character onto an ASCII one.
abbrev pub lower : ℕ → ℕ
lower c = if leb b'A' c && leb c b'Z' then c + 32 else c

-- The same texts, as lists of code points.
abbrev pub same_codes : List ℕ → List ℕ → Bool
same_codes [] [] = true
same_codes (c ∷ cs) (d ∷ ds) = c == d && same_codes cs ds
same_codes _ _ = false

-- A text before another, backwards.
abbrev pub onto : String → String → String
onto String.[] t = t
onto (String.◌∷◌ c s) t = onto s (String.◌∷◌ c t)

unfoldable pub left_trimmed : String → String
left_trimmed String.[] = String.[]
left_trimmed (String.◌∷◌ c s) =
    let rest = left_trimmed s in if is_space (code c) then rest else String.◌∷◌ c s

-- `text.trim()` as a text.
unfoldable pub trimmed : String → String
unfolding left_trimmed
trimmed s = onto (left_trimmed (onto (left_trimmed s) String.[])) String.[]

-- `text.length`: a code point above 0xffff counts twice.
abbrev pub units : String → ℕ
units String.[] = 0
units (String.◌∷◌ c s) = (if leb 65536 (code c) then 2 else 1) + units s

abbrev pub is_prefix : List ℕ → List ℕ → Bool
is_prefix [] _ = true
is_prefix (p ∷ ps) [] = false
is_prefix (p ∷ ps) (c ∷ cs) = p == c && is_prefix ps cs

-- `text.includes(part)`
unfoldable pub contains : List ℕ → List ℕ → Bool
contains part [] = is_prefix part []
contains part (c ∷ cs) = is_prefix part (c ∷ cs) || contains part cs
