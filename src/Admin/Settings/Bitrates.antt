-- ===== src/Admin/Settings/Bitrates.antt =====
-- The bitrates of the form: `hydrateForm` prints them, and `parseBitratesInput` reads them. A text is
-- given by its code points.
use mc_service.Prelude.{
  suc, Option, none, some, List, [], ◌∷◌, ◌++◌, Bool, false, ◌||◌, ◌==◌, trim, if◌then◌else◌,
}
use mc_service.Prelude.Int.{ℤ, pos, negsuc, ◌-ℤ◌, ltb_ℤ}
use mc_service.Prelude.Decimal.{decimal, parse_int}
use mc_service.Prelude.{ℕ}
use mc_service.Sorting.{sort}

-- `String(n)`
abbrev pub number_text : ℤ → List ℕ
number_text (pos n) = decimal n
number_text (negsuc n) = 45 ∷ decimal (suc n)

-- `numbers.join(",")`
unfoldable pub join : List ℤ → List ℕ
join [] = []
join (n ∷ []) = number_text n
join (n ∷ m ∷ ns) = number_text n ++ (44 ∷ join (m ∷ ns))

abbrev pub onto_first : ℕ → List (List ℕ) → List (List ℕ)
onto_first c [] = (c ∷ []) ∷ []
onto_first c (part ∷ parts) = (c ∷ part) ∷ parts

-- `text.split(",")`
unfoldable pub split : List ℕ → List (List ℕ)
split [] = [] ∷ []
split (c ∷ cs) = let rest = split cs in if c == 44 then [] ∷ rest else onto_first c rest

abbrev pub same_number : ℤ → ℤ → Bool
same_number (pos m) (pos n) = m == n
same_number (negsuc m) (negsuc n) = m == n
same_number _ _ = false

abbrev pub among : ℤ → List ℤ → Bool
among n [] = false
among n (m ∷ ms) = same_number m n || among n ms

-- `[...new Set(numbers)]`, where `seen` is in the set already.
unfoldable pub distinct_from : List ℤ → List ℤ → List ℤ
distinct_from seen [] = []
distinct_from seen (n ∷ ns) =
    let skipped = distinct_from seen ns in
    let taken = distinct_from (n ∷ seen) ns in if among n seen then skipped else n ∷ taken

abbrev pub with_positive : Option ℤ → List ℤ → List ℤ
with_positive none ns = ns
with_positive (some n) ns = if ltb_ℤ (pos 0) n then n ∷ ns else ns

unfoldable pub positives : List (List ℕ) → List ℤ
positives [] = []
positives (part ∷ parts) = with_positive (parse_int (trim part)) (positives parts)

abbrev pub ascending : ℤ → ℤ → ℤ
ascending a b = a -ℤ b

unfoldable pub parse_bitrates : List ℕ → List ℤ
unfolding distinct_from positives split
parse_bitrates text = sort ascending (distinct_from [] (positives (split text)))
