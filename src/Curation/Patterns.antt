-- ===== src/Curation/Patterns.antt =====
-- The three patterns, and a matcher that backtracks as the language's does. A text is the list of its
-- code points. The flag `i` folds ASCII letters alone onto those of the patterns.
use mc_service.Prelude.{
  ℕ, String, Option, none, some, List, [], ◌∷◌, Bool, true, false, not, ◌&&◌, ◌||◌, ◌==◌, leb,
  if◌then◌else◌, codes, is_space, lower,
}

-- A part of a pattern: a text, `\s*`, an optional text, `\b`.
pub data Part : Type 0 where
  text optional : String → Part
  spaces boundary : Part

abbrev is_word_code : ℕ → Bool
is_word_code c =
    (leb b'a' (lower c) && leb (lower c) b'z') || (leb b'0' c && leb c b'9') || c == b'_'

abbrev is_word : Option ℕ → Bool
is_word none = false
is_word (some c) = is_word_code c

abbrev head : List ℕ → Option ℕ
head [] = none
head (c ∷ cs) = some c

-- What is left to match, given the code point before the place.
abbrev Rest : Type 0
Rest = Option ℕ → List ℕ → Bool

unfoldable pub match_text : List ℕ → Rest → Rest
match_text [] k before cs = k before cs
match_text (d ∷ ds) k before [] = false
match_text (d ∷ ds) k before (c ∷ cs) = lower c == d && match_text ds k (some c) cs

unfoldable pub match_spaces : Rest → Rest
match_spaces k before [] = k before []
match_spaces k before (c ∷ cs) = k before (c ∷ cs) || (is_space c && match_spaces k (some c) cs)

unfoldable pub match_part : Part → Rest → Rest
unfolding match_text match_spaces
match_part (text s) k before cs = match_text (codes s) k before cs
match_part (optional s) k before cs = match_text (codes s) k before cs || k before cs
match_part spaces k before cs = match_spaces k before cs
match_part boundary k before cs =
    (if is_word before then not (is_word (head cs)) else is_word (head cs)) && k before cs

unfoldable pub match_here : List Part → Rest
unfolding match_part
match_here [] before cs = true
match_here (p ∷ ps) before cs = match_part p (match_here ps) before cs

abbrev pub match_any : List (List Part) → Rest
match_any [] before cs = false
match_any (p ∷ ps) before cs = match_here p before cs || match_any ps before cs

-- `pattern.test(text)`, with the alternatives of the pattern
unfoldable pub test_from : List (List Part) → Rest
test_from ps before [] = match_any ps before []
test_from ps before (c ∷ cs) = match_any ps before (c ∷ cs) || test_from ps (some c) cs

abbrev pub test : List (List Part) → List ℕ → Bool
test ps cs = test_from ps none cs

abbrev pub ml_source_pattern : List (List Part)
ml_source_pattern =
    (text "[ml]" ∷ [])
    ∷ (boundary ∷ text "ml" ∷ boundary ∷ [])
    ∷ (text "machine" ∷ spaces ∷ text "learning" ∷ [])
    ∷ (text "algorithmic" ∷ [])
    ∷ (boundary ∷ text "ai" ∷ boundary ∷ [])
    ∷ (text "model" ∷ [])
    ∷ []

abbrev pub human_source_pattern : List (List Part)
human_source_pattern =
    (text "[human]" ∷ [])
    ∷ (boundary ∷ text "human" ∷ boundary ∷ [])
    ∷ (text "editor" ∷ optional "ial" ∷ [])
    ∷ (text "admin" ∷ [])
    ∷ (text "curator" ∷ [])
    ∷ (text "staff" ∷ spaces ∷ text "pick" ∷ optional "s" ∷ [])
    ∷ []

abbrev pub curated_pattern : List (List Part)
curated_pattern =
    (text "curated" ∷ [])
    ∷ (text "made" ∷ spaces ∷ text "for" ∷ spaces ∷ text "you" ∷ [])
    ∷ (text "for" ∷ spaces ∷ text "you" ∷ [])
    ∷ (text "mix" ∷ [])
    ∷ (text "recommended" ∷ [])
    ∷ (text "discover" ∷ [])
    ∷ []
