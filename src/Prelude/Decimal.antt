-- ===== src/Prelude/Decimal.antt =====
-- Numbers in decimal: `String(n)` and `parseInt(text, 10)`, on texts given by their code points.
use mc_service.Prelude.{
  ℕ, zero, suc, ◌+◌, ◌-◌, ◌*◌, ◌/◌, ◌%◌, ◌<◌, ◌≡◌, refl, ap, sym, subst, if_off, is_space, ◌∙◌,
  String, Option, none, some, List, [], ◌∷◌, Bool, true, false, ◌&&◌, ◌==◌, arith, ltb, leb,
  if◌then◌else◌, if_holds, All, trim_start, tests, get_or,
}
use Prim.Native.String
use mc_service.Prelude.Int.{ℤ, pos, sub_ℕ}

-- The digits of a number before other code points; of `fuel + 1` digits at most.
unfoldable pub digits : ℕ → ℕ → List ℕ → List ℕ
digits zero n acc = (48 + n % 10) ∷ acc
digits (suc fuel) n acc =
    let rest = digits fuel (n / 10) ((48 + n % 10) ∷ acc) in
    if ltb n 10 then (48 + n) ∷ acc else rest

-- The text of a whole number. A double holds each whole number up to 2^53, and there its text has
-- these digits; from 10^21 on a text has an exponent, so 21 digits are enough.
abbrev pub decimal : ℕ → List ℕ
decimal n = digits 20 n []

abbrev digit_texts : List String
digit_texts = "0" ∷ "1" ∷ "2" ∷ "3" ∷ "4" ∷ "5" ∷ "6" ∷ "7" ∷ "8" ∷ "9" ∷ []

unfoldable pub digits_text : ℕ → ℕ → String → String
digits_text zero n acc = String.◌++◌ (get_or digit_texts (n % 10) "") acc
digits_text (suc fuel) n acc =
    let rest = digits_text fuel (n / 10) (String.◌++◌ (get_or digit_texts (n % 10) "") acc) in
    if ltb n 10 then String.◌++◌ (get_or digit_texts n "") acc else rest

abbrev pub decimal_text : ℕ → String
decimal_text n = digits_text 20 n ""

abbrev pub is_digit : ℕ → Bool
is_digit c = leb 48 c && leb c 57

-- The number that the first digits make, behind those of `acc`.
unfoldable pub read_digits : ℕ → List ℕ → ℕ
read_digits acc [] = acc
read_digits acc (c ∷ cs) =
    let rest = read_digits (acc * 10 + (c - 48)) cs in if is_digit c then rest else acc

abbrev pub unsigned : List ℕ → Option ℕ
unsigned [] = none
unsigned (c ∷ cs) = if is_digit c then some (read_digits 0 (c ∷ cs)) else none

abbrev pub signed : List ℕ → Option ℤ
signed [] = none
signed (c ∷ cs) =
    if c == 45
    then elim (unsigned cs) [ none ↦ none | some n ↦ some (sub_ℕ 0 n) ]
    else (if c == 43
        then elim (unsigned cs) [ none ↦ none | some n ↦ some (pos n) ]
        else elim (unsigned (c ∷ cs)) [ none ↦ none | some n ↦ some (pos n) ])

-- `Number.parseInt(text, 10)`; `none` is NaN.
unfoldable pub parse_int : List ℕ → Option ℤ
parse_int cs = signed (trim_start cs)

-- The first number of `fuel + 2` digits.
abbrev pub limit : ℕ → ℕ
limit zero = 10
limit (suc fuel) = 10 * limit fuel

digit_lem : (d : ℕ) → d < 10 → is_digit (48 + d) ≡ true
digit_lem d h = ground arith

read_digits_step :
    (d n : ℕ) (cs : List ℕ) → d < 10 → read_digits n ((48 + d) ∷ cs) ≡ read_digits (n * 10 + d) cs
unfolding read_digits
read_digits_step d n cs h = ground arith

read_digits-digits :
    (fuel n : ℕ) (acc : List ℕ)
    → n < limit fuel
    → read_digits 0 (digits fuel n acc) ≡ read_digits n acc
unfolding digits
read_digits-digits zero n acc h =
    read_digits_step (n % 10) 0 acc (omega arith) ∙ ap (λ k. read_digits k acc) (omega arith)
read_digits-digits (suc fuel) n acc h =
    if_holds (λ cs. read_digits 0 cs ≡ read_digits n acc) (ltb n 10) _ _
      (λ small. read_digits_step n 0 acc (omega tests) ∙ ap (λ k. read_digits k acc) (omega arith))
      (λ _.
        read_digits-digits fuel (n / 10) ((48 + n % 10) ∷ acc) (omega arith)
        ∙ read_digits_step (n % 10) (n / 10) acc (omega arith)
        ∙ ap (λ k. read_digits k acc) (omega arith))

abbrev pub IsDigit : ℕ → Type 0
IsDigit c = is_digit c ≡ true

pub digits-IsDigit : (fuel n : ℕ) (acc : List ℕ) → All IsDigit acc → All IsDigit (digits fuel n acc)
unfolding digits
digits-IsDigit zero n acc h = (digit_lem (n % 10) (omega arith), h)
digits-IsDigit (suc fuel) n acc h =
    if_holds (All IsDigit) (ltb n 10) _ _ (λ small. (digit_lem n (omega tests), h))
      (λ _. digits-IsDigit fuel (n / 10) _ (digit_lem (n % 10) (omega arith), h))

-- There is a digit.
pub digits-cases :
    (fuel n : ℕ) (acc : List ℕ) → (c : ℕ) × (cs : List ℕ) × (digits fuel n acc ≡ c ∷ cs)
unfolding digits
digits-cases zero n acc = (_, _, refl)
digits-cases (suc fuel) n acc =
    if_holds (λ ds. (c : ℕ) × (cs : List ℕ) × (ds ≡ c ∷ cs)) (ltb n 10) _ _ (λ _. (_, _, refl))
      (λ _. digits-cases fuel (n / 10) _)

digit_not_space : (c : ℕ) → IsDigit c → is_space c ≡ false
digit_not_space c h = ground arith

pub trim_start_of_digit : (c : ℕ) (cs : List ℕ) → IsDigit c → trim_start (c ∷ cs) ≡ c ∷ cs
unfolding trim_start
trim_start_of_digit c cs h =
    ap (λ (b : Bool). elim b [ true ↦ trim_start cs | false ↦ c ∷ cs ]) (digit_not_space c h)

unsigned_of_digit :
    (c : ℕ) (cs : List ℕ) → IsDigit c → unsigned (c ∷ cs) ≡ some (read_digits 0 (c ∷ cs))
unsigned_of_digit c cs h = rw h refl

signed_of_digit :
    (c : ℕ) (cs : List ℕ) → IsDigit c → signed (c ∷ cs) ≡ some (pos (read_digits 0 (c ∷ cs)))
signed_of_digit c cs h =
    if_off (c == 45) _ _ (ground arith)
    ∙ if_off (c == 43) _ _ (ground arith)
    ∙ ap (λ (o : Option ℕ). elim o [ none ↦ none | some n ↦ some (pos n) ])
        (unsigned_of_digit c cs h)

digit_first :
    (c : ℕ) (cs : List ℕ) → IsDigit c → parse_int (c ∷ cs) ≡ some (pos (read_digits 0 (c ∷ cs)))
unfolding parse_int
digit_first c cs h = ap signed (trim_start_of_digit c cs h) ∙ signed_of_digit c cs h

-- `parseInt(String(n), 10)` is `n`, where `n` has 21 digits at most.
pub parse_int-decimal : (n : ℕ) → n < limit 20 → parse_int (decimal n) ≡ some (pos n)
unfolding read_digits
parse_int-decimal n h =
    let (c, cs, e) = digits-cases 20 n [] in
    let first = (subst (All IsDigit) e (digits-IsDigit 20 n [] tt)).0 in
    ap parse_int e
    ∙ digit_first c cs first
    ∙ ap (λ ds. some (pos (read_digits 0 ds))) (sym e)
    ∙ ap (λ k. some (pos k)) (read_digits-digits 20 n [] h)
