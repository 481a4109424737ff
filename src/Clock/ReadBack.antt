-- ===== src/Clock/ReadBack.antt =====
-- What a clock text tells, and that it tells the time that it was made from.
use mc_service.Prelude.{
  ℕ, zero, suc, ◌+◌, ◌-◌, ◌*◌, ◌/◌, ◌%◌, ◌<◌, ◌≡◌, refl, ap, sym, ◌∙◌, List, [], ◌∷◌, ◌++◌, Bool,
  true, false, ◌==◌, ltb, leb, if◌then◌else◌, if_holds, arith, tests,
}
use mc_service.Prelude.Decimal.{digits, decimal, limit}
use mc_service.Clock.{pad_start, format_duration, format_time}

-- The time that a text tells, in its last unit: fields of digits behind colons, each worth sixty of
-- the next. `total` is that of the fields before, and `n` the field that is read.
unfoldable pub read_fields : ℕ → ℕ → List ℕ → ℕ
read_fields total n [] = total * 60 + n
read_fields total n (c ∷ cs) =
    if c == 58 then read_fields (total * 60 + n) 0 cs else read_fields total (n * 10 + (c - 48)) cs

unfoldable pub read_clock : List ℕ → ℕ
unfolding read_fields
read_clock cs = read_fields 0 0 cs

read_step :
    (d total n : ℕ) (cs : List ℕ)
    → d < 10
    → read_fields total n ((48 + d) ∷ cs) ≡ read_fields total (n * 10 + d) cs
unfolding read_fields
read_step d total n cs h = ground arith

read_fields-digits :
    (fuel total n : ℕ) (acc : List ℕ)
    → n < limit fuel
    → read_fields total 0 (digits fuel n acc) ≡ read_fields total n acc
unfolding digits
read_fields-digits zero total n acc h =
    read_step (n % 10) total 0 acc (omega arith) ∙ ap (λ k. read_fields total k acc) (omega arith)
read_fields-digits (suc fuel) total n acc h =
    if_holds (λ cs. read_fields total 0 cs ≡ read_fields total n acc) (ltb n 10) _ _
      (λ small.
        read_step n total 0 acc (omega tests) ∙ ap (λ k. read_fields total k acc) (omega arith))
      (λ _.
        read_fields-digits fuel total (n / 10) ((48 + n % 10) ∷ acc) (omega arith)
        ∙ read_step (n % 10) total (n / 10) acc (omega arith)
        ∙ ap (λ k. read_fields total k acc) (omega arith))

if_append :
    (b : Bool) (xs ys xs' ys' cs : List ℕ)
    → xs ++ cs ≡ xs'
    → ys ++ cs ≡ ys'
    → (if b then xs else ys) ++ cs ≡ (if b then xs' else ys')
if_append true xs ys xs' ys' cs h k = h
if_append false xs ys xs' ys' cs h k = k

-- The digits stand before whatever follows them.
digits-append : (fuel n : ℕ) (acc cs : List ℕ) → digits fuel n acc ++ cs ≡ digits fuel n (acc ++ cs)
unfolding digits
digits-append zero n acc cs = refl
digits-append (suc fuel) n acc cs =
    if_append (ltb n 10) _ _ _ _ cs refl (digits-append fuel (n / 10) ((48 + n % 10) ∷ acc) cs)

read_decimal :
    (total n : ℕ) (cs : List ℕ)
    → n < limit 20
    → read_fields total 0 (decimal n ++ cs) ≡ read_fields total n cs
read_decimal total n cs h =
    ap (read_fields total 0) (digits-append 20 n [] cs) ∙ read_fields-digits 20 total n cs h

-- Zeros in front do not count.
read_pad :
    (total : ℕ) (ds cs : List ℕ)
    → read_fields total 0 (pad_start ds ++ cs) ≡ read_fields total 0 (ds ++ cs)
unfolding read_fields pad_start
read_pad total [] cs = refl
read_pad total (c ∷ []) cs = refl
read_pad total (c ∷ d ∷ ds) cs = refl

read_padded :
    (total n : ℕ) (cs : List ℕ)
    → n < limit 20
    → read_fields total 0 (pad_start (decimal n) ++ cs) ≡ read_fields total n cs
read_padded total n cs h = read_pad total (decimal n) cs ∙ read_decimal total n cs h

++_nil : (cs : List ℕ) → cs ++ [] ≡ cs
++_nil [] = refl
++_nil (c ∷ cs) = ap (λ ds. c ∷ ds) (++_nil cs)

-- The last field.
read_last :
    (total n : ℕ) → n < limit 20 → read_fields total 0 (pad_start (decimal n)) ≡ total * 60 + n
unfolding read_fields
read_last total n h =
    ap (read_fields total 0) (sym (++_nil (pad_start (decimal n)))) ∙ read_padded total n [] h

colon :
    (total n : ℕ) (cs : List ℕ) → read_fields total n (58 ∷ cs) ≡ read_fields (total * 60 + n) 0 cs
unfolding read_fields
colon total n cs = refl

pub read_clock-format_duration :
    (secs : ℕ) → secs / 60000 < limit 20 → read_clock (format_duration secs) ≡ secs / 1000
unfolding read_clock format_duration
read_clock-format_duration secs h =
    let seconds = secs % 60000 / 1000 in
    read_decimal 0 (secs / 60000) (58 ∷ pad_start (decimal seconds)) h
    ∙ colon 0 (secs / 60000) (pad_start (decimal seconds))
    ∙ read_last (0 * 60 + secs / 60000) seconds (omega arith)
    ∙ omega arith

less_than_hour : (secs : ℕ) → leb 3600000 secs ≡ false → secs < 3600000
less_than_hour secs h = ground arith

read_hours :
    (h m s : ℕ)
    → h < limit 20
    → m < 60
    → s < 60
    → read_fields 0 0 (decimal h ++ (58 ∷ (pad_start (decimal m) ++ (58 ∷ pad_start (decimal s)))))
      ≡ (h * 60 + m) * 60 + s
read_hours h m s few hm hs =
    read_decimal 0 h (58 ∷ (pad_start (decimal m) ++ (58 ∷ pad_start (decimal s)))) few
    ∙ colon 0 h (pad_start (decimal m) ++ (58 ∷ pad_start (decimal s)))
    ∙ read_padded (0 * 60 + h) m (58 ∷ pad_start (decimal s)) (omega arith)
    ∙ colon (0 * 60 + h) m (pad_start (decimal s))
    ∙ read_last ((0 * 60 + h) * 60 + m) s (omega arith)
    ∙ omega arith

-- A clock text, of minutes and seconds or with hours before them, tells the time that it was made
-- from, in whole seconds: where the hours have 21 digits at most.
pub read_clock-format_time :
    (secs : ℕ) → secs / 3600000 < limit 20 → read_clock (format_time secs) ≡ secs / 1000
unfolding format_time read_clock
read_clock-format_time secs h =
    if_holds (λ cs. read_clock cs ≡ secs / 1000) (leb 3600000 secs) _ _
      (λ _.
        read_hours (secs / 3600000) (secs % 3600000 / 60000) (secs % 60000 / 1000) h (omega arith)
          (omega arith)
        ∙ omega arith)
      (λ less. read_clock-format_duration secs (omega (arith, less_than_hour secs less)))
