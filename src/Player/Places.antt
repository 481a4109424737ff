-- ===== src/Player/Places.antt =====
-- The queue index as a place in the queue: where `next` and `previous` go, and what `findIndex` finds.
use mc_service.Prelude.{
  ℕ, zero, suc, ◌+◌, ◌<◌, ◌≡◌, refl, ◌⊎◌, some, List, [], ◌∷◌, ◌++◌, Bool, arith, length,
  length-append, if◌then◌else◌,
}
use native.Mathlib.Nat.{mul-lt-mul_of_pos_right}
use mc_service.Prelude.Int.{ℤ, pos, negsuc, ltb_ℤ}
use mc_service.Player.State.{Track, PlayerState, find_index_from, at}
use mc_service.Player.Transport.{active_index, next_index, previous_index, random_range}

-- -1, or a place in the queue; 0 also where the queue is empty.
abbrev pub IsPlace : ℤ → List Track → Type 0
IsPlace (pos i) queue = (i < length queue) ⊎ (i ≡ 0)
IsPlace (negsuc n) queue = n ≡ 0

pub at_below : (xs : List Track) (i : ℕ) → i < length xs → (x : Track) × (at xs (pos i) ≡ some x)
at_below [] i h = elim h [ ]
at_below (x ∷ xs) zero h = (x, refl)
at_below (x ∷ xs) (suc i) h = at_below xs i (omega arith)

pub next_index-lt :
    (s : PlayerState) (draw n : ℕ)
    → 0 < length s.queue
    → draw < random_range
    → next_index s draw ≡ some n
    → n < length s.queue
unfolding next_index
next_index-lt s draw n some_queue drawn e =
    ground (arith, mul-lt-mul_of_pos_right {k = length s.queue} drawn some_queue)

pub find_index_from-lt :
    (test : Track → Bool) (i : ℕ) (xs : List Track) (n : ℕ)
    → find_index_from i test xs ≡ pos n
    → n < i + length xs
unfolding find_index_from
find_index_from-lt test i [] n e = cc
find_index_from-lt test i (x ∷ xs) n e = ground (arith, find_index_from-lt test (suc i) xs n)

active_index-lt :
    (s : PlayerState) (n : ℕ)
    → 0 < length s.queue
    → IsPlace s.queue_index s.queue
    → active_index s ≡ pos n
    → n < length s.queue
unfolding active_index
active_index-lt s n some_queue place e = grind (arith, find_index_from-lt)

pub previous_index-lt :
    (s : PlayerState)
    → 0 < length s.queue
    → IsPlace s.queue_index s.queue
    → previous_index s < length s.queue
unfolding previous_index
previous_index-lt s some_queue place = grind (arith, active_index-lt s)

pub found-IsPlace :
    (index : ℤ) (queue : List Track)
    → ((n : ℕ) → index ≡ pos n → n < 0 + length queue)
    → IsPlace (if ltb_ℤ index (pos 0) then pos 0 else index) queue
found-IsPlace (pos n) queue h = ground (arith, h n refl)
found-IsPlace (negsuc n) queue h = ground arith

pub longer-IsPlace :
    (index : ℤ) (queue : List Track) (track : Track)
    → IsPlace index queue
    → IsPlace index (queue ++ track ∷ [])
longer-IsPlace (pos i) queue track h = grind (arith, length-append queue (track ∷ []))
longer-IsPlace (negsuc n) queue track h = h
