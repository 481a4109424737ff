-- ===== src/Player/Traversal.antt =====
-- Moving through the queue: `next` and `previous` without shuffle.
use mc_service.Prelude.{
  ℕ, suc, ◌+◌, ◌%◌, ◌<◌, ◌≡◌, List, [], ◌∷◌, false, arith, length, ◌≢◌, ltb, Bool-cases, inl, inr,
  ◌∙◌, ap,
}
use native.Mathlib.Nat.{mod-eq_of_lt, add-mod_left}
use mc_service.Prelude.Int.{pos}
use mc_service.Platform.{Platform}
use mc_service.Player.State.{World, all, at}
use mc_service.Player.Transport.{
  start, jump, next, next_index, previous, previous_index, active_index,
}

-- The store plays the track at place `i` of its queue, in order.
pub record IsAt (i : ℕ) (w : World) : Type 0 where
  pub index : w.player.queue_index ≡ pos i
  pub within : i < length w.player.queue
  pub current : w.player.current_track ≡ at w.player.queue (pos i)
  pub ordered : w.player.shuffle ≡ false

round : (n i : ℕ) {size : ℕ} → i + 1 ≡ size → (i + suc n) % size ≡ (0 + n) % size
round n i {size} e =
    let sum : i + suc n ≡ size + n = omega arith in
    let zero_first : 0 + n ≡ n = omega arith in rw (sum, zero_first) (add-mod_left size n)

module _ (browser : Platform) where
  next-IsAt :
      (draw i : ℕ) (w : World)
      → IsAt i w
      → i + 1 < length w.player.queue
      → IsAt (i + 1) (next browser draw w) × ((next browser draw w).player.queue ≡ w.player.queue)
  unfolding next next_index jump start active_index
  next-IsAt draw i w h last = ground arith

  -- At the end of the queue, with "repeat all".
  next-IsAt_wrap :
      (draw i : ℕ) (w : World)
      → IsAt i w
      → i + 1 ≡ length w.player.queue
      → w.player.repeat ≡ all
      → IsAt 0 (next browser draw w)
  unfolding next next_index jump start active_index
  next-IsAt_wrap draw i w h last r = ground arith

  next-queue :
      (draw : ℕ) (w : World)
      → ((next browser draw w).player.queue ≡ w.player.queue)
        × ((next browser draw w).player.repeat ≡ w.player.repeat)
  unfolding next jump start
  next-queue draw w = ground arith

  -- Several calls of `next`, one for each draw.
  pub nexts : List ℕ → World → World
  nexts [] w = w
  nexts (draw ∷ draws) w = nexts draws (next browser draw w)

  -- Without shuffle and with "repeat all", `next` goes round the queue: after as many calls as there
  -- are draws, the track played is the one that many places further, counted modulo the length of
  -- the queue, whatever the draws.
  pub nexts-IsAt :
      (draws : List ℕ) (i : ℕ) (w : World)
      → IsAt i w
      → w.player.repeat ≡ all
      → IsAt ((i + length draws) % length w.player.queue) (nexts draws w)
  unfolding nexts
  nexts-IsAt [] i w h r =
      let e : (i + 0) % length w.player.queue ≡ i = grind (arith, mod-eq_of_lt h.within) in rw e h
  nexts-IsAt (draw ∷ draws) i w h r = elim (Bool-cases (ltb (i + 1) (length w.player.queue))) [
    | inl inside ↦
        let (q, m) = next-queue draw w in
        let ih =
          nexts-IsAt draws (i + 1) (next browser draw w) (next-IsAt draw i w h (ground arith)).0
            (m ∙ r) in
        let e : i + suc (length draws) ≡ i + 1 + length draws = omega arith in
        rw (e, ← ap length q) ih
    | inr last ↦
        let (q, m) = next-queue draw w in
        let size : i + 1 ≡ length w.player.queue = ground arith in
        let ih =
          nexts-IsAt draws 0 (next browser draw w) (next-IsAt_wrap draw i w h size r) (m ∙ r) in
        let e : (i + suc (length draws)) % length w.player.queue
            ≡ (0 + length draws) % length w.player.queue =
          round (length draws) i size in
        rw (e, ← ap length q) ih
  ]

  -- `next` and then `previous` return to the track that was played, from any place but the last one,
  -- without shuffle; the two never change the queue.
  pub previous-next :
      (draw i : ℕ) (w : World)
      → IsAt i w
      → i + 1 < length w.player.queue
      → IsAt i (previous browser (next browser draw w))
        × ((previous browser (next browser draw w)).player.queue ≡ w.player.queue)
  unfolding next next_index jump start active_index previous previous_index
  previous-next draw i w h last = ground arith

  -- The last track of the queue, without shuffle: `next` stops the player and changes nothing else,
  -- unless "repeat all" is on ("repeat one" included).
  pub next_at_end :
      (draw i : ℕ) (w : World)
      → IsAt i w
      → i + 1 ≡ length w.player.queue
      → w.player.repeat ≢ all
      → next browser draw w ≡ record w { player = record w.player { is_playing = false } }
  unfolding next next_index active_index
  next_at_end draw i w h last r = ground arith
