-- ===== src/Player/Play.antt =====
-- `play` with a queue: where the queue index is put.
use mc_service.Prelude.{
  ℕ, suc, ◌+◌, ◌≡◌, ◌≢◌, refl, ◌⊎◌, inl, inr, some, List, [], ◌∷◌, arith, All, take, eq_iff,
  Bool-cases, str_eq, true, if◌then◌else◌,
}
use mc_service.Prelude.Int.{ℤ, pos, negsuc, ltb_ℤ}
use mc_service.Platform.{Platform}
use mc_service.Player.State.{Track, World, find_index, find_index_from, at}
use mc_service.Player.Transport.{same_id, play, start}

abbrev pub IsOther : Track → Track → Type 0
IsOther track t = t.id ≢ track.id

-- The place `i` of the queue is the first one with the track's `id`.
pub record IsFirstPlace (track : Track) (queue : List Track) (i : ℕ) : Type 0 where
  pub found : Track
  pub here : at queue (pos i) ≡ some found
  pub same : found.id ≡ track.id
  pub before : All (IsOther track) (take i queue)

-- What `findIndex` returns, counting from `k`.
abbrev IsFound : Track → List Track → ℕ → ℤ → Type 0
IsFound track queue k (pos n) = (i : ℕ) × (n ≡ k + i) × IsFirstPlace track queue i
IsFound track queue k (negsuc n) = All (IsOther track) queue

IsFound-cons :
    (track t : Track) (queue : List Track) (k : ℕ) (index : ℤ)
    → t.id ≢ track.id
    → IsFound track queue (suc k) index
    → IsFound track (t ∷ queue) k index
IsFound-cons track t queue k (pos n) other (i, e, h) = (
  suc i,
  omega arith,
  record { found = h.found; here = h.here; same = h.same; before = (other, h.before) },
)
IsFound-cons track t queue k (negsuc n) other h = (other, h)

find_index_from-IsFound :
    (track : Track) (queue : List Track) (k : ℕ)
    → IsFound track queue k (find_index_from k (same_id track) queue)
unfolding find_index_from
find_index_from-IsFound track [] k = tt
find_index_from-IsFound track (t ∷ queue) k = elim (Bool-cases (str_eq t.id track.id)) [
  | inl same ↦ rw same (
    0,
    omega arith,
    record { found = t; here = refl; same = (eq_iff t.id track.id).0 same; before = tt },
  )
  | inr other ↦ rw other (
      IsFound-cons track t queue k _ (λ e. ground (arith, eq_iff t.id track.id))
        (find_index_from-IsFound track queue (suc k)))
]

-- The index that `play` stores.
abbrev or_zero : ℤ → ℤ
or_zero index = if ltb_ℤ index (pos 0) then pos 0 else index

module _ (browser : Platform) where
  -- `play` with a queue makes it the queue, starts to play the track, from its start, and puts the queue index
  -- on the first place of the queue with the track's `id`, or on 0 where no track has it.
  pub play_place :
      (track : Track) (queue : List Track) (w : World)
      → ((play browser track (some queue) w).player.queue ≡ queue)
        × ((play browser track (some queue) w).player.current_track ≡ some track)
        × ((play browser track (some queue) w).player.is_playing ≡ true)
        × ((play browser track (some queue) w).player.current_time ≡ pos 0)
        × (((i : ℕ) × ((play browser track (some queue) w).player.queue_index ≡ pos i)
              × IsFirstPlace track queue i)
            ⊎ (((play browser track (some queue) w).player.queue_index ≡ pos 0)
                × All (IsOther track) queue))
  unfolding play start
  play_place track queue w = (
    refl,
    refl,
    refl,
    refl,
    placed (find_index (same_id track) queue) (find_index_from-IsFound track queue 0),
  )
    where
      placed :
          (index : ℤ)
          → IsFound track queue 0 index
          → ((i : ℕ) × (or_zero index ≡ pos i) × IsFirstPlace track queue i)
            ⊎ ((or_zero index ≡ pos 0) × All (IsOther track) queue)
      placed (pos n) (i, e, h) = inl (i, ground arith, h)
      placed (negsuc n) h = inr (ground arith, h)
