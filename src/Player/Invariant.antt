-- ===== src/Player/Invariant.antt =====
-- The invariant of the player store, and the actions that do not start a track.
use mc_service.Prelude.{
  ◌≤◌, ◌≡◌, refl, inl, inr, Option, none, some, arith, length, All, Option-cases,
}
use mc_service.Prelude.Int.{ℤ, pos_part, neg_part}
use mc_service.Player.State.{Track, PlayerState, World}
use mc_service.Player.History.{recently_played_limit}
use mc_service.Player.Places.{IsPlace, longer-IsPlace}
use mc_service.Player.Transport.{clamp_volume}
use mc_service.Player.Transport as T

abbrev pub IsDefined : Option Track → Type 0
IsDefined none = ⊥
IsDefined (some _) = Unit

abbrev pub IsVolume : ℤ → Type 0
IsVolume v = (neg_part v ≡ 0) × (pos_part v ≤ 1000)

pub record IsValid (s : PlayerState) : Type 0 where
  pub place : IsPlace s.queue_index s.queue
  pub bounded : length s.recently_played ≤ recently_played_limit
  pub defined : All IsDefined s.recently_played
  pub volume : IsVolume s.volume

clamp_volume_bounds : (x : ℤ) → IsVolume (clamp_volume x)
unfolding clamp_volume
clamp_volume_bounds x = ground arith

pub pause-IsValid : (w : World) → IsValid w.player → IsValid (T.pause w).player
unfolding T.pause
pause-IsValid w v = assumption

pub resume-IsValid : (w : World) → IsValid w.player → IsValid (T.resume w).player
unfolding T.resume
resume-IsValid w v = assumption

pub seek-IsValid : (time : ℤ) (w : World) → IsValid w.player → IsValid (T.seek time w).player
unfolding T.seek
seek-IsValid time w v = assumption

pub set_current_time-IsValid :
    (time : ℤ) (w : World) → IsValid w.player → IsValid (T.set_current_time time w).player
unfolding T.set_current_time
set_current_time-IsValid time w v = assumption

pub set_duration-IsValid :
    (d : ℤ) (w : World) → IsValid w.player → IsValid (T.set_duration d w).player
unfolding T.set_duration
set_duration-IsValid d w v = assumption

pub toggle_shuffle-IsValid : (w : World) → IsValid w.player → IsValid (T.toggle_shuffle w).player
unfolding T.toggle_shuffle
toggle_shuffle-IsValid w v = assumption

pub toggle_repeat-IsValid : (w : World) → IsValid w.player → IsValid (T.toggle_repeat w).player
unfolding T.toggle_repeat
toggle_repeat-IsValid w v = assumption

pub toggle_play-IsValid : (w : World) → IsValid w.player → IsValid (T.toggle_play w).player
unfolding T.toggle_play
toggle_play-IsValid w v = elim (Option-cases w.player.current_track) [
  | inl none_yet ↦ rw (none_yet, T.toggle_play) v
  | inr (x, e) ↦ rw (e, T.toggle_play) assumption
]

pub clear_queue-IsValid : (w : World) → IsValid w.player → IsValid (T.clear_queue w).player
unfolding T.clear_queue
clear_queue-IsValid w v = record {
  place = refl;
  bounded = v.bounded;
  defined = v.defined;
  volume = v.volume;
}

pub add_to_queue-IsValid :
    (track : Track) (w : World) → IsValid w.player → IsValid (T.add_to_queue track w).player
unfolding T.add_to_queue
add_to_queue-IsValid track w v = record {
  place = longer-IsPlace w.player.queue_index w.player.queue track v.place;
  bounded = v.bounded;
  defined = v.defined;
  volume = v.volume;
}

pub set_volume-IsValid : (x : ℤ) (w : World) → IsValid w.player → IsValid (T.set_volume x w).player
unfolding T.set_volume
set_volume-IsValid x w v = record {
  place = v.place;
  bounded = v.bounded;
  defined = v.defined;
  volume = clamp_volume_bounds x;
}
