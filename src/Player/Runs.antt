-- ===== src/Player/Runs.antt =====
-- The actions that start a track keep the invariant of the player store, and so does every run.
use mc_service.Prelude.{
  ℕ, ◌<◌, inl, inr, Option, none, some, List, [], ◌∷◌, arith, length, All, All-take, length-take-le,
  ◌==◌, Bool-cases, Option-cases,
}
use mc_service.Prelude.Int.{ℤ, pos, negsuc, ltb_ℤ}
use mc_service.Platform.{Platform}
use mc_service.Player.State.{Track, World, find_index, at}
use mc_service.Player.History.{push_recently_played}
use mc_service.Player.Places.{
  at_below, next_index-lt, find_index_from-lt, previous_index-lt, found-IsPlace,
}
use mc_service.Player.Transport.{
  same_id, next_index, previous_index, random_range, start, with_queue, play, jump, next, previous,
}
use mc_service.Player.Transport as T
use mc_service.Player.Actions as A
use mc_service.Player.Actions.{Action, perform, run, IsAllowed, IsIndexOf}
use mc_service.Player.Invariant.{
  IsDefined, IsValid, pause-IsValid, resume-IsValid, seek-IsValid, set_current_time-IsValid,
  set_duration-IsValid, toggle_shuffle-IsValid, toggle_repeat-IsValid, toggle_play-IsValid,
  clear_queue-IsValid, add_to_queue-IsValid, set_volume-IsValid,
}

-- What `start` keeps, and what it makes true.
module _ (browser : Platform) where
  start-IsValid :
      (track : Option Track) (w : World)
      → IsDefined track
      → IsValid w.player
      → IsValid (start browser track w).player
  unfolding start push_recently_played
  start-IsValid track w d v = record {
    place = v.place;
    bounded = length-take-le 80 (track ∷ w.player.recently_played);
    defined = All-take IsDefined 80 (track ∷ w.player.recently_played) (d, v.defined);
    volume = v.volume;
  }

  start-at-IsValid :
      (queue : List Track) (i : ℕ) (w : World)
      → i < length queue
      → IsValid w.player
      → IsValid (start browser (at queue (pos i)) (with_queue queue (pos i) w)).player
  start-at-IsValid queue i w h v =
      let (x, e) = at_below queue i h in
      start-IsValid (at queue (pos i)) (with_queue queue (pos i) w) (rw e tt)
        (record { place = inl h; bounded = v.bounded; defined = v.defined; volume = v.volume })

  play-IsValid :
      (track : Track) (queue : Option (List Track)) (w : World)
      → IsValid w.player
      → IsValid (play browser track queue w).player
  unfolding play
  play-IsValid track none w v = start-IsValid (some track) w tt v
  play-IsValid track (some queue) w v =
      start-IsValid (some track) (with_queue queue _ w) tt (record {
        place =
            found-IsPlace (find_index (same_id track) queue) queue
              (find_index_from-lt (same_id track) 0 queue);
        bounded = v.bounded;
        defined = v.defined;
        volume = v.volume;
      })

  jump-IsValid :
      (i : ℕ) (w : World)
      → i < length w.player.queue
      → IsValid w.player
      → IsValid (jump browser i w).player
  unfolding jump
  jump-IsValid i w h v = start-at-IsValid w.player.queue i w h v

  next-IsValid :
      (draw : ℕ) (w : World)
      → draw < random_range
      → IsValid w.player
      → IsValid (next browser draw w).player
  unfolding next
  next-IsValid draw w drawn v = elim (Bool-cases (length w.player.queue == 0)) [
    | inl empty ↦ rw (empty, next) v
    | inr full ↦ elim (Option-cases (next_index w.player draw)) [
      | inl stop ↦ rw (full, stop, next) assumption
      | inr (i, e) ↦
          rw (full, e, next)
            (jump-IsValid i w (next_index-lt w.player draw i (ground arith) drawn e) v)
    ]
  ]

  previous-IsValid : (w : World) → IsValid w.player → IsValid (previous browser w).player
  unfolding previous
  previous-IsValid w v = elim (Bool-cases (length w.player.queue == 0)) [
    | inl empty ↦ rw (empty, previous) v
    | inr full ↦ elim (Bool-cases (ltb_ℤ (pos 3000) w.player.current_time)) [
      | inl late ↦ rw (full, late, previous) assumption
      | inr early ↦
          rw (full, early, previous)
            (jump-IsValid (previous_index w.player) w
              (previous_index-lt w.player (ground arith) v.place) v)
    ]
  ]

  play_album-IsValid :
      (tracks : List Track) (index : ℤ) (w : World)
      → IsIndexOf tracks index
      → IsValid w.player
      → IsValid (T.play_album browser tracks index w).player
  unfolding T.play_album
  play_album-IsValid [] index w h v = v
  play_album-IsValid (t ∷ ts) (pos i) w h v = start-at-IsValid (t ∷ ts) i w h v
  play_album-IsValid (t ∷ ts) (negsuc n) w h v = absurd h

  clear_recently_played-IsValid :
      (w : World) → IsValid w.player → IsValid (T.clear_recently_played browser w).player
  unfolding T.clear_recently_played
  clear_recently_played-IsValid w v = record {
    place = v.place;
    bounded = omega arith;
    defined = tt;
    volume = v.volume;
  }

  -- One action of the store, at arguments that its callers may give, keeps the invariant.
  pub perform-IsValid :
      (a : Action) (w : World)
      → IsAllowed a
      → IsValid w.player
      → IsValid (perform browser a w).player
  unfolding perform
  perform-IsValid (A.play track queue) w h v = play-IsValid track queue w v
  perform-IsValid (A.next draw) w h v = next-IsValid draw w h v
  perform-IsValid A.previous w h v = previous-IsValid w v
  perform-IsValid (A.play_album tracks index) w h v = play_album-IsValid tracks index w h v
  perform-IsValid A.pause w h v = pause-IsValid w v
  perform-IsValid A.resume w h v = resume-IsValid w v
  perform-IsValid A.toggle_play w h v = toggle_play-IsValid w v
  perform-IsValid (A.set_volume x) w h v = set_volume-IsValid x w v
  perform-IsValid (A.seek time) w h v = seek-IsValid time w v
  perform-IsValid (A.set_current_time time) w h v = set_current_time-IsValid time w v
  perform-IsValid (A.set_duration d) w h v = set_duration-IsValid d w v
  perform-IsValid (A.add_to_queue track) w h v = add_to_queue-IsValid track w v
  perform-IsValid A.clear_queue w h v = clear_queue-IsValid w v
  perform-IsValid A.clear_recently_played w h v = clear_recently_played-IsValid w v
  perform-IsValid A.toggle_shuffle w h v = toggle_shuffle-IsValid w v
  perform-IsValid A.toggle_repeat w h v = toggle_repeat-IsValid w v

  -- After any sequence of actions the queue index is -1, 0 or a place in the queue, at most 80 tracks
  -- are remembered and none is undefined, and the volume lies between 0 and 1: where the draws are
  -- those of `Math.random()`, albums are started at an index within them, and it was so before.
  pub run-IsValid :
      (actions : List Action) (w : World)
      → All IsAllowed actions
      → IsValid w.player
      → IsValid (run browser actions w).player
  unfolding run
  run-IsValid [] w h v = v
  run-IsValid (a ∷ actions) w (h, hs) v =
      run-IsValid actions (perform browser a w) hs (perform-IsValid a w h v)
