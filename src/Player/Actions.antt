-- ===== src/Player/Actions.antt =====
-- The store as a component: every action of player.ts as a value, and runs of them.
use mc_service.Prelude.{ℕ, ◌<◌, Option, List, [], ◌∷◌, length}
use mc_service.Prelude.Int.{ℤ, pos, negsuc}
use mc_service.Platform.{Platform}
use mc_service.Player.State.{Track, World}
use mc_service.Player.Transport as T
use mc_service.Player.Transport.{random_range}

pub data Action : Type 0 where
  play : Track → Option (List Track) → Action
  pause resume toggle_play previous : Action
  next : ℕ → Action
  set_volume seek set_current_time set_duration : ℤ → Action
  add_to_queue : Track → Action
  clear_queue clear_recently_played toggle_shuffle toggle_repeat : Action
  play_album : List Track → ℤ → Action

module _ (browser : Platform) where
  unfoldable pub perform : Action → World → World
  perform (play track queue) = T.play browser track queue
  perform pause = T.pause
  perform resume = T.resume
  perform toggle_play = T.toggle_play
  perform previous = T.previous browser
  perform (next draw) = T.next browser draw
  perform (set_volume v) = T.set_volume v
  perform (seek time) = T.seek time
  perform (set_current_time time) = T.set_current_time time
  perform (set_duration d) = T.set_duration d
  perform (add_to_queue track) = T.add_to_queue track
  perform clear_queue = T.clear_queue
  perform clear_recently_played = T.clear_recently_played browser
  perform toggle_shuffle = T.toggle_shuffle
  perform toggle_repeat = T.toggle_repeat
  perform (play_album tracks index) = T.play_album browser tracks index

  unfoldable pub run : List Action → World → World
  run [] w = w
  run (a ∷ actions) w = run actions (perform a w)

-- What the callers give: a draw of `Math.random()`, and a start index within a nonempty album.
abbrev pub IsIndexOf : List Track → ℤ → Type 0
IsIndexOf [] index = Unit
IsIndexOf (t ∷ ts) (pos i) = i < length (t ∷ ts)
IsIndexOf (t ∷ ts) (negsuc _) = ⊥

abbrev pub IsAllowed : Action → Type 0
IsAllowed (next draw) = draw < random_range
IsAllowed (play_album tracks index) = IsIndexOf tracks index
IsAllowed _ = Unit
