-- ===== src/Player/Transport.antt =====
-- player.ts, lines 85 to 243: the actions of the store. Each maps the store and the storage to the
-- next ones; a call of `Math.random()` is an argument, the numerator of a fraction over 2 ^ 53.
use mc_service.Prelude.{
  ℕ, ◌+◌, ◌-◌, ◌*◌, ◌/◌, ◌^◌, Option, none, some, List, [], ◌∷◌, ◌++◌, Bool, true, false, not,
  if◌then◌else◌, leb, ◌==◌, length, str_eq,
}
use mc_service.Prelude.Int.{ℤ, pos, negsuc, ltb_ℤ}
use mc_service.Platform.{Storage, Platform}
use mc_service.Player.State.{
  Track, RepeatMode, off, all, one, PlayerState, World, find_index, find_index_from, at,
}
use mc_service.Player.History.{load_recently_played, persist_recently_played, push_recently_played}

-- The number of values of `Math.random()`.
abbrev pub random_range : ℕ
random_range = 2 ^ 53

abbrev pub same_id : Track → Track → Bool
same_id track t = str_eq t.id track.id

-- `queueIndex`, or the place of the current track in the queue.
unfoldable pub active_index : PlayerState → ℤ
unfolding find_index_from
active_index s = elim s.queue_index [
  | pos n ↦ pos n
  | negsuc _ ↦ elim s.current_track [
    | some track ↦ find_index (same_id track) s.queue
    | none ↦ negsuc 0
  ]
]

abbrev pub or_first : ℤ → ℕ
or_first (pos n) = n
or_first (negsuc _) = 0

abbrev pub is_all : RepeatMode → Bool
is_all all = true
is_all _ = false

unfoldable pub next_repeat : RepeatMode → RepeatMode
next_repeat off = all
next_repeat all = one
next_repeat one = off

-- The index that `next` moves to; `none` where playback stops.
unfoldable pub next_index : PlayerState → ℕ → Option ℕ
unfolding active_index
next_index s draw =
    let size = length s.queue in
    if s.shuffle
    then some (draw * size / random_range)
    else (let n = or_first (active_index s) + 1 in
        if leb size n then (if is_all s.repeat then some 0 else none) else some n)

unfoldable pub previous_index : PlayerState → ℕ
unfolding active_index
previous_index s = elim (active_index s) [
  | pos n ↦ if leb n 0 then length s.queue - 1 else n - 1
  | negsuc _ ↦ length s.queue - 1
]

unfoldable pub clamp_volume : ℤ → ℤ
clamp_volume v =
    let below = if ltb_ℤ v (pos 1000) then v else pos 1000 in
    if ltb_ℤ (pos 0) below then below else pos 0

abbrev pub with_queue : List Track → ℤ → World → World
with_queue queue index w = record w {
  player = record w.player { queue = queue; queue_index = index };
}

unfoldable pub pause : World → World
pause w = record w { player = record w.player { is_playing = false } }

unfoldable pub resume : World → World
resume w = record w { player = record w.player { is_playing = true } }

unfoldable pub toggle_play : World → World
toggle_play w = elim w.player.current_track [
  | none ↦ w
  | some _ ↦ record w { player = record w.player { is_playing = not w.player.is_playing } }
]

unfoldable pub set_volume : ℤ → World → World
unfolding clamp_volume
set_volume v w = record w { player = record w.player { volume = clamp_volume v } }

unfoldable pub seek : ℤ → World → World
seek time w = record w { player = record w.player { current_time = time } }

unfoldable pub set_current_time : ℤ → World → World
set_current_time time w = record w { player = record w.player { current_time = time } }

unfoldable pub set_duration : ℤ → World → World
set_duration d w = record w { player = record w.player { duration = d } }

unfoldable pub add_to_queue : Track → World → World
add_to_queue track w = record w {
  player = record w.player { queue = w.player.queue ++ track ∷ [] };
}

unfoldable pub clear_queue : World → World
clear_queue w = with_queue [] (negsuc 0) w

unfoldable pub toggle_shuffle : World → World
toggle_shuffle w = record w { player = record w.player { shuffle = not w.player.shuffle } }

unfoldable pub toggle_repeat : World → World
unfolding next_repeat
toggle_repeat w = record w { player = record w.player { repeat = next_repeat w.player.repeat } }

module _ (browser : Platform) where
  unfoldable pub initial : Storage → World
  initial storage = record {
    player = record {
      current_track = none;
      queue = [];
      queue_index = negsuc 0;
      recently_played = load_recently_played browser storage;
      is_playing = false;
      volume = pos 800;
      current_time = pos 0;
      duration = pos 0;
      shuffle = false;
      repeat = off;
    };
    storage = storage;
  }

  -- `currentTrack`, `isPlaying`, `currentTime` and `recentlyPlayed`, as four actions set them.
  unfoldable pub start : Option Track → World → World
  start track w =
      let (history, storage) =
        push_recently_played browser w.player.recently_played track w.storage in
      record {
        player = record w.player {
          current_track = track;
          is_playing = true;
          current_time = pos 0;
          recently_played = history;
        };
        storage = storage;
      }

  unfoldable pub play : Track → Option (List Track) → World → World
  play track none w = start (some track) w
  play track (some queue) w =
      let index = find_index (same_id track) queue in
      start (some track) (with_queue queue (if ltb_ℤ index (pos 0) then pos 0 else index) w)

  -- The last `set` of `next` and of `previous`.
  unfoldable pub jump : ℕ → World → World
  jump index w = start (at w.player.queue (pos index)) (with_queue w.player.queue (pos index) w)

  unfoldable pub next : ℕ → World → World
  next draw w = if length w.player.queue == 0 then w else elim (next_index w.player draw) [
    | none ↦ record w { player = record w.player { is_playing = false } }
    | some index ↦ jump index w
  ]

  unfoldable pub previous : World → World
  previous w =
      if length w.player.queue == 0
      then w
      else if ltb_ℤ (pos 3000) w.player.current_time
      then record w { player = record w.player { current_time = pos 0 } }
      else jump (previous_index w.player) w

  unfoldable pub clear_recently_played : World → World
  clear_recently_played w = record {
    player = record w.player { recently_played = [] };
    storage = persist_recently_played browser [] w.storage;
  }

  unfoldable pub play_album : List Track → ℤ → World → World
  play_album [] index w = w
  play_album (t ∷ ts) index w = start (at (t ∷ ts) index) (with_queue (t ∷ ts) index w)
