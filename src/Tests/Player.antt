-- ===== src/Tests/Player.antt =====
-- The player store on small queues.
use mc_service.Prelude.{
  ℕ, ◌%◌, ◌+◌, ◌≡◌, refl, ◌⊎◌, none, some, List, [], ◌∷◌, true, false, arith, All, String, eq_iff,
}
use mathlib.Core.Bool.{false≢true}
use mc_service.Prelude.Int.{pos, negsuc}
use mc_service.Json.{str, field, end, member}
use mc_service.Platform.{get_item, Platform}
use mc_service.Player.State.{Track, PlayerState, World, off, all}
use mc_service.Player.History.{history_json, push_recently_played, load_recently_played}
use mc_service.Player.Transport.{play, next, previous, start, next_index, active_index}
use mc_service.Player.Actions as A
use mc_service.Player.Actions.{Action, IsAllowed, perform, run}
use mc_service.Player.Invariant.{IsValid}
use mc_service.Player.Runs.{run-IsValid}
use mc_service.Player.Reload.{IsSynced, perform-IsSynced}
use mc_service.Player.Traversal.{IsAt, nexts, nexts-IsAt, previous-next, next_at_end}
use mc_service.Player.Play.{IsFirstPlace, IsOther, play_place}

abbrev track : String → Track
track id = record {
  id = id;
  title = id;
  members = field "id" (str id) (field "title" (str id) end);
}

abbrev album : List Track
album = track "a" ∷ track "b" ∷ track "c" ∷ []

-- A codec that knows one text.
abbrev browser : Platform
browser = record {
  has_window = true;
  accepts = λ _ _ _. true;
  parse = λ _. some (history_json (some (track "b") ∷ []));
  stringify = λ _. "[b]";
  atob = λ _. none;
  to_number = λ _. none;
}

abbrev stopped : PlayerState
stopped = record {
  current_track = none;
  queue = [];
  queue_index = negsuc 0;
  recently_played = [];
  is_playing = false;
  volume = pos 800;
  current_time = pos 0;
  duration = pos 0;
  shuffle = false;
  repeat = off;
}

abbrev idle : World
idle = record { player = stopped; storage = [] }

-- The album at its second track, and at its last one.
abbrev second : World
second = record {
  player = record stopped {
    current_track = some (track "b");
    queue = album;
    queue_index = pos 1;
    repeat = all;
  };
  storage = [];
}

abbrev last : World
last = record {
  player = record stopped { current_track = some (track "c"); queue = album; queue_index = pos 2 };
  storage = [];
}

after_last : (next browser 0 last).player.is_playing ≡ false
unfolding next next_index active_index
after_last = refl

abbrev session : List Action
session = A.play_album album (pos 2) ∷ A.next 5 ∷ A.set_volume (pos 2000) ∷ []

run-IsValid_example : IsValid (run browser session idle).player
run-IsValid_example =
    run-IsValid browser session idle (omega arith, (omega arith, (tt, tt)))
      (record { place = refl; bounded = omega arith; defined = tt; volume = (refl, omega arith) })

perform-IsSynced_example : IsSynced browser (perform browser (A.play (track "b") none) idle)
unfolding perform play start push_recently_played load_recently_played member get_item
perform-IsSynced_example =
    perform-IsSynced browser (A.play (track "b") none) idle refl
      (record {
        window = refl;
        fits = refl;
        text = λ e. false≢true ((eq_iff "[b]" "").1 e);
        read = refl;
      })
      ((refl, refl), tt)

second-IsAt : IsAt 1 second
second-IsAt = record { index = refl; within = omega arith; current = refl; ordered = refl }

last-IsAt : IsAt 2 last
last-IsAt = record { index = refl; within = omega arith; current = refl; ordered = refl }

nexts-IsAt_example : IsAt ((1 + 4) % 3) (nexts browser (0 ∷ 0 ∷ 0 ∷ 0 ∷ []) second)
nexts-IsAt_example = nexts-IsAt browser (0 ∷ 0 ∷ 0 ∷ 0 ∷ []) 1 second second-IsAt refl

previous-next_example :
    IsAt 1 (previous browser (next browser 0 second))
    × ((previous browser (next browser 0 second)).player.queue ≡ album)
previous-next_example = previous-next browser 0 1 second second-IsAt (omega arith)

stopped_at_end :
    next browser 0 last ≡ record last { player = record last.player { is_playing = false } }
stopped_at_end = next_at_end browser 0 2 last last-IsAt refl (λ e. ground arith)

play_place_example :
    ((play browser (track "b") (some album) idle).player.queue ≡ album)
    × ((play browser (track "b") (some album) idle).player.current_track ≡ some (track "b"))
    × ((play browser (track "b") (some album) idle).player.is_playing ≡ true)
    × ((play browser (track "b") (some album) idle).player.current_time ≡ pos 0)
    × (((i : ℕ) × ((play browser (track "b") (some album) idle).player.queue_index ≡ pos i)
          × IsFirstPlace (track "b") album i)
        ⊎ (((play browser (track "b") (some album) idle).player.queue_index ≡ pos 0)
            × All (IsOther (track "b")) album))
play_place_example = play_place browser (track "b") album idle
