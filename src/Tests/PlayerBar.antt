-- ===== src/Tests/PlayerBar.antt =====
-- Two tracks in quick succession, whose streams arrive in the other order.
use mc_service.Prelude.{◌≡◌, refl, ℕ, String, none, some, [], ◌∷◌, true, false, arith}
use mc_service.Prelude.Int.{pos}
use mc_service.Json.{end}
use mc_service.Platform.{Platform}
use mc_service.Player.State.{Track, World, off}
use mc_service.Player.Actions as A
use mc_service.Player.Transport as T
use mc_service.PlayerBar.Defs.{
  Load, Bar, hls_js, mount, track_effect, load_track, finish_load, attach, toggle_mute,
}
use mc_service.PlayerBar.Reach.{start, next, change, answer, Shows, Reach-Shows}
use mc_service.PlayerBar.Mute.{toggle_mute-toggle_mute}

abbrev browser : Platform
browser = record {
  has_window = true;
  accepts = λ _ _ _. true;
  parse = λ _. none;
  stringify = λ _. "";
  atob = λ _. none;
  to_number = λ _. none;
}

abbrev track : String → Track
track id = record { id = id; title = id; members = end }

abbrev quiet : World
quiet = record {
  player = record {
    current_track = none;
    queue = [];
    queue_index = pos 0;
    recently_played = [];
    is_playing = true;
    volume = pos 800;
    current_time = pos 0;
    duration = pos 0;
    shuffle = false;
    repeat = off;
  };
  storage = [];
}

abbrev opened : Bar
opened = track_effect (mount quiet)

abbrev skipped : Bar → String → Bar
skipped s id =
    track_effect (record s { world = A.perform browser (A.play (track id) none) s.world })

abbrev waiting : Bar
waiting = skipped (skipped opened "a") "b"

abbrev load_of : ℕ → String → Load
load_of n id = record { request_id = n; track_id = id }

abbrev first_answered : Bar
first_answered = finish_load hls_js (load_of 1 "a") (some "a.m3u8") (load_of 2 "b" ∷ []) waiting

whole : Unit {0}
unfolding track_effect load_track finish_load attach A.perform T.play T.start
whole = tt

two_waiting : waiting.loads ≡ load_of 2 "b" ∷ load_of 1 "a" ∷ []
unfolding whole
two_waiting = refl

-- The answer for the first track comes too late and is not attached.
stale : first_answered.audio.source ≡ none
unfolding whole
stale = refl

Reach-Shows_example : Shows first_answered
Reach-Shows_example = Reach-Shows browser hls_js quiet (
    next
      (next (next start (change (A.play (track "a") none) opened))
        (change (A.play (track "b") none) (skipped opened "a")))
      (answer (load_of 2 "b" ∷ []) (load_of 1 "a") [] (some "a.m3u8") waiting two_waiting))

toggle_mute-toggle_mute_example :
    ((toggle_mute (mount quiet)).world.player.volume ≡ pos 0)
    × ((toggle_mute (toggle_mute (mount quiet))).world.player.volume ≡ pos 800)
toggle_mute-toggle_mute_example =
    toggle_mute-toggle_mute (mount quiet) 800 refl (omega arith) (omega arith)
