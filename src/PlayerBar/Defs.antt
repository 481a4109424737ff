-- ===== src/PlayerBar/Defs.antt =====
-- The bar's state, its effects and its handlers. An effect runs after the change of the store that it
-- depends on; `loadTrack` is its part up to the `await`, and the part after it.
use mc_service.Prelude.{
  ℕ, ◌+◌, String, Option, none, some, List, [], ◌∷◌, Bool, true, false, ◌==◌, if◌then◌else◌,
}
use mc_service.Prelude.Int.{ℤ, pos, ltb_ℤ}
use mc_service.Platform.{Platform}
use mc_service.Player.State.{Track, RepeatMode, off, all, one, World}
use mc_service.Player.Transport.{next, set_volume, seek, set_current_time, set_duration}

-- A request for a stream: its number, and the track it is for.
pub record Load : Type 0 where
  pub request_id : ℕ
  pub track_id : String

-- What is attached to the audio element, with the request that it was the answer to.
pub record Source : Type 0 where
  pub load : Load
  pub manifest_url : String

pub record Audio : Type 0 where
  pub source : Option Source
  pub is_playing : Bool
  pub current_time : ℤ
  pub volume : ℤ

-- `loads` are the requests without an answer, `parsing` those whose manifest is not parsed.
pub record Bar : Type 0 where
  pub world : World
  pub audio : Audio
  pub hls : Option Source
  pub seeking : Bool
  pub load_request_id : ℕ
  pub prev_volume : ℤ
  pub loads : List Load
  pub parsing : List Load

-- `Hls.isSupported()`, else whether the browser plays the format itself.
pub data Support : Type 0 where
  hls_js native unsupported : Support

abbrev pub mount : World → Bar
mount w = record {
  world = w;
  audio = record {
    source = none;
    is_playing = false;
    current_time = pos 0;
    volume = w.player.volume;
  };
  hls = none;
  seeking = false;
  load_request_id = 0;
  prev_volume = w.player.volume;
  loads = [];
  parsing = [];
}

-- The effect on `currentTrack`, up to the `await`.
unfoldable pub load_track : Option Track → Bar → Bar
load_track none s = s
load_track (some track) s = record s {
  load_request_id = s.load_request_id + 1;
  hls = none;
  audio = record s.audio { is_playing = false; source = none; current_time = pos 0 };
  world = set_duration (pos 0) (set_current_time (pos 0) s.world);
  loads = record { request_id = s.load_request_id + 1; track_id = track.id } ∷ s.loads;
}

unfoldable pub track_effect : Bar → Bar
track_effect s = load_track s.world.player.current_track s

unfoldable pub attach : Support → Load → Option String → Bar → Bar
attach support load none s = s
attach hls_js load (some url) s =
    let source : Source = record { load = load; manifest_url = url } in
    record s {
      hls = some source;
      audio = record s.audio { source = some source };
      parsing = load ∷ s.parsing;
    }
attach native load (some url) s = record s {
  audio = record s.audio {
    source = some (record { load = load; manifest_url = url });
    is_playing = true;
  };
}
attach unsupported load (some url) s = s

-- `loadTrack` after its `await`; `none` is an exception. `rest` are the other requests.
unfoldable pub finish_load : Support → Load → Option String → List Load → Bar → Bar
finish_load support load result rest s =
    if load.request_id == s.load_request_id
    then attach support load result (record s { loads = rest })
    else record s { loads = rest }

-- `MANIFEST_PARSED`
unfoldable pub manifest_parsed : Load → List Load → Bar → Bar
manifest_parsed load rest s =
    if load.request_id == s.load_request_id
    then record s { parsing = rest; audio = record s.audio { is_playing = true } }
    else record s { parsing = rest }

-- The effects on `isPlaying` and on `volume`.
unfoldable pub playing_effect : Bar → Bar
playing_effect s = record s { audio = record s.audio { is_playing = s.world.player.is_playing } }

unfoldable pub volume_effect : Bar → Bar
volume_effect s = record s { audio = record s.audio { volume = s.world.player.volume } }

unfoldable pub on_time_update : ℤ → Bar → Bar
on_time_update time s =
    let moved = record s { audio = record s.audio { current_time = time } } in
    if s.seeking then moved else record moved { world = set_current_time time s.world }

-- `audio.duration || 0`; `none` is NaN.
unfoldable pub on_duration_change : Option ℤ → Bar → Bar
on_duration_change none s = record s { world = set_duration (pos 0) s.world }
on_duration_change (some d) s = record s { world = set_duration d s.world }

unfoldable pub handle_seek_start : Bar → Bar
handle_seek_start s = record s { seeking = true }

unfoldable pub handle_seek : ℤ → Bar → Bar
handle_seek time s = record s {
  world = seek time s.world;
  audio = record s.audio { current_time = time };
  seeking = false;
}

-- The track starts again, and plays unless it was paused.
unfoldable pub rewind : Bar → Bar
rewind s = record s {
  world = set_current_time (pos 0) s.world;
  audio = record s.audio {
    current_time = pos 0;
    is_playing = if s.world.player.is_playing then true else s.audio.is_playing;
  };
}

abbrev is_zero : ℤ → Bool
is_zero (pos n) = n == 0
is_zero _ = false

unfoldable pub toggle_mute : Bar → Bar
toggle_mute s =
    if ltb_ℤ (pos 0) s.world.player.volume
    then record s { prev_volume = s.world.player.volume; world = set_volume (pos 0) s.world }
    else record s {
      world = set_volume (if is_zero s.prev_volume then pos 800 else s.prev_volume) s.world;
    }

-- `onEnded`, with the number that `next` may draw.
module _ (browser : Platform) where
  unfoldable pub ended_in : RepeatMode → ℕ → Bar → Bar
  ended_in one random s = rewind s
  ended_in off random s = record s { world = next browser random s.world }
  ended_in all random s = record s { world = next browser random s.world }

  unfoldable pub on_ended : ℕ → Bar → Bar
  on_ended random s = ended_in s.world.player.repeat random s
