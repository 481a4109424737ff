-- ===== src/PlayerBar/Reach.antt =====
-- Events of the bar, of the store and of the network in any order.
use mc_service.Prelude.{
  ℕ, ◌≤◌, String, ◌≡◌, refl, Option, none, some, List, [], ◌∷◌, ◌++◌, ◌==◌, arith, All, All-mono,
  Bool-cases, inl, inr,
}
use mc_service.Prelude.Int.{ℤ, pos, ltb_ℤ}
use mc_service.Platform.{Platform}
use mc_service.Player.State.{Track, RepeatMode, off, all, one, World}
use mc_service.Player.Transport.{set_volume, seek, set_current_time, set_duration}
use mc_service.Player.Actions.{Action, perform}
use mc_service.PlayerBar.Defs.{
  Load, Source, Bar, Support, hls_js, native, unsupported, mount, load_track, track_effect, attach,
  finish_load, manifest_parsed, playing_effect, volume_effect, on_time_update, on_duration_change,
  handle_seek_start, handle_seek, toggle_mute, rewind, ended_in, on_ended,
}

abbrev pub track_of : Bar → Option Track
track_of s = s.world.player.current_track

module _ (browser : Platform) (support : Support) where
  abbrev acted : Action → Bar → Bar
  acted a s = record s { world = perform browser a s.world }

  -- An action of the store, or the end of a track, runs the effect on the track where it changed it.
  pub data Step : Bar → Bar → Type 0 where
    act : (a : Action) (s : Bar) → track_of (acted a s) ≡ track_of s → Step s (acted a s)
    change : (a : Action) (s : Bar) → Step s (track_effect (acted a s))
    end :
        (n : ℕ) (s : Bar)
        → track_of (on_ended browser n s) ≡ track_of s
        → Step s (on_ended browser n s)
    end_change : (n : ℕ) (s : Bar) → Step s (track_effect (on_ended browser n s))
    answer :
        (before : List Load) (load : Load) (after : List Load) (result : Option String) (s : Bar)
        → s.loads ≡ before ++ (load ∷ after)
        → Step s (finish_load support load result (before ++ after) s)
    parse :
        (before : List Load) (load : Load) (after : List Load) (s : Bar)
        → s.parsing ≡ before ++ (load ∷ after)
        → Step s (manifest_parsed load (before ++ after) s)
    play_or_pause : (s : Bar) → Step s (playing_effect s)
    loudness : (s : Bar) → Step s (volume_effect s)
    tick : (time : ℤ) (s : Bar) → Step s (on_time_update time s)
    measure : (d : Option ℤ) (s : Bar) → Step s (on_duration_change d s)
    seek_start : (s : Bar) → Step s (handle_seek_start s)
    seek_end : (time : ℤ) (s : Bar) → Step s (handle_seek time s)
    mute : (s : Bar) → Step s (toggle_mute s)

  pub data Reach (w : World) : Bar → Type 0 where
    start : Reach w (track_effect (mount w))
    next : {s t : Bar} → Reach w s → Step s t → Reach w t

-- A request is for the track, where there is one.
abbrev pub IsFor : Option Track → Load → Type 0
IsFor none load = Unit {0}
IsFor (some track) load = load.track_id ≡ track.id

-- The request is an old one, or for the track.
abbrev pub IsSettled : ℕ → Option Track → Load → Type 0
IsSettled n track load = (load.request_id ≤ n) × (load.request_id ≡ n → IsFor track load)

abbrev pub IsSourceFor : Option Track → Option Source → Type 0
IsSourceFor track none = Unit {0}
IsSourceFor track (some source) = IsFor track source.load

pub record IsCurrent (track : Option Track) (source : Option Source) (n : ℕ) (loads : List Load)
    : Type 0 where
  pub attached : IsSourceFor track source
  pub waiting : All (IsSettled n track) loads

abbrev pub Shows : Bar → Type 0
Shows s = IsCurrent (track_of s) s.audio.source s.load_request_id s.loads

All-without :
    (P : Load → Type 0) (before : List Load) (load : Load) (after : List Load)
    → All P (before ++ (load ∷ after))
    → P load × All P (before ++ after)
All-without P [] load after h = h
All-without P (b ∷ before) load after h =
    let rest = All-without P before load after h.1 in (rest.0, (h.0, rest.1))

IsSourceFor-none : (o : Option Source) → IsSourceFor none o
IsSourceFor-none none = tt
IsSourceFor-none (some source) = tt

abbrev AreIssued : ℕ → List Load → Type 0
AreIssued n = All (λ l. l.request_id ≤ n)

issued : (s : Bar) → Shows s → AreIssued s.load_request_id s.loads
issued s c = All-mono _ _ s.loads (λ l h. h.0) c.waiting

-- The effect on the track starts afresh, or leaves the bar alone where there is no track.
load_track-Shows :
    (o : Option Track) (s : Bar)
    → track_of s ≡ o
    → AreIssued s.load_request_id s.loads
    → Shows (load_track o s)
unfolding load_track set_duration set_current_time
load_track-Shows none s e h = rw e (record {
  attached = IsSourceFor-none s.audio.source;
  waiting = All-mono _ _ s.loads (λ l le. (le, λ _. tt)) h;
})
load_track-Shows (some track) s e h = rw e (record {
  attached = tt;
  waiting = (
    (omega arith, λ _. refl),
    All-mono _ _ s.loads (λ l le. (omega arith, λ same. absurd (omega (arith, same)))) h,
  );
})

track_effect-Shows : (s : Bar) → AreIssued s.load_request_id s.loads → Shows (track_effect s)
unfolding track_effect
track_effect-Shows s h = load_track-Shows (track_of s) s refl h

kept-Shows :
    (s t : Bar)
    → track_of t ≡ track_of s
    → t.audio.source ≡ s.audio.source
    → t.load_request_id ≡ s.load_request_id
    → t.loads ≡ s.loads
    → Shows s
    → Shows t
kept-Shows s t track source n loads c = rw (track, source, n, loads) c

attach-Shows :
    (support : Support) (load : Load) (result : Option String) (s : Bar)
    → IsFor (track_of s) load
    → Shows s
    → Shows (attach support load result s)
unfolding attach
attach-Shows support load none s f c = c
attach-Shows hls_js load (some url) s f c = record { attached = f; waiting = c.waiting }
attach-Shows native load (some url) s f c = record { attached = f; waiting = c.waiting }
attach-Shows unsupported load (some url) s f c = c

finish_load-Shows :
    (support : Support) (before : List Load) (load : Load) (after : List Load)
    (result : Option String) (s : Bar)
    → s.loads ≡ before ++ (load ∷ after)
    → Shows s
    → Shows (finish_load support load result (before ++ after) s)
unfolding finish_load
finish_load-Shows support before load after result s e c =
    let waiting =
      All-without (IsSettled s.load_request_id (track_of s)) before load after
        (rw e at c.waiting) in
    elim (Bool-cases (load.request_id == s.load_request_id)) [
      | inl newest ↦ rw newest (
          attach-Shows support load result (record s { loads = before ++ after })
            (waiting.0.1 (ground arith)) (record { attached = c.attached; waiting = waiting.1 }))
      | inr old ↦ rw old (record { attached = c.attached; waiting = waiting.1 })
    ]

manifest_parsed-Shows :
    (load : Load) (rest : List Load) (s : Bar) → Shows s → Shows (manifest_parsed load rest s)
unfolding manifest_parsed
manifest_parsed-Shows load rest s c = elim (Bool-cases (load.request_id == s.load_request_id)) [
  | inl newest ↦ rw newest (record { attached = c.attached; waiting = c.waiting })
  | inr old ↦ rw old (record { attached = c.attached; waiting = c.waiting })
]

-- What stays the same when a track ends, before the effect on the track.
ended_in_keeps :
    (browser : Platform) (mode : RepeatMode) (n : ℕ) (s : Bar)
    → ((ended_in browser mode n s).audio.source ≡ s.audio.source)
      × ((ended_in browser mode n s).load_request_id ≡ s.load_request_id)
      × ((ended_in browser mode n s).loads ≡ s.loads)
unfolding ended_in rewind
ended_in_keeps browser off n s = (refl, refl, refl)
ended_in_keeps browser all n s = (refl, refl, refl)
ended_in_keeps browser one n s = (refl, refl, refl)

tick-Shows : (time : ℤ) (s : Bar) → Shows s → Shows (on_time_update time s)
unfolding on_time_update set_current_time
tick-Shows time s c = elim (Bool-cases s.seeking) [
  | inl on ↦ rw on (record { attached = c.attached; waiting = c.waiting })
  | inr other ↦ rw other (record { attached = c.attached; waiting = c.waiting })
]

mute-Shows : (s : Bar) → Shows s → Shows (toggle_mute s)
unfolding toggle_mute set_volume
mute-Shows s c = elim (Bool-cases (ltb_ℤ (pos 0) s.world.player.volume)) [
  | inl on ↦ rw on (record { attached = c.attached; waiting = c.waiting })
  | inr other ↦ rw other (record { attached = c.attached; waiting = c.waiting })
]

measure-Shows : (d : Option ℤ) (s : Bar) → Shows s → Shows (on_duration_change d s)
unfolding on_duration_change set_duration
measure-Shows none s c = record { attached = c.attached; waiting = c.waiting }
measure-Shows (some d) s c = record { attached = c.attached; waiting = c.waiting }

module _ (browser : Platform) (support : Support) where
  Step-Shows : {s t : Bar} → Step browser support s t → Shows s → Shows t
  unfolding playing_effect volume_effect handle_seek_start handle_seek seek on_ended
  Step-Shows (act a s same) c = kept-Shows s (acted browser support a s) same refl refl refl c
  Step-Shows (change a s) c = track_effect-Shows _ (issued s c)
  Step-Shows (end n s same) c =
      let keeps = ended_in_keeps browser s.world.player.repeat n s in
      kept-Shows s (on_ended browser n s) same keeps.0 keeps.1 keeps.2 c
  Step-Shows (end_change n s) c =
      let keeps = ended_in_keeps browser s.world.player.repeat n s in
      track_effect-Shows _ (rw (keeps.1, keeps.2) (issued s c))
  Step-Shows (answer before load after result s e) c =
      finish_load-Shows support before load after result s e c
  Step-Shows (parse before load after s e) c = manifest_parsed-Shows load _ s c
  Step-Shows (play_or_pause s) c = record { attached = c.attached; waiting = c.waiting }
  Step-Shows (loudness s) c = record { attached = c.attached; waiting = c.waiting }
  Step-Shows (tick time s) c = tick-Shows time s c
  Step-Shows (measure d s) c = measure-Shows d s c
  Step-Shows (seek_start s) c = record { attached = c.attached; waiting = c.waiting }
  Step-Shows (seek_end time s) c = record { attached = c.attached; waiting = c.waiting }
  Step-Shows (mute s) c = mute-Shows s c

  -- However the answers of the server, the controls and the ends of tracks interleave, the stream
  -- attached to the audio element is for the current track, where there is one, and every request
  -- without an answer is for the current track or has an older number than the newest.
  pub Reach-Shows : (w : World) {s : Bar} → Reach browser support w s → Shows s
  Reach-Shows w start = track_effect-Shows (mount w) tt
  Reach-Shows w (next r step) = Step-Shows step (Reach-Shows w r)
