-- ===== src/Player/Reload.antt =====
-- A reload of the page: what `loadRecentlyPlayed` finds is the history that the store held.
use mc_service.Prelude.{
  ℕ, ◌⊎◌, inl, inr, ◌≡◌, ◌≢◌, refl, Option, none, some, List, [], ◌∷◌, true, arith, All, eq_iff,
  map,
}
use text.Mathlib.TextPositions.{eq_refl}
use mc_service.Json.{str, member, of_list}
use mc_service.Platform.{Platform, Storage}
use mc_service.Platform.Laws.{get_item-set_item}
use mc_service.Player.State.{Track, World}
use mc_service.Player.History.{
  recently_played_key, keep_tracks, entry_json, history_json, load_recently_played,
  persist_recently_played, push_recently_played,
}
use mc_service.Player.Transport as T
use mc_service.Player.Transport.{start, next_index}
use mc_service.Player.Actions as A
use mc_service.Player.Actions.{Action, perform}

-- A track's members hold its `id` and `title`.
abbrev pub IsWhole : Option Track → Type 0
IsWhole none = ⊥
IsWhole (some t) =
    (member "id" t.members ≡ some (str t.id)) × (member "title" t.members ≡ some (str t.title))

-- The browser keeps the text of the history: there is a window, the write fits, and the codec reads
-- back what it wrote.
pub record Saves (browser : Platform) (storage : Storage) (history : List (Option Track))
    : Type 0 where
  pub window : browser.has_window ≡ true
  pub fits :
      browser.accepts storage recently_played_key (browser.stringify (history_json history)) ≡ true
  pub text : browser.stringify (history_json history) ≢ ""
  pub read : browser.parse (browser.stringify (history_json history)) ≡ some (history_json history)

keep_tracks-entries :
    (history : List (Option Track))
    → All IsWhole history
    → keep_tracks (of_list (map entry_json history)) ≡ history
unfolding keep_tracks
keep_tracks-entries [] h = refl
keep_tracks-entries (none ∷ history) (h, hs) = absurd h
keep_tracks-entries (some t ∷ history) (h, hs) = ground (arith, keep_tracks-entries history hs)

module _ (browser : Platform) where
  -- What a reload of the page finds.
  abbrev pub IsSynced : World → Type 0
  IsSynced w = load_recently_played browser w.storage ≡ w.player.recently_played

  load-persist :
      (history : List (Option Track)) (storage : Storage)
      → Saves browser storage history
      → All IsWhole history
      → load_recently_played browser (persist_recently_played browser history storage) ≡ history
  unfolding load_recently_played persist_recently_played
  load-persist history storage s h = ground (
    arith,
    eq_iff (browser.stringify (history_json history)) "",
    get_item-set_item recently_played_key recently_played_key
        (browser.stringify (history_json history)) storage,
    eq_refl recently_played_key,
    keep_tracks-entries history h,
  )

  -- What an action does to the history and to the storage: nothing, or both change together.
  abbrev IsWrite : World → World → Type 0
  IsWrite w w' =
      ((w'.storage ≡ w.storage) × (w'.player.recently_played ≡ w.player.recently_played))
      ⊎ (w'.storage ≡ persist_recently_played browser w'.player.recently_played w.storage)

  start-IsWrite : (track : Option Track) (w : World) → IsWrite w (start browser track w)
  unfolding start push_recently_played
  start-IsWrite track w = inr refl

  next-IsWrite : (draw : ℕ) (w : World) → IsWrite w (T.next browser draw w)
  unfolding T.next T.jump start push_recently_played
  next-IsWrite draw w = ground arith

  previous-IsWrite : (w : World) → IsWrite w (T.previous browser w)
  unfolding T.previous T.jump start push_recently_played
  previous-IsWrite w = ground arith

  perform-IsWrite : (a : Action) (w : World) → IsWrite w (perform browser a w)
  unfolding perform T.play T.play_album T.clear_recently_played T.pause T.resume T.toggle_play
      T.set_volume T.seek T.set_current_time T.set_duration T.add_to_queue T.clear_queue
      T.toggle_shuffle T.toggle_repeat start push_recently_played
  perform-IsWrite (A.next draw) w = next-IsWrite draw w
  perform-IsWrite A.previous w = previous-IsWrite w
  perform-IsWrite (A.play t none) w = inr refl
  perform-IsWrite (A.play t (some q)) w = inr refl
  perform-IsWrite (A.play_album [] i) w = inl (refl, refl)
  perform-IsWrite (A.play_album (t ∷ ts) i) w = inr refl
  perform-IsWrite A.clear_recently_played w = inr refl
  perform-IsWrite A.toggle_play w = ground arith
  perform-IsWrite _ w = inl (refl, refl)

  -- If a reload would have found the history before an action, it finds the history after it: where
  -- the browser saves the new history, and the tracks in it hold their `id` and `title`.
  pub perform-IsSynced :
      (a : Action) (w : World)
      → IsSynced w
      → Saves browser w.storage (perform browser a w).player.recently_played
      → All IsWhole (perform browser a w).player.recently_played
      → IsSynced (perform browser a w)
  perform-IsSynced a w synced s h = elim (perform-IsWrite a w) [
    | inl (storage, history) ↦ rw (storage, history) synced
    | inr write ↦ rw write (load-persist (perform browser a w).player.recently_played w.storage s h)
  ]
