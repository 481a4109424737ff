-- ===== src/QuickAdd/Reach.antt =====
-- Clicks and ends of saves in any order.
use mc_service.Prelude.{
  ◌<◌, String, ◌≡◌, ◌≢◌, refl, inl, inr, Option, none, some, List, [], ◌∷◌, ◌++◌, false, ◌||◌,
  arith, map, All, IsDistinct, eq_iff, str_eq, Bool-cases, sym, ap, subst,
}
use mc_service.Library.Defs.{SaveToLibraryResult}
use mc_service.Notifications.{NotificationState, clear_notification, show_notification}
use mc_service.QuickAdd.Defs.{QuickTrack, HookState, initial, has, delete, begin_add, finish_add}

-- A click on a track, the end of one of the running saves, or the timer that takes the notification
-- away.
pub data Step : HookState → HookState → Type 0 where
  click : (track : QuickTrack) (s : HookState) → Step s (begin_add track s)
  settle :
      (before : List QuickTrack) (track : QuickTrack) (after : List QuickTrack)
      (result : Option SaveToLibraryResult) (s : HookState)
      → s.saving ≡ before ++ (track ∷ after)
      → Step s (finish_add track result (before ++ after) s)
  expire : (s : HookState) → Step s (record s { notice = clear_notification s.notice })

pub data Reach : HookState → Type 0 where
  start : Reach initial
  next : {s t : HookState} → Reach s → Step s t → Reach t

abbrev ids : List QuickTrack → List String
ids = map (λ t. t.id)

-- The notification on show carries an id that was given out before.
abbrev pub IsIssued : NotificationState → Type 0
IsIssued n = elim n.active_notification [ none ↦ Unit {0} | some a ↦ a.id < n.next_notification_id ]

pub record IsConsistent (s : HookState) : Type 0 where
  pub running : s.pending_ref ≡ map (λ t. t.id) s.saving
  pub shown : s.pending_track_ids ≡ s.pending_ref
  pub distinct : IsDistinct (map (λ t. t.id) s.saving)
  pub issued : IsIssued s.notice

not-has : (id : String) (xs : List String) → has id xs ≡ false → All (λ y. y ≢ id) xs
unfolding has
not-has id [] h = tt
not-has id (x ∷ xs) h = ((λ e. ground (arith, eq_iff x id)), not-has id xs (ground arith))

apart :
    (b track : QuickTrack) (before after : List QuickTrack)
    → All (λ y. y ≢ b.id) (ids (before ++ (track ∷ after)))
    → b.id ≢ track.id
apart b track [] after h = λ e. h.0 (sym e)
apart b track (c ∷ before) after h = apart b track before after h.1

delete-ids :
    (before : List QuickTrack) (track : QuickTrack) (after : List QuickTrack)
    → IsDistinct (ids (before ++ (track ∷ after)))
    → delete track.id (ids (before ++ (track ∷ after))) ≡ ids (before ++ after)
unfolding delete
delete-ids [] track after h = rw ((eq_iff track.id track.id).1 refl)
delete-ids (b ∷ before) track after h =
    ground (
      arith,
      delete-ids before track after h.1,
      eq_iff b.id track.id,
      apart b track before after h.0,
    )

All-apart :
    (P : String → Type 0) (before : List QuickTrack) (track : QuickTrack) (after : List QuickTrack)
    → All P (ids (before ++ (track ∷ after)))
    → All P (ids (before ++ after))
All-apart P [] track after h = h.1
All-apart P (b ∷ before) track after h = (h.0, All-apart P before track after h.1)

IsDistinct-apart :
    (before : List QuickTrack) (track : QuickTrack) (after : List QuickTrack)
    → IsDistinct (ids (before ++ (track ∷ after)))
    → IsDistinct (ids (before ++ after))
IsDistinct-apart [] track after h = h.1
IsDistinct-apart (b ∷ before) track after h =
    (All-apart (λ y. y ≢ b.id) before track after h.0, IsDistinct-apart before track after h.1)

started-IsConsistent :
    (track : QuickTrack) (s : HookState)
    → has track.id s.pending_ref ≡ false
    → IsConsistent s
    → IsConsistent (record s {
      pending_ref = track.id ∷ s.pending_ref;
      pending_track_ids = track.id ∷ s.pending_ref;
      saving = track ∷ s.saving;
    })
started-IsConsistent track s absent c = record {
  running = ap (◌∷◌ track.id) c.running;
  shown = refl;
  distinct = (
    subst (All (λ y. y ≢ track.id)) c.running (not-has track.id s.pending_ref absent),
    c.distinct,
  );
  issued = c.issued;
}

begin-IsConsistent :
    (track : QuickTrack) (s : HookState) → IsConsistent s → IsConsistent (begin_add track s)
unfolding begin_add
begin-IsConsistent track s c =
    elim (Bool-cases (str_eq track.id "" || has track.id s.pending_ref)) [
      | inl refused ↦ rw refused c
      | inr taken ↦ rw taken (started-IsConsistent track s (ground arith) c)
    ]

settle-IsConsistent :
    (before : List QuickTrack) (track : QuickTrack) (after : List QuickTrack)
    (result : Option SaveToLibraryResult) (s : HookState)
    → s.saving ≡ before ++ (track ∷ after)
    → IsConsistent s
    → IsConsistent (finish_add track result (before ++ after) s)
unfolding finish_add show_notification
settle-IsConsistent before track after result s at c = record {
  running = deleted;
  shown = refl;
  distinct = IsDistinct-apart before track after apart_ids;
  issued = omega arith;
}
  where
    apart_ids : IsDistinct (ids (before ++ (track ∷ after)))
    apart_ids = subst (λ l. IsDistinct (ids l)) at c.distinct

    deleted : delete track.id s.pending_ref ≡ ids (before ++ after)
    deleted = rw (c.running, at) (delete-ids before track after apart_ids)

Step-IsConsistent : {s t : HookState} → Step s t → IsConsistent s → IsConsistent t
unfolding clear_notification
Step-IsConsistent (click track s) c = begin-IsConsistent track s c
Step-IsConsistent (settle before track after result s at) c =
    settle-IsConsistent before track after result s at c
Step-IsConsistent (expire s) c = record {
  running = c.running;
  shown = c.shown;
  distinct = c.distinct;
  issued = tt;
}

-- In every state that clicks, ends of saves and the timer lead to, in any order, the tracks marked
-- as pending, on the screen and in the ref, are those whose saves run, no two saves run for one
-- track, and a notification on show has an id below the next one.
pub Reach-IsConsistent : {s : HookState} → Reach s → IsConsistent s
Reach-IsConsistent start = record { running = refl; shown = refl; distinct = tt; issued = tt }
Reach-IsConsistent (next r step) = Step-IsConsistent step (Reach-IsConsistent r)
