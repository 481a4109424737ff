-- ===== src/Tests/QuickAdd.antt =====
-- A save that is refused a second click, and ends while another one runs.
use mc_service.Prelude.{◌≡◌, refl, some, [], ◌∷◌}
use mc_service.Library.Defs.{added}
use mc_service.QuickAdd.Defs.{QuickTrack, HookState, initial, begin_add, finish_add, has, delete}
use mc_service.QuickAdd.Reach.{start, next, click, settle, IsConsistent, Reach-IsConsistent}

abbrev first : QuickTrack
first = record { id = "a"; title = "A" }

abbrev second : QuickTrack
second = record { id = "b"; title = "B" }

abbrev clicked : HookState
clicked = begin_add first (begin_add second (begin_add first initial))

-- The second click on the first track starts no save.
refused : clicked.saving ≡ second ∷ first ∷ []
unfolding begin_add has
refused = refl

abbrev ended : HookState
ended = finish_add second (some added) (first ∷ []) clicked

still_pending : ended.pending_track_ids ≡ "a" ∷ []
unfolding begin_add has finish_add delete
still_pending = refl

Reach-IsConsistent_example : IsConsistent ended
Reach-IsConsistent_example = Reach-IsConsistent (
    next
      (next (next (next start (click first initial)) (click second (begin_add first initial)))
        (click first (begin_add second (begin_add first initial))))
      (settle [] second (first ∷ []) (some added) clicked refused))
