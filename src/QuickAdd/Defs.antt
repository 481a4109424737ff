-- ===== src/QuickAdd/Defs.antt =====
-- The hook: the first half of `quickAddToLibrary`, up to the `await`, and the second half.
use mc_service.Prelude.{
  String, Option, none, some, List, [], ◌∷◌, Bool, false, ◌||◌, if◌then◌else◌, str_eq,
}
use Prim.Native.String
use mc_service.Library.Defs.{SaveToLibraryResult, added, already_saved}
use mc_service.Notifications.{
  NotificationTone, success, error, NotificationState, no_notification, show_notification,
}

pub record QuickTrack : Type 0 where
  pub id : String
  pub title : String

-- `saving` are the tracks whose `saveTrackToLibrary` has not ended.
pub record HookState : Type 0 where
  pub pending_ref : List String
  pub pending_track_ids : List String
  pub saving : List QuickTrack
  pub notice : NotificationState

abbrev pub initial : HookState
initial = record { pending_ref = []; pending_track_ids = []; saving = []; notice = no_notification }

-- `set.has(id)`
unfoldable pub has : String → List String → Bool
has id [] = false
has id (x ∷ xs) = str_eq x id || has id xs

-- `set.delete(id)`; the members of a set are distinct.
unfoldable pub delete : String → List String → List String
delete id [] = []
delete id (x ∷ xs) = if str_eq x id then xs else x ∷ delete id xs

unfoldable pub begin_add : QuickTrack → HookState → HookState
unfolding has
begin_add track s = if str_eq track.id "" || has track.id s.pending_ref then s else record s {
  pending_ref = track.id ∷ s.pending_ref;
  pending_track_ids = track.id ∷ s.pending_ref;
  saving = track ∷ s.saving;
}

-- How `saveTrackToLibrary` ended; `none` is an exception.
abbrev pub message_of : QuickTrack → Option SaveToLibraryResult → String
message_of track (some already_saved) =
    String.◌++◌ "\"" (String.◌++◌ track.title "\" is already in your Library.")
message_of track (some added) =
    String.◌++◌ "Added \"" (String.◌++◌ track.title "\" to your Library.")
message_of track none =
    String.◌++◌ "Couldn't add \"" (String.◌++◌ track.title "\" to your Library.")

abbrev pub tone_of : Option SaveToLibraryResult → NotificationTone
tone_of none = error
tone_of (some _) = success

-- `rest` are the saves that still run.
unfoldable pub finish_add :
    QuickTrack → Option SaveToLibraryResult → List QuickTrack → HookState → HookState
unfolding delete show_notification
finish_add track result rest s = record {
  pending_ref = delete track.id s.pending_ref;
  pending_track_ids = delete track.id s.pending_ref;
  saving = rest;
  notice = show_notification (message_of track result) (tone_of result) s.notice;
}
