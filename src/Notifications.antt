-- ===== src/Notifications.antt =====
-- web/apps/player/src/stores/notifications.ts: the one notification that is shown.
use mc_service.Prelude.{ℕ, ◌+◌, String, Option, none, some}

pub data NotificationTone : Type 0 where
  success error : NotificationTone

pub record AppNotification : Type 0 where
  pub id : ℕ
  pub message : String
  pub tone : NotificationTone

-- The store, and the module's counter `nextNotificationId`.
pub record NotificationState : Type 0 where
  pub active_notification : Option AppNotification
  pub next_notification_id : ℕ

abbrev pub no_notification : NotificationState
no_notification = record { active_notification = none; next_notification_id = 1 }

unfoldable pub show_notification : String → NotificationTone → NotificationState → NotificationState
show_notification message tone s = record {
  active_notification =
      some (record { id = s.next_notification_id; message = message; tone = tone });
  next_notification_id = s.next_notification_id + 1;
}

unfoldable pub clear_notification : NotificationState → NotificationState
clear_notification s = record s { active_notification = none }
