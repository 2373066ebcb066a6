-- ===== src/Notifications.antt =====
-- modules/notifications: NotificationsService, the two listeners, the processor of the queue's jobs
-- and the in-app channel.
pub mod Mapping
pub mod Recipients
pub mod Queueing
mod Tests
use task_scheduling_platform.Base.{
  ℕ, suc, Bool, true, false, not, ◌&&◌, Option, none, some, List, [], ◌∷◌, ◌++◌, ◌==◌,
  if◌then◌else◌, or_else, find, find_one, length, save_row, update_where,
}
use task_scheduling_platform.Http.{not_found}
use task_scheduling_platform.World.{
  Uuid, Instant, Stamp, CreateNotificationInput, Notification, Event, Job, World,
}
use task_scheduling_platform.World.Events.{notification_created, deliver, send_reminder}
use task_scheduling_platform.Exec.{Exec, ◌>>=◌, ◌>>◌, pure, gets, modify, or_throw, lift, emit}
use task_scheduling_platform.Pagination.{Page, list_page}
use task_scheduling_platform.Pagination.Cursor.{Text, Codec}
use Mapping.{map_event, notification_job_id}

pub record ListNotificationsQueryDto : Type 0 where
  pub limit : Option ℕ
  pub cursor : Option Text
  pub unread : Bool

abbrev pub new_notification : Stamp → CreateNotificationInput → Notification
new_notification stamp i = record {
  id = stamp.id;
  recipient_id = i.recipient_id;
  type = i.type;
  title = i.title;
  body = i.body;
  entity_type = i.entity_type;
  entity_id = i.entity_id;
  workspace_id = i.workspace_id;
  is_read = false;
  read_at = none;
  created_at = stamp.at;
}

unfoldable pub create : Stamp → CreateNotificationInput → Exec Notification
create stamp i = do
  let notification = new_notification stamp i
  modify (λ w. record w { notifications = w.notifications ++ notification ∷ [] })
  emit (notification_created notification)
  pure notification

-- the `where` clauses of `list`
abbrev pub listed : Uuid → Bool → Notification → Bool
listed user_id true n = n.recipient_id == user_id && not n.is_read
listed user_id false n = n.recipient_id == user_id

unfoldable pub list : Codec → Uuid → ListNotificationsQueryDto → Exec (Page Notification)
list codec user_id query = do
  page ← gets (λ w.
      list_page codec (λ n. n.created_at) (λ n. n.id) (listed user_id query.unread)
        (or_else query.limit 20) query.cursor w.notifications)
  lift page

-- `{ recipientId: userId, isRead: false }`
abbrev pub is_unread : Uuid → Notification → Bool
is_unread user_id n = n.recipient_id == user_id && not n.is_read

unfoldable pub unread_count : Uuid → Exec ℕ
unread_count user_id = gets (λ w. length (find (is_unread user_id) w.notifications))

abbrev pub owned : Uuid → Uuid → Notification → Bool
owned user_id id n = n.id == id && n.recipient_id == user_id

abbrev pub marked : Instant → Notification → Notification
marked now n = record n { is_read = true; read_at = some now }

unfoldable pub mark_read : Instant → Uuid → Uuid → Exec Notification
mark_read now user_id id = do
  found ← gets (λ w. find_one (owned user_id id) w.notifications)
  notification ← or_throw (not_found "Notification not found") found
  if notification.is_read then pure notification else do
    modify (λ w. record w {
      notifications = save_row (λ n. n.id) (marked now notification) w.notifications;
    })
    pure (marked now notification)

unfoldable pub mark_all_read : Instant → Uuid → Exec ℕ
mark_all_read now user_id = do
  affected ← gets (λ w. length (find (is_unread user_id) w.notifications))
  modify (λ w. record w {
    notifications = update_where (is_unread user_id) (marked now) w.notifications;
  })
  pure affected

-- NotificationListener, the in-process path: the notification is created at once.
abbrev deliver_input : Stamp → Option CreateNotificationInput → Exec (Unit {0})
deliver_input stamp none = pure tt
deliver_input stamp (some i) = do create stamp i; pure tt

unfoldable pub on_event : Stamp → Event → Exec (Unit {0})
unfolding create map_event
on_event stamp e = deliver_input stamp (map_event e)

-- NotificationQueueListener: the notification becomes a job. `add` is the queue's `add`.
abbrev enqueue : (Job → List Job → List Job) → Option CreateNotificationInput → Exec (Unit {0})
enqueue add none = pure tt
enqueue add (some i) =
    modify (λ w. record w { jobs = add (deliver (notification_job_id i) i) w.jobs })

unfoldable pub on_event_queued : (Job → List Job → List Job) → Event → Exec (Unit {0})
unfolding map_event notification_job_id
on_event_queued add e = enqueue add (map_event e)

-- NotificationProcessor with the one channel that is registered, InAppChannel.
unfoldable pub process : Stamp → Job → Exec (Unit {0})
unfolding create
process stamp (deliver job_id i) = do create stamp i; pure tt
process stamp (send_reminder reminder_id) = pure tt
