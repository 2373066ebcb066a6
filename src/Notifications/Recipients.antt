-- ===== src/Notifications/Recipients.antt =====
-- modules/notifications: who is told of an event, and how many notifications are unread.
use task_scheduling_platform.Base.{◌≡◌, ◌≢◌, refl, ap, some, arith, length, find-update_where}
use task_scheduling_platform.Http.{ok}
use task_scheduling_platform.World.{Uuid, Instant, CreateNotificationInput, Event, World}
use task_scheduling_platform.World.Events.{
  task_created, task_assigned, task_status_changed, task_completed, comment_created,
  comment_replied, notification_created,
}
use task_scheduling_platform.Notifications.{is_unread, marked, unread_count, mark_all_read}
use task_scheduling_platform.Notifications.Mapping.{
  map_task_assigned, map_task_completed, map_comment_created, map_comment_replied, map_event,
  actor_of,
}

-- Nobody is notified of what they did themselves.
pub map_event-recipient_id :
    (e : Event) (i : CreateNotificationInput)
    → map_event e ≡ some i
    → actor_of e ≢ some i.recipient_id
unfolding map_event map_task_assigned map_task_completed map_comment_created map_comment_replied
map_event-recipient_id (task_created e) i h = cc
map_event-recipient_id (task_assigned e) i h = ground arith
map_event-recipient_id (task_status_changed e) i h = cc
map_event-recipient_id (task_completed e) i h = ground arith
map_event-recipient_id (comment_created e) i h = ground arith
map_event-recipient_id (comment_replied e) i h = ground arith
map_event-recipient_id (notification_created n) i h = cc

-- Marking everything read returns how many notifications were unread, and leaves none unread.
pub mark_all_read-unread_count :
    (now : Instant) (user_id : Uuid) (w : World)
    → ((mark_all_read now user_id w).0 ≡ (unread_count user_id w).0)
      × ((unread_count user_id (mark_all_read now user_id w).1).0 ≡ ok 0)
unfolding mark_all_read unread_count
mark_all_read-unread_count now user_id w = (
  refl,
  ap (λ ns. ok (length ns))
      (find-update_where (is_unread user_id) (marked now) w.notifications (λ a. ground arith)),
)
