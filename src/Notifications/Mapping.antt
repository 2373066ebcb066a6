-- ===== src/Notifications/Mapping.antt =====
-- modules/notifications/notification-mapping.ts and notification.constants.ts
use task_scheduling_platform.Base.{◌≡◌, ◌≢◌, arith, String, Option, none, some, ◌==◌, if◌then◌else◌}
use task_scheduling_platform.World.{Uuid, CreateNotificationInput}
use task_scheduling_platform.World.Delivery.{
  NotificationType, task_assigned, task_completed, comment_added, comment_reply,
}
use task_scheduling_platform.World.Events.{
  TaskAssignedEvent, TaskCompletedEvent, CommentCreatedEvent, CommentRepliedEvent, Event, JobId,
  comment_created,
}

-- `if (!recipient || recipient === actor) return null;` and the notification otherwise
abbrev unless_self :
    Option Uuid → Uuid → (Uuid → CreateNotificationInput) → Option CreateNotificationInput
unless_self none actor make = none
unless_self (some recipient) actor make = if recipient == actor then none else some (make recipient)

abbrev input : NotificationType → String → String → Uuid → Uuid → CreateNotificationInput
input type title entity_type entity_id recipient = record {
  recipient_id = recipient;
  type = type;
  title = title;
  body = none;
  entity_type = some entity_type;
  entity_id = some entity_id;
  workspace_id = none;
}

unfoldable pub map_task_assigned : TaskAssignedEvent → Option CreateNotificationInput
map_task_assigned e =
    unless_self (some e.assignee_id) e.actor_id
      (input task_assigned "You were assigned a task" "task" e.task_id)

unfoldable pub map_task_completed : TaskCompletedEvent → Option CreateNotificationInput
map_task_completed e =
    unless_self e.creator_id e.actor_id
      (input task_completed "A task you created was completed" "task" e.task_id)

unfoldable pub map_comment_created : CommentCreatedEvent → Option CreateNotificationInput
map_comment_created e =
    unless_self e.task_assignee_id e.author_id
      (input comment_added "New comment on your task" "task" e.task_id)

unfoldable pub map_comment_replied : CommentRepliedEvent → Option CreateNotificationInput
map_comment_replied e =
    unless_self (some e.parent_author_id) e.author_id
      (input comment_reply "Someone replied to your comment" "comment" e.comment_id)

-- The handlers that the listeners register with `@OnEvent`.
unfoldable pub map_event : Event → Option CreateNotificationInput
unfolding map_task_assigned map_task_completed map_comment_created map_comment_replied
map_event (Event.task_created e) = none
map_event (Event.task_assigned e) = map_task_assigned e
map_event (Event.task_status_changed e) = none
map_event (Event.task_completed e) = map_task_completed e
map_event (Event.comment_created e) = map_comment_created e
map_event (Event.comment_replied e) = map_comment_replied e
map_event (Event.notification_created n) = none

unfoldable pub notification_job_id : CreateNotificationInput → JobId
notification_job_id i = record {
  recipient_id = i.recipient_id;
  type = i.type;
  entity_id = i.entity_id;
}

-- The user whose action the event reports.
abbrev pub actor_of : Event → Option Uuid
actor_of (Event.task_created e) = some e.actor_id
actor_of (Event.task_assigned e) = some e.actor_id
actor_of (Event.task_status_changed e) = some e.actor_id
actor_of (Event.task_completed e) = some e.actor_id
actor_of (Event.comment_created e) = some e.author_id
actor_of (Event.comment_replied e) = some e.author_id
actor_of (Event.notification_created n) = none

-- The notification for a comment, where there is one.
unfoldable pub comment_input : Uuid → Uuid → CreateNotificationInput
comment_input task_id assignee =
    input comment_added "New comment on your task" "task" task_id assignee

pub map_comment_created-other :
    (e : CommentCreatedEvent) (assignee : Uuid)
    → e.task_assignee_id ≡ some assignee
    → assignee ≢ e.author_id
    → map_event (comment_created e) ≡ some (comment_input e.task_id assignee)
unfolding map_event map_comment_created comment_input
map_comment_created-other e assignee told other = ground arith
