-- ===== src/World/Events.antt =====
-- The domain events (modules/tasks/events, modules/comments/events) and the queue's jobs.
use task_scheduling_platform.Base.{Option}
use task_scheduling_platform.World.Accounts.{Uuid}
use task_scheduling_platform.World.Work.{TaskStatus}
use task_scheduling_platform.World.Delivery.{
  NotificationType, CreateNotificationInput, Notification,
}

pub record TaskCreatedEvent : Type 0 where
  pub task_id : Uuid
  pub project_id : Uuid
  pub actor_id : Uuid

pub record TaskAssignedEvent : Type 0 where
  pub task_id : Uuid
  pub assignee_id : Uuid
  pub actor_id : Uuid

pub record TaskStatusChangedEvent : Type 0 where
  pub task_id : Uuid
  pub from : TaskStatus
  pub to : TaskStatus
  pub actor_id : Uuid

pub record TaskCompletedEvent : Type 0 where
  pub task_id : Uuid
  pub actor_id : Uuid
  pub creator_id : Option Uuid

pub record CommentCreatedEvent : Type 0 where
  pub comment_id : Uuid
  pub task_id : Uuid
  pub author_id : Uuid
  pub parent_comment_id : Option Uuid
  pub task_assignee_id : Option Uuid

pub record CommentRepliedEvent : Type 0 where
  pub comment_id : Uuid
  pub task_id : Uuid
  pub parent_comment_id : Uuid
  pub parent_author_id : Uuid
  pub author_id : Uuid

-- An event's name and its payload, as `EventEmitter2.emit` takes them.
pub data Event : Type 0 where
  task_created : TaskCreatedEvent → Event
  task_assigned : TaskAssignedEvent → Event
  task_status_changed : TaskStatusChangedEvent → Event
  task_completed : TaskCompletedEvent → Event
  comment_created : CommentCreatedEvent → Event
  comment_replied : CommentRepliedEvent → Event
  notification_created : Notification → Event

-- The fields that `notificationJobId` joins: `notif_<recipient>_<type>_<entity or "none">`.
pub record JobId : Type 0 where
  pub recipient_id : Uuid
  pub type : NotificationType
  pub entity_id : Option Uuid

pub data Job : Type 0 where
  deliver : JobId → CreateNotificationInput → Job
  send_reminder : (reminder_id : Uuid) → Job
