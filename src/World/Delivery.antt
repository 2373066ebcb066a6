-- ===== src/World/Delivery.antt =====
-- Rows of `task_activity`, `notifications` and `reminders`, the domain events, and the queue jobs
-- (modules/activity, modules/notifications, modules/reminders, modules/*/events).
use task_scheduling_platform.Base.{ℕ, String, Bool, Option}
use task_scheduling_platform.World.Accounts.{Uuid, Instant, Micros}
use task_scheduling_platform.World.Work.{TaskStatus}

pub data ActivityAction : Type 0 where
  created assigned unassigned status_changed completed commented replied : ActivityAction

-- The shapes of the `metadata` object that the listener writes.
pub data Metadata : Type 0 where
  empty : Metadata
  project : Uuid → Metadata
  assignee : Uuid → Metadata
  from_to : (from to : TaskStatus) → Metadata
  comment : (comment_id : Uuid) → Metadata
  reply : (comment_id parent_comment_id : Uuid) → Metadata

pub record TaskActivity : Type 0 where
  pub id : Uuid
  pub task_id : Uuid
  pub actor_id : Option Uuid
  pub action : ActivityAction
  pub metadata : Metadata
  pub created_at : Micros

pub data NotificationType : Type 0 where
  task_assigned task_due_soon task_overdue task_completed : NotificationType
  comment_added comment_reply workspace_invite : NotificationType

pub record CreateNotificationInput : Type 0 where
  pub recipient_id : Uuid
  pub type : NotificationType
  pub title : String
  pub body : Option String
  pub entity_type : Option String
  pub entity_id : Option Uuid
  pub workspace_id : Option Uuid

pub record Notification : Type 0 where
  pub id : Uuid
  pub recipient_id : Uuid
  pub type : NotificationType
  pub title : String
  pub body : Option String
  pub entity_type : Option String
  pub entity_id : Option Uuid
  pub workspace_id : Option Uuid
  pub is_read : Bool
  pub read_at : Option Instant
  pub created_at : Micros

pub data ReminderType : Type 0 where
  due_soon overdue : ReminderType

pub data ReminderStatus : Type 0 where
  pending sent failed : ReminderStatus

pub record Reminder : Type 0 where
  pub id : Uuid
  pub task_id : Uuid
  pub type : ReminderType
  pub scheduled_for : Instant
  pub status : ReminderStatus
  pub attempts : ℕ
  pub sent_at : Option Instant
  pub created_at : Micros
