-- ===== src/Api/NotificationsController.antt =====
-- modules/notifications/notifications.controller.ts
use task_scheduling_platform.World.{Uuid}
use task_scheduling_platform.Exec.{Exec}
use task_scheduling_platform.Notifications.{ListNotificationsQueryDto}
use task_scheduling_platform.Notifications
use task_scheduling_platform.Api.Context.{
  Platform, Moment, Reply, notification, notifications, count, updated, replies,
}

-- Every route is behind JwtAuthGuard alone.
pub data Call : Type 0 where
  list : ListNotificationsQueryDto → Call
  unread_count : Call
  mark_read : (id : Uuid) → Call
  mark_all_read : Call

unfoldable pub handle : Platform → Moment → Uuid → Call → Exec Reply
handle platform moment user_id (list query) =
    replies notifications (Notifications.list platform.codec user_id query)
handle platform moment user_id unread_count = replies count (Notifications.unread_count user_id)
handle platform moment user_id (mark_read id) =
    replies notification (Notifications.mark_read moment.now user_id id)
handle platform moment user_id mark_all_read =
    replies updated (Notifications.mark_all_read moment.now user_id)
