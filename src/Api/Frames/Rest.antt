-- ===== src/Api/Frames/Rest.antt =====
-- Sign-in, notifications, activity, reminders, and the queries on workspaces and invitations.
use task_scheduling_platform.Base.{ℕ, suc, refl, Option, List, [], ◌∷◌, arith, length, find}
use task_scheduling_platform.World.{Uuid, Instant, Stamp}
use task_scheduling_platform.Exec.{◌>>=◌}
use task_scheduling_platform.Pagination.Cursor.{Codec}
use task_scheduling_platform.Api.Context.{Platform, Moment}
use task_scheduling_platform.Api.Frames.{KeepsFrame, >>=-KeepsFrame, replies-KeepsFrame}
use task_scheduling_platform.World.{Task, Email}
use task_scheduling_platform.World.Delivery.{ReminderType, due_soon, overdue}
use task_scheduling_platform.Users
use task_scheduling_platform.Auth
use task_scheduling_platform.Auth.{Crypto, Draw, SignupDto, LoginDto}
use task_scheduling_platform.Auth.RefreshTokens
use task_scheduling_platform.Auth.RefreshTokens.{SessionContext}
use task_scheduling_platform.Notifications
use task_scheduling_platform.Notifications.{ListNotificationsQueryDto}
use task_scheduling_platform.Activity
use task_scheduling_platform.Activity.{ListActivityQueryDto}
use task_scheduling_platform.Tasks
use task_scheduling_platform.Projects
use task_scheduling_platform.Reminders
use task_scheduling_platform.Reminders.{Queue, ScanResult}
use task_scheduling_platform.Invitations
use task_scheduling_platform.Invitations.{CreateInvitationDto}
use task_scheduling_platform.Api.AuthController
use task_scheduling_platform.Api.NotificationsController

service : Unit {0}
unfolding Users.create Users.find_by_id Users.find_by_email Users.exists_by_email Auth.signup
    Auth.login Auth.refresh Auth.logout RefreshTokens.create_token
    RefreshTokens.issue_for_new_session RefreshTokens.revoke_family RefreshTokens.rotate
    RefreshTokens.revoke Notifications.create Notifications.list Notifications.unread_count
    Notifications.mark_read Notifications.mark_all_read Tasks.find_one_or_fail
    Projects.find_one_or_fail Activity.list_for_task Reminders.create_reminder Reminders.dispatch
    Reminders.dispatch_all Reminders.scan Invitations.invite Invitations.revoke
service = tt

signup-KeepsFrame :
    (crypto : Crypto) (ttl : ℕ) (draw : Draw) (dto : SignupDto) (ctx : SessionContext)
    → KeepsFrame (Auth.signup crypto ttl draw dto ctx)
unfolding service
signup-KeepsFrame crypto ttl draw dto ctx w = ground arith

login-KeepsFrame :
    (crypto : Crypto) (ttl : ℕ) (draw : Draw) (dto : LoginDto) (ctx : SessionContext)
    → KeepsFrame (Auth.login crypto ttl draw dto ctx)
unfolding service
login-KeepsFrame crypto ttl draw dto ctx w = ground arith

refresh-KeepsFrame :
    (crypto : Crypto) (ttl : ℕ) (draw : Draw) (raw : ℕ) (ctx : SessionContext)
    → KeepsFrame (Auth.refresh crypto ttl draw raw ctx)
unfolding service
refresh-KeepsFrame crypto ttl draw raw ctx w = ground arith

logout-KeepsFrame :
    (crypto : Crypto) (ttl : ℕ) (now : Instant) (raw : ℕ)
    → KeepsFrame (Auth.logout crypto ttl now raw)
unfolding service
logout-KeepsFrame crypto ttl now raw w = ground arith

list_notifications-KeepsFrame :
    (codec : Codec) (user_id : Uuid) (query : ListNotificationsQueryDto)
    → KeepsFrame (Notifications.list codec user_id query)
unfolding service
list_notifications-KeepsFrame codec user_id query w = ground arith

unread_count-KeepsFrame : (user_id : Uuid) → KeepsFrame (Notifications.unread_count user_id)
unfolding service
unread_count-KeepsFrame user_id w = ground arith

mark_read-KeepsFrame :
    (now : Instant) (user_id id : Uuid) → KeepsFrame (Notifications.mark_read now user_id id)
unfolding service
mark_read-KeepsFrame now user_id id w = ground arith

mark_all_read-KeepsFrame :
    (now : Instant) (user_id : Uuid) → KeepsFrame (Notifications.mark_all_read now user_id)
unfolding service
mark_all_read-KeepsFrame now user_id w = ground arith

pub list_for_task-KeepsFrame :
    (codec : Codec) (w p t : Uuid) (query : ListActivityQueryDto)
    → KeepsFrame (Activity.list_for_task codec w p t query)
unfolding service
list_for_task-KeepsFrame codec w p t query v = ground arith

pub invite-KeepsFrame :
    (fold : Email → Email) (stamp : Stamp) (now : Instant) (token : ℕ) (w u : Uuid)
    (dto : CreateInvitationDto)
    → KeepsFrame (Invitations.invite fold stamp now token w u dto)
unfolding service
invite-KeepsFrame fold stamp now token w u dto v = ground arith

pub revoke-KeepsFrame : (w i : Uuid) → KeepsFrame (Invitations.revoke w i)
unfolding service
revoke-KeepsFrame w i v = ground arith

dispatch-KeepsFrame :
    (queue : Option Queue) (stamp note : Stamp) (now : Instant) (task : Task) (type : ReminderType)
    → KeepsFrame (Reminders.dispatch queue stamp note now task type)
unfolding service
dispatch-KeepsFrame queue stamp note now task type w = ground arith

pub AuthController-KeepsFrame :
    (platform : Platform) (moment : Moment) (ctx : SessionContext) (call : AuthController.Call)
    → KeepsFrame (AuthController.handle platform moment ctx call)
unfolding AuthController.handle
AuthController-KeepsFrame platform moment ctx (AuthController.signup dto) =
    replies-KeepsFrame _ _
      (signup-KeepsFrame platform.crypto platform.refresh_ttl_ms moment.draw dto ctx)
AuthController-KeepsFrame platform moment ctx (AuthController.login dto) =
    replies-KeepsFrame _ _
      (login-KeepsFrame platform.crypto platform.refresh_ttl_ms moment.draw dto ctx)
AuthController-KeepsFrame platform moment ctx (AuthController.refresh raw) =
    replies-KeepsFrame _ _
      (refresh-KeepsFrame platform.crypto platform.refresh_ttl_ms moment.draw raw ctx)
AuthController-KeepsFrame platform moment ctx (AuthController.logout raw) =
    replies-KeepsFrame _ _
      (logout-KeepsFrame platform.crypto platform.refresh_ttl_ms moment.now raw)

pub NotificationsController-KeepsFrame :
    (platform : Platform) (moment : Moment) (user_id : Uuid) (call : NotificationsController.Call)
    → KeepsFrame (NotificationsController.handle platform moment user_id call)
unfolding NotificationsController.handle
NotificationsController-KeepsFrame platform moment user_id (NotificationsController.list query) =
    replies-KeepsFrame _ _ (list_notifications-KeepsFrame platform.codec user_id query)
NotificationsController-KeepsFrame platform moment user_id NotificationsController.unread_count =
    replies-KeepsFrame _ _ (unread_count-KeepsFrame user_id)
NotificationsController-KeepsFrame platform moment user_id (NotificationsController.mark_read id) =
    replies-KeepsFrame _ _ (mark_read-KeepsFrame moment.now user_id id)
NotificationsController-KeepsFrame platform moment user_id NotificationsController.mark_all_read =
    replies-KeepsFrame _ _ (mark_all_read-KeepsFrame moment.now user_id)

dispatch_all-KeepsFrame :
    (queue : Option Queue) (stamps notes : ℕ → Stamp) (now : Instant) (type : ReminderType) (k : ℕ)
    (tasks : List Task) (s : ScanResult)
    → KeepsFrame (Reminders.dispatch_all queue stamps notes now type k tasks s)
unfolding Reminders.dispatch_all
dispatch_all-KeepsFrame queue stamps notes now type k [] s = λ w. (refl, refl, refl)
dispatch_all-KeepsFrame queue stamps notes now type k (task ∷ tasks) s =
    >>=-KeepsFrame (Reminders.dispatch queue (stamps k) (notes k) now task type) _
      (dispatch-KeepsFrame queue (stamps k) (notes k) now task type)
      (λ o. dispatch_all-KeepsFrame queue stamps notes now type (suc k) tasks _)

-- The two loops of `scan`.
loops-KeepsFrame :
    (queue : Option Queue) (stamps notes : ℕ → Stamp) (now : Instant) (soon late : List Task)
    (s : ScanResult)
    → KeepsFrame (
        Reminders.dispatch_all queue stamps notes now due_soon 0 soon s >>= λ t.
        Reminders.dispatch_all queue stamps notes now overdue (length soon) late t)
loops-KeepsFrame queue stamps notes now soon late s =
    >>=-KeepsFrame (Reminders.dispatch_all queue stamps notes now due_soon 0 soon s) _
      (dispatch_all-KeepsFrame queue stamps notes now due_soon 0 soon s)
      (λ t. dispatch_all-KeepsFrame queue stamps notes now overdue (length soon) late t)

pub scan-KeepsFrame :
    (queue : Option Queue) (stamps notes : ℕ → Stamp) (now : Instant)
    → KeepsFrame (Reminders.scan queue stamps notes now)
unfolding Reminders.scan
scan-KeepsFrame queue stamps notes now w =
    let soon = find (Reminders.is_due_soon now) w.tasks in
    let late = find (Reminders.is_overdue now) w.tasks in
    loops-KeepsFrame queue stamps notes now soon late
      (record {
        scanned_due_soon = length soon;
        scanned_overdue = length late;
        created = 0;
        delivered = 0;
        enqueued = 0;
      })
      w
