-- ===== src/Api/Frames/Tables.antt =====
-- The calls that leave the table of tasks alone.
use task_scheduling_platform.Base.{ℕ, ◌≡◌, refl, String, Option, List, arith}
use task_scheduling_platform.World.{Uuid, Instant, Micros, Stamp, Email, World}
use task_scheduling_platform.World.Membership.{WorkspaceRole}
use task_scheduling_platform.World.Cascade.{delete_comment}
use task_scheduling_platform.Exec.{Exec, >>=-pure}
use task_scheduling_platform.Pagination.Cursor.{Codec}
use task_scheduling_platform.Users
use task_scheduling_platform.Tasks
use task_scheduling_platform.Tasks.{ListTasksQueryDto}
use task_scheduling_platform.Tasks.Subtree
use task_scheduling_platform.Projects
use task_scheduling_platform.Projects.{CreateProjectDto, UpdateProjectDto, ListProjectsQueryDto}
use task_scheduling_platform.Comments
use task_scheduling_platform.Comments.{CreateCommentDto, ListCommentsQueryDto}
use task_scheduling_platform.Activity
use task_scheduling_platform.Activity.{ListActivityQueryDto}
use task_scheduling_platform.Notifications
use task_scheduling_platform.Notifications.{ListNotificationsQueryDto}
use task_scheduling_platform.Workspaces
use task_scheduling_platform.Workspaces.{CreateWorkspaceDto}
use task_scheduling_platform.Workspaces.Cache.{CacheManager}
use task_scheduling_platform.Invitations
use task_scheduling_platform.Invitations.{CreateInvitationDto}
use task_scheduling_platform.Reminders
use task_scheduling_platform.Reminders.{Queue, ScanResult}
use task_scheduling_platform.Reminders.Rescans.{scanned}
use task_scheduling_platform.Api
use task_scheduling_platform.Api.Context.{Platform, Moment, Reply, replies}
use task_scheduling_platform.Api.CommentsController
use task_scheduling_platform.Api.WorkspacesController
use task_scheduling_platform.Api.InvitationsController
use task_scheduling_platform.Api.NotificationsController
use task_scheduling_platform.Workspaces.Guards.{AuthUser}

abbrev pub KeepsTasks : {A : Type 0} → Exec A → Type 0
KeepsTasks m = (w : World) → (m w).1.tasks ≡ w.tasks

pub replies-KeepsTasks :
    {A : Type 0} (body : A → Reply) (m : Exec A) → KeepsTasks m → KeepsTasks (replies body m)
replies-KeepsTasks body m h w = rw (>>=-pure m body w) (h w)

service : Unit {0}
unfolding Tasks.find_one_or_fail Tasks.list Subtree.get_subtree Projects.find_one_or_fail
    Projects.create Projects.list Projects.update Comments.find_one_or_fail Comments.create
    Comments.list Comments.update Comments.remove delete_comment Activity.list_for_task
    Notifications.create Notifications.list Notifications.unread_count Notifications.mark_read
    Notifications.mark_all_read Workspaces.create Workspaces.find_by_id_or_fail
    Workspaces.update_member_role Workspaces.remove_member Invitations.invite Invitations.revoke
    Invitations.accept Users.find_by_id Api.me
service = tt

module _ (workspace_id project_id task_id user_id : Uuid) where
  pub list_tasks-KeepsTasks :
      (codec : Codec) (query : ListTasksQueryDto)
      → KeepsTasks (Tasks.list codec workspace_id project_id query)
  unfolding service
  list_tasks-KeepsTasks codec query w = ground arith

  pub find_task-KeepsTasks : KeepsTasks (Tasks.find_one_or_fail workspace_id project_id task_id)
  unfolding service
  find_task-KeepsTasks w = ground arith

  pub get_subtree-KeepsTasks : KeepsTasks (Subtree.get_subtree workspace_id project_id task_id)
  unfolding service
  get_subtree-KeepsTasks w = ground arith

  pub create_project-KeepsTasks :
      (stamp : Stamp) (dto : CreateProjectDto)
      → KeepsTasks (Projects.create stamp workspace_id user_id dto)
  unfolding service
  create_project-KeepsTasks stamp dto w = ground arith

  pub list_projects-KeepsTasks :
      (codec : Codec) (query : ListProjectsQueryDto)
      → KeepsTasks (Projects.list codec workspace_id query)
  unfolding service
  list_projects-KeepsTasks codec query w = ground arith

  pub find_project-KeepsTasks : KeepsTasks (Projects.find_one_or_fail workspace_id project_id)
  unfolding service
  find_project-KeepsTasks w = ground arith

  pub update_project-KeepsTasks :
      (at : Micros) (dto : UpdateProjectDto)
      → KeepsTasks (Projects.update at workspace_id project_id dto)
  unfolding service
  update_project-KeepsTasks at dto w = ground arith

  create_comment-KeepsTasks :
      (stamp : Stamp) (dto : CreateCommentDto)
      → KeepsTasks (Comments.create stamp workspace_id project_id task_id user_id dto)
  unfolding service
  create_comment-KeepsTasks stamp dto w = ground arith

  list_comments-KeepsTasks :
      (codec : Codec) (query : ListCommentsQueryDto)
      → KeepsTasks (Comments.list codec workspace_id project_id task_id query)
  unfolding service
  list_comments-KeepsTasks codec query w = ground arith

  update_comment-KeepsTasks :
      (now : Instant) (at : Micros) (comment_id : Uuid) (body : String)
      → KeepsTasks (Comments.update now at workspace_id project_id task_id comment_id user_id body)
  unfolding service
  update_comment-KeepsTasks now at comment_id body w = ground arith

  remove_comment-KeepsTasks :
      (comment_id : Uuid) (role : Option WorkspaceRole)
      → KeepsTasks (Comments.remove workspace_id project_id task_id comment_id user_id role)
  unfolding service
  remove_comment-KeepsTasks comment_id role w = ground arith

  pub list_for_task-KeepsTasks :
      (codec : Codec) (query : ListActivityQueryDto)
      → KeepsTasks (Activity.list_for_task codec workspace_id project_id task_id query)
  unfolding service
  list_for_task-KeepsTasks codec query w = ground arith

  pub me-KeepsTasks : KeepsTasks (Api.me user_id)
  unfolding service
  me-KeepsTasks w = ground arith

  create_workspace-KeepsTasks :
      (lower : List ℕ → List ℕ) (stamp member_stamp : Stamp) (dto : CreateWorkspaceDto)
      → KeepsTasks (Workspaces.create lower stamp member_stamp user_id dto)
  unfolding service
  create_workspace-KeepsTasks lower stamp member_stamp dto w = ground arith

  find_workspace-KeepsTasks : KeepsTasks (Workspaces.find_by_id_or_fail workspace_id)
  unfolding service
  find_workspace-KeepsTasks w = ground arith

  update_member_role-KeepsTasks :
      (cache : CacheManager) (role : WorkspaceRole)
      → KeepsTasks (Workspaces.update_member_role cache workspace_id user_id role)
  unfolding service
  update_member_role-KeepsTasks cache role w = ground arith

  remove_member-KeepsTasks :
      (cache : CacheManager) → KeepsTasks (Workspaces.remove_member cache workspace_id user_id)
  unfolding service
  remove_member-KeepsTasks cache w = ground arith

  invite-KeepsTasks :
      (fold : Email → Email) (stamp : Stamp) (now : Instant) (token : ℕ) (dto : CreateInvitationDto)
      → KeepsTasks (Invitations.invite fold stamp now token workspace_id user_id dto)
  unfolding service
  invite-KeepsTasks fold stamp now token dto w = ground arith

  revoke-KeepsTasks :
      (invitation_id : Uuid) → KeepsTasks (Invitations.revoke workspace_id invitation_id)
  unfolding service
  revoke-KeepsTasks invitation_id w = ground arith

  accept-KeepsTasks :
      (fold : Email → Email) (stamp : Stamp) (now : Instant) (email : Email) (token : ℕ)
      → KeepsTasks (Invitations.accept fold stamp now user_id email token)
  unfolding service
  accept-KeepsTasks fold stamp now email token w = ground arith

  list_notifications-KeepsTasks :
      (codec : Codec) (query : ListNotificationsQueryDto)
      → KeepsTasks (Notifications.list codec user_id query)
  unfolding service
  list_notifications-KeepsTasks codec query w = ground arith

  unread_count-KeepsTasks : KeepsTasks (Notifications.unread_count user_id)
  unfolding service
  unread_count-KeepsTasks w = ground arith

  mark_read-KeepsTasks :
      (now : Instant) (id : Uuid) → KeepsTasks (Notifications.mark_read now user_id id)
  unfolding service
  mark_read-KeepsTasks now id w = ground arith

  mark_all_read-KeepsTasks : (now : Instant) → KeepsTasks (Notifications.mark_all_read now user_id)
  unfolding service
  mark_all_read-KeepsTasks now w = ground arith

pub CommentsController-KeepsTasks :
    (platform : Platform) (moment : Moment) (user_id : Uuid) (role : Option WorkspaceRole)
    (call : CommentsController.Call)
    → KeepsTasks (CommentsController.handle platform moment user_id role call)
unfolding CommentsController.handle
CommentsController-KeepsTasks platform moment user_id role (CommentsController.create w p t dto) =
    replies-KeepsTasks _ _ (create_comment-KeepsTasks w p t user_id moment.stamp dto)
CommentsController-KeepsTasks platform moment user_id role (CommentsController.list w p t query) =
    replies-KeepsTasks _ _ (list_comments-KeepsTasks w p t user_id platform.codec query)
CommentsController-KeepsTasks platform moment user_id role
      (CommentsController.update w p t c body) =
    replies-KeepsTasks _ _ (update_comment-KeepsTasks w p t user_id moment.now moment.at c body)
CommentsController-KeepsTasks platform moment user_id role (CommentsController.remove w p t c) =
    replies-KeepsTasks _ _ (remove_comment-KeepsTasks w p t user_id c role)

pub WorkspacesController-KeepsTasks :
    (platform : Platform) (moment : Moment) (user_id : Uuid) (call : WorkspacesController.Call)
    → KeepsTasks (WorkspacesController.handle platform moment user_id call)
unfolding WorkspacesController.handle
WorkspacesController-KeepsTasks platform moment user_id (WorkspacesController.create dto) =
    replies-KeepsTasks _ _ (
      create_workspace-KeepsTasks 0 0 0 user_id platform.lower moment.stamp moment.member_stamp dto)
WorkspacesController-KeepsTasks platform moment user_id WorkspacesController.list_mine = λ w. refl
WorkspacesController-KeepsTasks platform moment user_id (WorkspacesController.get w) =
    replies-KeepsTasks _ _ (find_workspace-KeepsTasks w 0 0 user_id)
WorkspacesController-KeepsTasks platform moment user_id (WorkspacesController.list_members w) =
    λ w. refl
WorkspacesController-KeepsTasks platform moment user_id
      (WorkspacesController.update_role w target role) =
    replies-KeepsTasks _ _ (update_member_role-KeepsTasks w 0 0 target platform.cache role)
WorkspacesController-KeepsTasks platform moment user_id
      (WorkspacesController.remove_member w target) =
    replies-KeepsTasks _ _ (remove_member-KeepsTasks w 0 0 target platform.cache)

pub InvitationsController-KeepsTasks :
    (platform : Platform) (moment : Moment) (user : AuthUser) (call : InvitationsController.Call)
    → KeepsTasks (InvitationsController.handle platform moment user call)
unfolding InvitationsController.handle
InvitationsController-KeepsTasks platform moment user (InvitationsController.invite w dto) =
    replies-KeepsTasks _ _ (
      invite-KeepsTasks w 0 0 user.user_id (platform.crypto).fold moment.stamp moment.now
        moment.invite_token dto)
InvitationsController-KeepsTasks platform moment user (InvitationsController.list w) = λ w. refl
InvitationsController-KeepsTasks platform moment user (InvitationsController.revoke w i) =
    replies-KeepsTasks _ _ (revoke-KeepsTasks w 0 0 0 i)
InvitationsController-KeepsTasks platform moment user (InvitationsController.accept token) =
    replies-KeepsTasks _ _ (
      accept-KeepsTasks 0 0 0 user.user_id (platform.crypto).fold moment.member_stamp moment.now
        user.email token)

pub NotificationsController-KeepsTasks :
    (platform : Platform) (moment : Moment) (user_id : Uuid) (call : NotificationsController.Call)
    → KeepsTasks (NotificationsController.handle platform moment user_id call)
unfolding NotificationsController.handle
NotificationsController-KeepsTasks platform moment user_id (NotificationsController.list query) =
    replies-KeepsTasks _ _ (list_notifications-KeepsTasks 0 0 0 user_id platform.codec query)
NotificationsController-KeepsTasks platform moment user_id NotificationsController.unread_count =
    replies-KeepsTasks _ _ (unread_count-KeepsTasks 0 0 0 user_id)
NotificationsController-KeepsTasks platform moment user_id (NotificationsController.mark_read id) =
    replies-KeepsTasks _ _ (mark_read-KeepsTasks 0 0 0 user_id moment.now id)
NotificationsController-KeepsTasks platform moment user_id NotificationsController.mark_all_read =
    replies-KeepsTasks _ _ (mark_all_read-KeepsTasks 0 0 0 user_id moment.now)

pub scan-KeepsTasks :
    (queue : Option Queue) (stamps notes : ℕ → Stamp) (now : Instant)
    → KeepsTasks (Reminders.scan queue stamps notes now)
scan-KeepsTasks queue stamps notes now w = (scanned queue stamps notes now w).0
