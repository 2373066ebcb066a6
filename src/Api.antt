-- ===== src/Api.antt =====
-- The HTTP interface: the routes of the ten controllers, their guards, and the call of the service.
-- The controllers are in Api/*Controller.antt, those with one route here.
pub mod Context
pub mod TasksController
pub mod CommentsController
pub mod ProjectsController
pub mod WorkspacesController
pub mod InvitationsController
pub mod NotificationsController
pub mod AuthController
pub mod Frames
pub mod Invariant
pub mod Reachable
pub mod Routes
pub mod Errors
pub mod Authorization
pub mod Tenancy
mod Samples
mod Tests
use task_scheduling_platform.Base.{ℕ, Option, none, some, List, []}
use task_scheduling_platform.Http.{not_found}
use task_scheduling_platform.World.{Uuid, User, World}
use task_scheduling_platform.World.Membership.{WorkspaceRole}
use task_scheduling_platform.Exec.{Exec, ◌>>=◌, ◌>>◌, pure, gets, lift, or_throw}
use task_scheduling_platform.Users
use task_scheduling_platform.Activity.{ListActivityQueryDto}
use task_scheduling_platform.Activity
use task_scheduling_platform.Reminders
use task_scheduling_platform.Workspaces.Guards.{AuthUser, Request, member_guard, roles_guard}
use task_scheduling_platform.Api.Context.{
  Platform, Moment, Headers, Profile, Reply, profile, activity, scan_result, replies, Access,
  signed_in, in_workspace, jwt_guard,
}

-- UsersController.me
abbrev pub to_profile : User → Profile
to_profile user = record {
  id = user.id;
  email = user.email;
  name = user.name;
  is_active = user.is_active;
  created_at = user.created_at;
}

unfoldable pub me : Uuid → Exec Profile
unfolding Users.find_by_id
me user_id = do
  found ← gets (Users.find_by_id user_id)
  user ← or_throw (not_found "User not found") found
  pure (to_profile user)

-- The routes behind JwtAuthGuard.
pub data Route : Type 0 where
  tasks : TasksController.Call → Route
  comments : CommentsController.Call → Route
  projects : ProjectsController.Call → Route
  workspaces : WorkspacesController.Call → Route
  invitations : InvitationsController.Call → Route
  notifications : NotificationsController.Call → Route
  get_activity : (workspace_id project_id task_id : Uuid) → ListActivityQueryDto → Route
  get_me : Route
  scan_reminders : Route

abbrev pub access : Route → Access
access (tasks call) = TasksController.access call
access (comments call) = CommentsController.access call
access (projects call) = ProjectsController.access call
access (workspaces call) = WorkspacesController.access call
access (invitations call) = InvitationsController.access call
access (notifications call) = signed_in
access (get_activity workspace_id p t query) = in_workspace workspace_id []
access get_me = signed_in
access scan_reminders = signed_in

unfoldable pub handle : Platform → Moment → AuthUser → Option WorkspaceRole → Route → Exec Reply
unfolding TasksController.handle CommentsController.handle ProjectsController.handle
    WorkspacesController.handle InvitationsController.handle NotificationsController.handle
handle platform moment user role (tasks call) =
    TasksController.handle platform moment user.user_id call
handle platform moment user role (comments call) =
    CommentsController.handle platform moment user.user_id role call
handle platform moment user role (projects call) =
    ProjectsController.handle platform moment user.user_id call
handle platform moment user role (workspaces call) =
    WorkspacesController.handle platform moment user.user_id call
handle platform moment user role (invitations call) =
    InvitationsController.handle platform moment user call
handle platform moment user role (notifications call) =
    NotificationsController.handle platform moment user.user_id call
handle platform moment user role (get_activity workspace_id project_id task_id query) =
    replies activity (Activity.list_for_task platform.codec workspace_id project_id task_id query)
handle platform moment user role get_me = replies profile (me user.user_id)
handle platform moment user role scan_reminders =
    replies scan_result
      (Reminders.scan platform.queue moment.reminder_stamps moment.note_stamps moment.now)

pub data Call : Type 0 where
  auth : AuthController.Call → Call
  guarded : Route → Call

-- What the guards read of a request to a route with `:workspaceId` in its path.
abbrev pub request_of : AuthUser → Uuid → Request
request_of user workspace_id = record {
  user = some user;
  param_workspace_id = some workspace_id;
  body_workspace_id = none;
  workspace_role = none;
}

-- The guards after JwtAuthGuard. They give what `@CurrentWorkspaceRole()` reads.
abbrev pub admit : Platform → Moment → AuthUser → Access → Exec (Option WorkspaceRole)
admit platform moment user signed_in = pure none
admit platform moment user (in_workspace workspace_id required) = do
  admitted ← member_guard platform.cache moment.now (request_of user workspace_id)
  lift (roles_guard required admitted)
  pure admitted.workspace_role

unfoldable pub serve : Platform → Moment → Headers → Call → Exec Reply
unfolding AuthController.handle handle member_guard roles_guard
serve platform moment headers (auth call) =
    AuthController.handle platform moment headers.session call
serve platform moment headers (guarded route) = do
  user ← jwt_guard platform moment.now headers.bearer
  role ← admit platform moment user (access route)
  handle platform moment user role route
