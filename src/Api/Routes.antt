-- ===== src/Api/Routes.antt =====
-- The paths of the routes: which name a workspace, and which are for its ADMINs.
use task_scheduling_platform.Base.{◌≡◌, refl, ◌∙◌, Option, none, some, List, [], ◌∷◌, arith}
use task_scheduling_platform.World.{Uuid}
use task_scheduling_platform.World.Membership.{WorkspaceRole, admin}
use task_scheduling_platform.Api.Context.{in_workspace}
use task_scheduling_platform.Api.TasksController
use task_scheduling_platform.Api.CommentsController
use task_scheduling_platform.Api.ProjectsController
use task_scheduling_platform.Api.WorkspacesController
use task_scheduling_platform.Api.InvitationsController
use task_scheduling_platform.Api.{
  Route, tasks, comments, projects, workspaces, invitations, notifications, get_activity, get_me,
  scan_reminders, access,
}

abbrev pub task_workspace : TasksController.Call → Uuid
task_workspace (TasksController.create id p dto) = id
task_workspace (TasksController.list id p query) = id
task_workspace (TasksController.get id p t) = id
task_workspace (TasksController.get_subtree id p t) = id
task_workspace (TasksController.move id p t parent) = id
task_workspace (TasksController.update id p t dto) = id
task_workspace (TasksController.remove id p t) = id

abbrev comment_workspace : CommentsController.Call → Uuid
comment_workspace (CommentsController.create id p t dto) = id
comment_workspace (CommentsController.list id p t query) = id
comment_workspace (CommentsController.update id p t c body) = id
comment_workspace (CommentsController.remove id p t c) = id

abbrev pub project_workspace : ProjectsController.Call → Uuid
project_workspace (ProjectsController.create id dto) = id
project_workspace (ProjectsController.list id query) = id
project_workspace (ProjectsController.get id p) = id
project_workspace (ProjectsController.update id p dto) = id
project_workspace (ProjectsController.remove id p) = id

abbrev own_workspace : WorkspacesController.Call → Option Uuid
own_workspace (WorkspacesController.create dto) = none
own_workspace WorkspacesController.list_mine = none
own_workspace (WorkspacesController.get id) = some id
own_workspace (WorkspacesController.list_members id) = some id
own_workspace (WorkspacesController.update_role id target role) = some id
own_workspace (WorkspacesController.remove_member id target) = some id

abbrev invitation_workspace : InvitationsController.Call → Option Uuid
invitation_workspace (InvitationsController.invite id dto) = some id
invitation_workspace (InvitationsController.list id) = some id
invitation_workspace (InvitationsController.revoke id i) = some id
invitation_workspace (InvitationsController.accept token) = none

-- `:workspaceId` of the path, if it has one
abbrev pub workspace_in_path : Route → Option Uuid
workspace_in_path (tasks call) = some (task_workspace call)
workspace_in_path (comments call) = some (comment_workspace call)
workspace_in_path (projects call) = some (project_workspace call)
workspace_in_path (workspaces call) = own_workspace call
workspace_in_path (invitations call) = invitation_workspace call
workspace_in_path (notifications call) = none
workspace_in_path (get_activity id p t query) = some id
workspace_in_path get_me = none
workspace_in_path scan_reminders = none

-- The routes that manage a workspace: the members and their roles, the invitations, and the removal of
-- a project.
pub data Manages : Route → Uuid → Type 0 where
  removes_project : (id p : Uuid) → Manages (projects (ProjectsController.remove id p)) id
  updates_role :
      (id target : Uuid) (role : WorkspaceRole)
      → Manages (workspaces (WorkspacesController.update_role id target role)) id
  removes_member :
      (id target : Uuid) → Manages (workspaces (WorkspacesController.remove_member id target)) id
  invites : (id : Uuid) (dto : _) → Manages (invitations (InvitationsController.invite id dto)) id
  lists_invitations : (id : Uuid) → Manages (invitations (InvitationsController.list id)) id
  revokes : (id i : Uuid) → Manages (invitations (InvitationsController.revoke id i)) id

tasks_access :
    (call : TasksController.Call) → access (tasks call) ≡ in_workspace (task_workspace call) []
tasks_access call = ground arith

comments_access :
    (call : CommentsController.Call)
    → access (comments call) ≡ in_workspace (comment_workspace call) []
comments_access call = ground arith

projects_access :
    (call : ProjectsController.Call)
    → (required : List WorkspaceRole) × (access (projects call)
        ≡ in_workspace (project_workspace call) required)
projects_access (ProjectsController.create id dto) = ([], refl)
projects_access (ProjectsController.list id query) = ([], refl)
projects_access (ProjectsController.get id p) = ([], refl)
projects_access (ProjectsController.update id p dto) = ([], refl)
projects_access (ProjectsController.remove id p) = (admin ∷ [], refl)

-- A route whose path names a workspace is behind WorkspaceMemberGuard.
pub access-in_workspace :
    (route : Route) (id : Uuid)
    → workspace_in_path route ≡ some id
    → (required : List WorkspaceRole) × (access route ≡ in_workspace id required)
access-in_workspace (tasks call) id h = ([], tasks_access call ∙ ground arith)
access-in_workspace (comments call) id h = ([], comments_access call ∙ ground arith)
access-in_workspace (projects call) id h =
    let (required, e) = projects_access call in (required, e ∙ ground arith)
access-in_workspace (workspaces (WorkspacesController.create dto)) id h = cc
access-in_workspace (workspaces WorkspacesController.list_mine) id h = cc
access-in_workspace (workspaces (WorkspacesController.get _)) id h = ([], ground arith)
access-in_workspace (workspaces (WorkspacesController.list_members _)) id h = ([], ground arith)
access-in_workspace (workspaces (WorkspacesController.update_role _ t r)) id h =
    (admin ∷ [], ground arith)
access-in_workspace (workspaces (WorkspacesController.remove_member _ t)) id h =
    (admin ∷ [], ground arith)
access-in_workspace (invitations (InvitationsController.invite _ dto)) id h =
    (admin ∷ [], ground arith)
access-in_workspace (invitations (InvitationsController.list _)) id h = (admin ∷ [], ground arith)
access-in_workspace (invitations (InvitationsController.revoke _ i)) id h =
    (admin ∷ [], ground arith)
access-in_workspace (invitations (InvitationsController.accept token)) id h = cc
access-in_workspace (notifications call) id h = cc
access-in_workspace (get_activity _ p t query) id h = ([], ground arith)
access-in_workspace get_me id h = cc
access-in_workspace scan_reminders id h = cc

-- The routes that manage a workspace are for its ADMINs.
pub Manages-access :
    (route : Route) (id : Uuid) → Manages route id → access route ≡ in_workspace id (admin ∷ [])
Manages-access _ id (removes_project _ p) = refl
Manages-access _ id (updates_role _ target role) = refl
Manages-access _ id (removes_member _ target) = refl
Manages-access _ id (invites _ dto) = refl
Manages-access _ id (lists_invitations _) = refl
Manages-access _ id (revokes _ i) = refl
