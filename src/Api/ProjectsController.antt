-- ===== src/Api/ProjectsController.antt =====
-- modules/projects/projects.controller.ts
use task_scheduling_platform.Base.{[], ◌∷◌}
use task_scheduling_platform.World.{Uuid}
use task_scheduling_platform.World.Membership.{admin}
use task_scheduling_platform.Exec.{Exec}
use task_scheduling_platform.Projects.{CreateProjectDto, UpdateProjectDto, ListProjectsQueryDto}
use task_scheduling_platform.Projects
use task_scheduling_platform.Api.Context.{
  Platform, Moment, Reply, nothing, project, projects, replies, Access, in_workspace,
}

pub data Call : Type 0 where
  create : (workspace_id : Uuid) → CreateProjectDto → Call
  list : (workspace_id : Uuid) → ListProjectsQueryDto → Call
  get : (workspace_id project_id : Uuid) → Call
  update : (workspace_id project_id : Uuid) → UpdateProjectDto → Call
  remove : (workspace_id project_id : Uuid) → Call

-- RolesGuard lets a route through that has no `@Roles`.
abbrev pub access : Call → Access
access (create workspace_id dto) = in_workspace workspace_id []
access (list workspace_id query) = in_workspace workspace_id []
access (get workspace_id p) = in_workspace workspace_id []
access (update workspace_id p dto) = in_workspace workspace_id []
access (remove workspace_id p) = in_workspace workspace_id (admin ∷ [])

unfoldable pub handle : Platform → Moment → Uuid → Call → Exec Reply
handle platform moment user_id (create workspace_id dto) =
    replies project (Projects.create moment.stamp workspace_id user_id dto)
handle platform moment user_id (list workspace_id query) =
    replies projects (Projects.list platform.codec workspace_id query)
handle platform moment user_id (get workspace_id project_id) =
    replies project (Projects.find_one_or_fail workspace_id project_id)
handle platform moment user_id (update workspace_id project_id dto) =
    replies project (Projects.update moment.at workspace_id project_id dto)
handle platform moment user_id (remove workspace_id project_id) =
    replies (λ _. nothing) (Projects.remove workspace_id project_id)
