-- ===== src/Api/TasksController.antt =====
-- modules/tasks/tasks.controller.ts
use task_scheduling_platform.Base.{Option, []}
use task_scheduling_platform.World.{Uuid}
use task_scheduling_platform.Exec.{Exec}
use task_scheduling_platform.Tasks.{CreateTaskDto, UpdateTaskDto, ListTasksQueryDto}
use task_scheduling_platform.Tasks
use task_scheduling_platform.Tasks.Subtree
use task_scheduling_platform.Api.Context.{
  Platform, Moment, Reply, nothing, task, tasks, subtree, replies, Access, in_workspace,
}

pub data Call : Type 0 where
  create : (workspace_id project_id : Uuid) → CreateTaskDto → Call
  list : (workspace_id project_id : Uuid) → ListTasksQueryDto → Call
  get : (workspace_id project_id task_id : Uuid) → Call
  get_subtree : (workspace_id project_id task_id : Uuid) → Call
  move : (workspace_id project_id task_id : Uuid) → (parent_task_id : Option Uuid) → Call
  update : (workspace_id project_id task_id : Uuid) → UpdateTaskDto → Call
  remove : (workspace_id project_id task_id : Uuid) → Call

abbrev pub access : Call → Access
access (create workspace_id p dto) = in_workspace workspace_id []
access (list workspace_id p query) = in_workspace workspace_id []
access (get workspace_id p t) = in_workspace workspace_id []
access (get_subtree workspace_id p t) = in_workspace workspace_id []
access (move workspace_id p t parent) = in_workspace workspace_id []
access (update workspace_id p t dto) = in_workspace workspace_id []
access (remove workspace_id p t) = in_workspace workspace_id []

unfoldable pub handle : Platform → Moment → Uuid → Call → Exec Reply
handle platform moment user_id (create workspace_id project_id dto) =
    replies task (Tasks.create moment.stamp workspace_id project_id user_id dto)
handle platform moment user_id (list workspace_id project_id query) =
    replies tasks (Tasks.list platform.codec workspace_id project_id query)
handle platform moment user_id (get workspace_id project_id task_id) =
    replies task (Tasks.find_one_or_fail workspace_id project_id task_id)
handle platform moment user_id (get_subtree workspace_id project_id task_id) =
    replies subtree (Subtree.get_subtree workspace_id project_id task_id)
handle platform moment user_id (move workspace_id project_id task_id parent_task_id) =
    replies task (Tasks.move_task moment.at workspace_id project_id task_id parent_task_id)
handle platform moment user_id (update workspace_id project_id task_id dto) =
    replies task (Tasks.update moment.now moment.at workspace_id project_id task_id user_id dto)
handle platform moment user_id (remove workspace_id project_id task_id) =
    replies (λ _. nothing) (Tasks.remove workspace_id project_id task_id)
