-- ===== src/Api/Frames/Work.antt =====
-- Tasks, projects and comments.
use task_scheduling_platform.Base.{String, Option, arith}
use task_scheduling_platform.World.{Uuid, Instant, Micros, Stamp}
use task_scheduling_platform.Pagination.Cursor.{Codec}
use task_scheduling_platform.Api.Context.{Platform, Moment}
use task_scheduling_platform.Api.Frames.{KeepsFrame, replies-KeepsFrame}
use task_scheduling_platform.World.Membership.{WorkspaceRole}
use task_scheduling_platform.World.Cascade.{delete_task, delete_project, delete_comment}
use task_scheduling_platform.Tasks
use task_scheduling_platform.Tasks.{check_move, CreateTaskDto, UpdateTaskDto, ListTasksQueryDto}
use task_scheduling_platform.Tasks.Subtree
use task_scheduling_platform.Projects
use task_scheduling_platform.Projects.{CreateProjectDto, UpdateProjectDto, ListProjectsQueryDto}
use task_scheduling_platform.Comments
use task_scheduling_platform.Comments.{CreateCommentDto, ListCommentsQueryDto}
use task_scheduling_platform.Api.TasksController
use task_scheduling_platform.Api.ProjectsController
use task_scheduling_platform.Api.CommentsController

service : Unit {0}
unfolding Tasks.find_one_or_fail Tasks.create Tasks.update Tasks.move_task check_move Tasks.remove
    Tasks.list Subtree.get_subtree Projects.find_one_or_fail Projects.create Projects.list
    Projects.update Projects.remove Comments.find_one_or_fail Comments.create Comments.list
    Comments.update Comments.remove delete_task delete_project delete_comment
service = tt

module _ (workspace_id project_id task_id user_id : Uuid) where
  create_task-KeepsFrame :
      (stamp : Stamp) (dto : CreateTaskDto)
      → KeepsFrame (Tasks.create stamp workspace_id project_id user_id dto)
  unfolding service
  create_task-KeepsFrame stamp dto w = ground arith

  list_tasks-KeepsFrame :
      (codec : Codec) (query : ListTasksQueryDto)
      → KeepsFrame (Tasks.list codec workspace_id project_id query)
  unfolding service
  list_tasks-KeepsFrame codec query w = ground arith

  find_task-KeepsFrame : KeepsFrame (Tasks.find_one_or_fail workspace_id project_id task_id)
  unfolding service
  find_task-KeepsFrame w = ground arith

  get_subtree-KeepsFrame : KeepsFrame (Subtree.get_subtree workspace_id project_id task_id)
  unfolding service
  get_subtree-KeepsFrame w = ground arith

  move_task-KeepsFrame :
      (at : Micros) (parent : Option Uuid)
      → KeepsFrame (Tasks.move_task at workspace_id project_id task_id parent)
  unfolding service
  move_task-KeepsFrame at parent w = ground arith

  update_task-KeepsFrame :
      (now : Instant) (at : Micros) (dto : UpdateTaskDto)
      → KeepsFrame (Tasks.update now at workspace_id project_id task_id user_id dto)
  unfolding service
  update_task-KeepsFrame now at dto w = ground arith

  remove_task-KeepsFrame : KeepsFrame (Tasks.remove workspace_id project_id task_id)
  unfolding service
  remove_task-KeepsFrame w = ground arith

  create_project-KeepsFrame :
      (stamp : Stamp) (dto : CreateProjectDto)
      → KeepsFrame (Projects.create stamp workspace_id user_id dto)
  unfolding service
  create_project-KeepsFrame stamp dto w = ground arith

  list_projects-KeepsFrame :
      (codec : Codec) (query : ListProjectsQueryDto)
      → KeepsFrame (Projects.list codec workspace_id query)
  unfolding service
  list_projects-KeepsFrame codec query w = ground arith

  find_project-KeepsFrame : KeepsFrame (Projects.find_one_or_fail workspace_id project_id)
  unfolding service
  find_project-KeepsFrame w = ground arith

  update_project-KeepsFrame :
      (at : Micros) (dto : UpdateProjectDto)
      → KeepsFrame (Projects.update at workspace_id project_id dto)
  unfolding service
  update_project-KeepsFrame at dto w = ground arith

  remove_project-KeepsFrame : KeepsFrame (Projects.remove workspace_id project_id)
  unfolding service
  remove_project-KeepsFrame w = ground arith

  create_comment-KeepsFrame :
      (stamp : Stamp) (dto : CreateCommentDto)
      → KeepsFrame (Comments.create stamp workspace_id project_id task_id user_id dto)
  unfolding service
  create_comment-KeepsFrame stamp dto w = ground arith

  list_comments-KeepsFrame :
      (codec : Codec) (query : ListCommentsQueryDto)
      → KeepsFrame (Comments.list codec workspace_id project_id task_id query)
  unfolding service
  list_comments-KeepsFrame codec query w = ground arith

  update_comment-KeepsFrame :
      (now : Instant) (at : Micros) (comment_id : Uuid) (body : String)
      → KeepsFrame (Comments.update now at workspace_id project_id task_id comment_id user_id body)
  unfolding service
  update_comment-KeepsFrame now at comment_id body w = ground arith

  remove_comment-KeepsFrame :
      (comment_id : Uuid) (role : Option WorkspaceRole)
      → KeepsFrame (Comments.remove workspace_id project_id task_id comment_id user_id role)
  unfolding service
  remove_comment-KeepsFrame comment_id role w = ground arith

pub TasksController-KeepsFrame :
    (platform : Platform) (moment : Moment) (user_id : Uuid) (call : TasksController.Call)
    → KeepsFrame (TasksController.handle platform moment user_id call)
unfolding TasksController.handle
TasksController-KeepsFrame platform moment user_id (TasksController.create w p dto) =
    replies-KeepsFrame _ _ (create_task-KeepsFrame w p 0 user_id moment.stamp dto)
TasksController-KeepsFrame platform moment user_id (TasksController.list w p query) =
    replies-KeepsFrame _ _ (list_tasks-KeepsFrame w p 0 user_id platform.codec query)
TasksController-KeepsFrame platform moment user_id (TasksController.get w p t) =
    replies-KeepsFrame _ _ (find_task-KeepsFrame w p t user_id)
TasksController-KeepsFrame platform moment user_id (TasksController.get_subtree w p t) =
    replies-KeepsFrame _ _ (get_subtree-KeepsFrame w p t user_id)
TasksController-KeepsFrame platform moment user_id (TasksController.move w p t parent) =
    replies-KeepsFrame _ _ (move_task-KeepsFrame w p t user_id moment.at parent)
TasksController-KeepsFrame platform moment user_id (TasksController.update w p t dto) =
    replies-KeepsFrame _ _ (update_task-KeepsFrame w p t user_id moment.now moment.at dto)
TasksController-KeepsFrame platform moment user_id (TasksController.remove w p t) =
    replies-KeepsFrame _ _ (remove_task-KeepsFrame w p t user_id)

pub ProjectsController-KeepsFrame :
    (platform : Platform) (moment : Moment) (user_id : Uuid) (call : ProjectsController.Call)
    → KeepsFrame (ProjectsController.handle platform moment user_id call)
unfolding ProjectsController.handle
ProjectsController-KeepsFrame platform moment user_id (ProjectsController.create w dto) =
    replies-KeepsFrame _ _ (create_project-KeepsFrame w 0 0 user_id moment.stamp dto)
ProjectsController-KeepsFrame platform moment user_id (ProjectsController.list w query) =
    replies-KeepsFrame _ _ (list_projects-KeepsFrame w 0 0 user_id platform.codec query)
ProjectsController-KeepsFrame platform moment user_id (ProjectsController.get w p) =
    replies-KeepsFrame _ _ (find_project-KeepsFrame w p 0 user_id)
ProjectsController-KeepsFrame platform moment user_id (ProjectsController.update w p dto) =
    replies-KeepsFrame _ _ (update_project-KeepsFrame w p 0 user_id moment.at dto)
ProjectsController-KeepsFrame platform moment user_id (ProjectsController.remove w p) =
    replies-KeepsFrame _ _ (remove_project-KeepsFrame w p 0 user_id)

pub CommentsController-KeepsFrame :
    (platform : Platform) (moment : Moment) (user_id : Uuid) (role : Option WorkspaceRole)
    (call : CommentsController.Call)
    → KeepsFrame (CommentsController.handle platform moment user_id role call)
unfolding CommentsController.handle
CommentsController-KeepsFrame platform moment user_id role (CommentsController.create w p t dto) =
    replies-KeepsFrame _ _ (create_comment-KeepsFrame w p t user_id moment.stamp dto)
CommentsController-KeepsFrame platform moment user_id role (CommentsController.list w p t query) =
    replies-KeepsFrame _ _ (list_comments-KeepsFrame w p t user_id platform.codec query)
CommentsController-KeepsFrame platform moment user_id role
      (CommentsController.update w p t c body) =
    replies-KeepsFrame _ _ (update_comment-KeepsFrame w p t user_id moment.now moment.at c body)
CommentsController-KeepsFrame platform moment user_id role (CommentsController.remove w p t c) =
    replies-KeepsFrame _ _ (remove_comment-KeepsFrame w p t user_id c role)
