-- ===== src/Api/CommentsController.antt =====
-- modules/comments/comments.controller.ts
use task_scheduling_platform.Base.{String, Option, []}
use task_scheduling_platform.World.{Uuid}
use task_scheduling_platform.World.Membership.{WorkspaceRole}
use task_scheduling_platform.Exec.{Exec}
use task_scheduling_platform.Comments.{CreateCommentDto, ListCommentsQueryDto}
use task_scheduling_platform.Comments
use task_scheduling_platform.Api.Context.{
  Platform, Moment, Reply, nothing, comment, comments, replies, Access, in_workspace,
}

pub data Call : Type 0 where
  create : (workspace_id project_id task_id : Uuid) → CreateCommentDto → Call
  list : (workspace_id project_id task_id : Uuid) → ListCommentsQueryDto → Call
  update : (workspace_id project_id task_id comment_id : Uuid) → (body : String) → Call
  remove : (workspace_id project_id task_id comment_id : Uuid) → Call

abbrev pub access : Call → Access
access (create workspace_id p t dto) = in_workspace workspace_id []
access (list workspace_id p t query) = in_workspace workspace_id []
access (update workspace_id p t c body) = in_workspace workspace_id []
access (remove workspace_id p t c) = in_workspace workspace_id []

-- `role` is `@CurrentWorkspaceRole()`, which WorkspaceMemberGuard has put on the request.
unfoldable pub handle : Platform → Moment → Uuid → Option WorkspaceRole → Call → Exec Reply
handle platform moment user_id role (create workspace_id project_id task_id dto) =
    replies comment (Comments.create moment.stamp workspace_id project_id task_id user_id dto)
handle platform moment user_id role (list workspace_id project_id task_id query) =
    replies comments (Comments.list platform.codec workspace_id project_id task_id query)
handle platform moment user_id role (update workspace_id project_id task_id comment_id body) =
    replies comment
      (Comments.update moment.now moment.at workspace_id project_id task_id comment_id user_id body)
handle platform moment user_id role (remove workspace_id project_id task_id comment_id) =
    replies (λ _. nothing) (Comments.remove workspace_id project_id task_id comment_id user_id role)
