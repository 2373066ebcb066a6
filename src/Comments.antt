-- ===== src/Comments.antt =====
-- modules/comments/comments.service.ts
pub mod Rights
mod Tests
use task_scheduling_platform.Base.{
  ℕ, String, Bool, true, false, not, ◌&&◌, Option, none, some, List, [], ◌∷◌, ◌++◌, ◌==◌, ◌=?◌,
  is_some, or_else, find_one, save_row,
}
use task_scheduling_platform.Http.{bad_request, not_found, forbidden}
use task_scheduling_platform.World.{Uuid, Instant, Micros, Stamp, Task, Comment, World}
use task_scheduling_platform.World.Membership.{WorkspaceRole, is_admin}
use task_scheduling_platform.World.Events.{comment_created, comment_replied}
use task_scheduling_platform.World.Cascade.{delete_comment}
use task_scheduling_platform.Exec.{
  Exec, ◌>>=◌, ◌>>◌, pure, gets, modify, or_throw, throw_if, lift, emit,
}
use task_scheduling_platform.Pagination.{Page, list_page}
use task_scheduling_platform.Pagination.Cursor.{Text, Codec}
use task_scheduling_platform.Tasks

pub record CreateCommentDto : Type 0 where
  pub body : String
  pub parent_comment_id : Option Uuid

pub record ListCommentsQueryDto : Type 0 where
  pub limit : Option ℕ
  pub cursor : Option Text
  pub parent_comment_id : Option Uuid
  pub top_level : Bool

-- `where: { id, taskId }`
abbrev pub on_task : Uuid → Uuid → Comment → Bool
on_task task_id comment_id c = c.id == comment_id && c.task_id == task_id

abbrev pub find_comment : Uuid → Uuid → World → Option Comment
find_comment task_id comment_id w = find_one (on_task task_id comment_id) w.comments

-- The author of the parent comment, if there is a parent.
abbrev parent_author : Uuid → Option Uuid → Exec (Option Uuid)
parent_author task_id none = pure none
parent_author task_id (some parent_id) = do
  found ← gets (find_comment task_id parent_id)
  parent ← or_throw (bad_request "Parent comment not found on this task") found
  pure (some parent.author_id)

abbrev pub new_comment : Stamp → Uuid → Uuid → CreateCommentDto → Comment
new_comment stamp task_id author_id dto = record {
  id = stamp.id;
  task_id = task_id;
  author_id = author_id;
  parent_comment_id = dto.parent_comment_id;
  body = dto.body;
  edited_at = none;
  created_at = stamp.at;
  updated_at = stamp.at;
}

-- `if (comment.parentCommentId && parentAuthorId)`
abbrev emit_replied : Comment → Option Uuid → Option Uuid → Exec (Unit {0})
emit_replied comment none author = pure tt
emit_replied comment (some parent_id) none = pure tt
emit_replied comment (some parent_id) (some author) = emit (
    comment_replied (record {
      comment_id = comment.id;
      task_id = comment.task_id;
      parent_comment_id = parent_id;
      parent_author_id = author;
      author_id = comment.author_id;
    }))

unfoldable pub create : Stamp → Uuid → Uuid → Uuid → Uuid → CreateCommentDto → Exec Comment
create stamp workspace_id project_id task_id author_id dto = do
  task ← Tasks.find_one_or_fail workspace_id project_id task_id
  parent_author_id ← parent_author task_id dto.parent_comment_id
  let comment = new_comment stamp task_id author_id dto
  modify (λ w. record w { comments = w.comments ++ comment ∷ [] })
  emit (
      comment_created (record {
        comment_id = comment.id;
        task_id = task_id;
        author_id = author_id;
        parent_comment_id = comment.parent_comment_id;
        task_assignee_id = task.assignee_id;
      }))
  emit_replied comment comment.parent_comment_id parent_author_id
  pure comment

abbrev parent_is : Option Uuid → Bool → Comment → Bool
parent_is (some p) top_level c = c.parent_comment_id =? some p
parent_is none true c = not (is_some c.parent_comment_id)
parent_is none false c = true

-- the `where` clauses of `list`
abbrev pub listed : Uuid → ListCommentsQueryDto → Comment → Bool
listed task_id query c = c.task_id == task_id && parent_is query.parent_comment_id query.top_level c

unfoldable pub list : Codec → Uuid → Uuid → Uuid → ListCommentsQueryDto → Exec (Page Comment)
list codec workspace_id project_id task_id query = do
  Tasks.find_one_or_fail workspace_id project_id task_id
  page ← gets (λ w.
      list_page codec (λ c. c.created_at) (λ c. c.id) (listed task_id query)
        (or_else query.limit 20) query.cursor w.comments)
  lift page

unfoldable pub find_one_or_fail : Uuid → Uuid → Uuid → Uuid → Exec Comment
find_one_or_fail workspace_id project_id task_id comment_id = do
  Tasks.find_one_or_fail workspace_id project_id task_id
  found ← gets (find_comment task_id comment_id)
  or_throw (not_found "Comment not found") found

unfoldable pub update : Instant → Micros → Uuid → Uuid → Uuid → Uuid → Uuid → String → Exec Comment
update now at workspace_id project_id task_id comment_id actor_id body = do
  comment ← find_one_or_fail workspace_id project_id task_id comment_id
  throw_if (not (comment.author_id == actor_id)) (forbidden "Only the author can edit this comment")
  let saved : Comment = record comment { body = body; edited_at = some now; updated_at = at }
  modify (λ w. record w { comments = save_row (λ c. c.id) saved w.comments })
  pure saved

-- `actorRole !== WorkspaceRole.ADMIN`, where the role may be undefined
abbrev pub has_admin : Option WorkspaceRole → Bool
has_admin none = false
has_admin (some role) = is_admin role

unfoldable pub remove : Uuid → Uuid → Uuid → Uuid → Uuid → Option WorkspaceRole → Exec (Unit {0})
remove workspace_id project_id task_id comment_id actor_id actor_role = do
  comment ← find_one_or_fail workspace_id project_id task_id comment_id
  throw_if (not (comment.author_id == actor_id) && not (has_admin actor_role))
      (forbidden "Only the author or a workspace admin can delete this comment")
  modify (delete_comment comment.id)
