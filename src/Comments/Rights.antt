-- ===== src/Comments/Rights.antt =====
-- modules/comments/comments.service.ts: who may change a comment.
use task_scheduling_platform.Base.{String, ◌≡◌, some, arith, In, In-find_one, save_row}
use task_scheduling_platform.Http.{ok}
use task_scheduling_platform.World.{Uuid, Instant, Micros, Comment, World}
use task_scheduling_platform.Exec.{>>=-eq-ok}
use task_scheduling_platform.Comments.{find_one_or_fail, update, on_task, find_comment}
use task_scheduling_platform.Tasks

find_one_or_fail_found :
    (workspace_id project_id task_id comment_id : Uuid) (w w' : World) (c : Comment)
    → find_one_or_fail workspace_id project_id task_id comment_id w ≡ (ok c, w')
    → (w' ≡ w) × (find_comment task_id comment_id w ≡ some c)
unfolding find_one_or_fail Tasks.find_one_or_fail
find_one_or_fail_found workspace_id project_id task_id comment_id w w' c h =
    let found : find_comment task_id comment_id w ≡ some c = ground arith in (ground arith, found)

-- An edit that succeeded was made by the author: it replaces the body, notes the time, and changes
-- neither the author, the task nor the parent comment; no other table changes.
pub update-author_id :
    (now : Instant) (at : Micros) (workspace_id project_id task_id comment_id actor_id : Uuid)
    (body : String) (w w' : World) (saved : Comment)
    → update now at workspace_id project_id task_id comment_id actor_id body w ≡ (ok saved, w')
    → (old : Comment) × In old w.comments
      × (old.id ≡ comment_id)
      × (old.author_id ≡ actor_id)
      × (saved ≡ record old { body = body; edited_at = some now; updated_at = at })
      × (w' ≡ record w { comments = save_row (λ c. c.id) saved w.comments })
unfolding update
update-author_id now at workspace_id project_id task_id comment_id actor_id body w w' saved h =
    let (old, v, read, h') =
      >>=-eq-ok (find_one_or_fail workspace_id project_id task_id comment_id) _ w w' h in
    let (same, found) =
      find_one_or_fail_found workspace_id project_id task_id comment_id w v old read in
    let (m, e) = In-find_one (on_task task_id comment_id) w.comments found in
    (old, m, ground arith, ground arith, ground arith, ground arith)
