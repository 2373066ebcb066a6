-- ===== src/World/Cascade.antt =====
-- What `ON DELETE CASCADE` of the migrations removes with a row: a task takes its subtasks, comments,
-- activity and reminders with it, a project its tasks, and a comment its replies.
use task_scheduling_platform.Base.{
  ℕ, suc, Bool, some, List, ◌==◌, ◌=?◌, find, exists, delete_where, length,
}
use task_scheduling_platform.World.Accounts.{Uuid}
use task_scheduling_platform.World.Work.{Task, Comment}
use task_scheduling_platform.World.State.{World}
use task_scheduling_platform.World.Tree.{levels, children}

-- `id` is the id of one of the rows.
abbrev pub has_task : List (Task × ℕ) → Uuid → Bool
has_task rows id = exists (λ r. (r.0).id == id) rows

abbrev pub has_comment : List (Comment × ℕ) → Uuid → Bool
has_comment rows id = exists (λ r. (r.0).id == id) rows

-- The rows that go with those in `gone`. A reply stands on the task of the comment that it answers
-- (CommentsService.create), so no reply on another task is left.
abbrev delete_task_rows : List (Task × ℕ) → World → World
delete_task_rows gone w = record w {
  tasks = delete_where (λ t. has_task gone t.id) w.tasks;
  comments = delete_where (λ c. has_task gone c.task_id) w.comments;
  activity = delete_where (λ a. has_task gone a.task_id) w.activity;
  reminders = delete_where (λ r. has_task gone r.task_id) w.reminders;
}

unfoldable pub delete_task : Uuid → World → World
unfolding levels
delete_task id w =
    delete_task_rows
      (levels (suc (length w.tasks)) (children w.tasks) 0 (find (λ t. t.id == id) w.tasks)) w

unfoldable pub delete_project : Uuid → World → World
unfolding levels
delete_project id w =
    let w' =
      delete_task_rows
        (levels (suc (length w.tasks)) (children w.tasks) 0
          (find (λ t. t.project_id == id) w.tasks))
        w in
    record w' { projects = delete_where (λ p. p.id == id) w.projects }

abbrev pub replies : List Comment → Comment → List Comment
replies comments c = find (λ r. r.parent_comment_id =? some c.id) comments

unfoldable pub delete_comment : Uuid → World → World
unfolding levels
delete_comment id w =
    let gone =
      levels (suc (length w.comments)) (replies w.comments) 0 (find (λ c. c.id == id) w.comments) in
    record w { comments = delete_where (λ c. has_comment gone c.id) w.comments }
