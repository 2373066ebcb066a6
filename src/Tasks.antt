-- ===== src/Tasks.antt =====
-- modules/tasks/tasks.service.ts: the methods of TasksService other than `getSubtree`, which is in
-- Tasks/Subtree.antt. The recursive queries are in World/Tree.antt.
mod Tests
pub mod Moves
pub mod Depth
pub mod Reachable
pub mod Commands
pub mod Steps
pub mod Invariant
pub mod Cycles
pub mod Completion
pub mod Announcements
pub mod Removal
pub mod Scope
pub mod Nesting
pub mod Tenancy
pub mod Subtree
use task_scheduling_platform.Base.{
  ℕ, suc, ◌+◌, String, Bool, true, false, not, ◌&&◌, ◌||◌, Option, none, some, List, [], ◌∷◌, ◌++◌,
  ltb, ◌==◌, ◌=?◌, if◌then◌else◌, or_else, or_some, is_some, find_one, exists, save_row,
}
use Prim.Native.Nat.{max}
use task_scheduling_platform.Http.{Result, bad_request, not_found, internal}
use task_scheduling_platform.World.{Uuid, Instant, Micros, Stamp, User, Task, World}
use task_scheduling_platform.World.Work.{
  TaskStatus, todo, TaskPriority, medium, same_status, same_priority, is_done,
}
use task_scheduling_platform.World.Events.{
  task_created, task_assigned, task_status_changed, task_completed,
}
use task_scheduling_platform.World.Tree.{descendants, ancestors}
use task_scheduling_platform.World.Cascade.{delete_task}
use task_scheduling_platform.Exec.{
  Exec, ◌>>=◌, ◌>>◌, pure, gets, modify, or_throw, throw_if, lift, emit,
}
use task_scheduling_platform.Pagination.{Page, list_page}
use task_scheduling_platform.Pagination.Cursor.{Text, Codec}
use task_scheduling_platform.Projects

-- Max nesting depth (root = 0).
abbrev pub max_depth : ℕ
max_depth = 5

pub record CreateTaskDto : Type 0 where
  pub title : String
  pub description : Option String
  pub priority : Option TaskPriority
  pub assignee_id : Option Uuid
  pub due_date : Option Instant
  pub parent_task_id : Option Uuid

-- The outer option is undefined or not, the inner one null or not.
pub record UpdateTaskDto : Type 0 where
  pub title : Option String
  pub description : Option (Option String)
  pub status : Option TaskStatus
  pub priority : Option TaskPriority
  pub assignee_id : Option (Option Uuid)
  pub due_date : Option (Option Instant)

pub record ListTasksQueryDto : Type 0 where
  pub limit : Option ℕ
  pub cursor : Option Text
  pub status : Option TaskStatus
  pub priority : Option TaskPriority
  pub assignee_id : Option Uuid
  pub parent_task_id : Option Uuid
  pub top_level : Bool

-- `where: { id, projectId }`
abbrev pub in_project : Uuid → Uuid → Task → Bool
in_project project_id task_id t = t.id == task_id && t.project_id == project_id

abbrev pub find_task : Uuid → Uuid → World → Option Task
find_task project_id task_id w = find_one (in_project project_id task_id) w.tasks

-- `FK_tasks_assignee`: an assignee is null or a row of `users`.
abbrev pub known_user : World → Option Uuid → Bool
known_user w none = true
known_user w (some id) = exists (λ u. u.id == id) w.users

abbrev check_assignee : Option Uuid → Exec (Unit {0})
check_assignee assignee_id = do
  known ← gets (λ w. known_user w assignee_id)
  throw_if (not known) (internal "violates foreign key constraint FK_tasks_assignee")

abbrev check_parent : Uuid → Option Uuid → Exec (Unit {0})
check_parent project_id none = pure tt
check_parent project_id (some parent_id) = do
  parent ← gets (find_task project_id parent_id)
  throw_if (not (is_some parent)) (bad_request "Parent task not found in this project")

abbrev emit_assigned : Uuid → Option Uuid → Uuid → Exec (Unit {0})
emit_assigned task_id none actor_id = pure tt
emit_assigned task_id (some assignee_id) actor_id =
    emit
      (task_assigned (record { task_id = task_id; assignee_id = assignee_id; actor_id = actor_id }))

abbrev pub new_task : Stamp → Uuid → Uuid → CreateTaskDto → Task
new_task stamp project_id created_by dto = record {
  id = stamp.id;
  project_id = project_id;
  parent_task_id = dto.parent_task_id;
  title = dto.title;
  description = dto.description;
  status = todo;
  priority = or_else dto.priority medium;
  assignee_id = dto.assignee_id;
  created_by = created_by;
  due_date = dto.due_date;
  completed_at = none;
  created_at = stamp.at;
  updated_at = stamp.at;
}

unfoldable pub create : Stamp → Uuid → Uuid → Uuid → CreateTaskDto → Exec Task
unfolding Projects.find_one_or_fail
create stamp workspace_id project_id created_by dto = do
  Projects.find_one_or_fail workspace_id project_id
  check_parent project_id dto.parent_task_id
  check_assignee dto.assignee_id
  let task = new_task stamp project_id created_by dto
  modify (λ w. record w { tasks = w.tasks ++ task ∷ [] })
  emit (task_created (record { task_id = task.id; project_id = project_id; actor_id = created_by }))
  emit_assigned task.id task.assignee_id created_by
  pure task

abbrev status_is : Option TaskStatus → Task → Bool
status_is none t = true
status_is (some s) t = same_status t.status s

abbrev priority_is : Option TaskPriority → Task → Bool
priority_is none t = true
priority_is (some p) t = same_priority t.priority p

abbrev assignee_is : Option Uuid → Task → Bool
assignee_is none t = true
assignee_is (some a) t = t.assignee_id =? some a

abbrev parent_is : Option Uuid → Bool → Task → Bool
parent_is (some p) top_level t = t.parent_task_id =? some p
parent_is none true t = not (is_some t.parent_task_id)
parent_is none false t = true

-- the `where` clauses of `list`
abbrev pub listed : Uuid → ListTasksQueryDto → Task → Bool
listed project_id query t =
    t.project_id == project_id
    && status_is query.status t
    && priority_is query.priority t
    && assignee_is query.assignee_id t
    && parent_is query.parent_task_id query.top_level t

unfoldable pub list : Codec → Uuid → Uuid → ListTasksQueryDto → Exec (Page Task)
unfolding Projects.find_one_or_fail
list codec workspace_id project_id query = do
  Projects.find_one_or_fail workspace_id project_id
  page ← gets (λ w.
      list_page codec (λ t. t.created_at) (λ t. t.id) (listed project_id query)
        (or_else query.limit 20) query.cursor w.tasks)
  lift page

unfoldable pub find_one_or_fail : Uuid → Uuid → Uuid → Exec Task
unfolding Projects.find_one_or_fail
find_one_or_fail workspace_id project_id task_id = do
  Projects.find_one_or_fail workspace_id project_id
  found ← gets (find_task project_id task_id)
  or_throw (not_found "Task not found") found

-- `task.status = …; task.completedAt = dto.status === DONE ? new Date() : null`, if a status is given
abbrev pub completed : Option TaskStatus → Instant → Task → Option Instant
completed none now t = t.completed_at
completed (some s) now t = if is_done s then some now else none

-- `at` is the `updated_at` of the row after the save, which stays where nothing has changed.
abbrev pub edited : UpdateTaskDto → Instant → Micros → Task → Task
edited dto now at t = record t {
  title = or_else dto.title t.title;
  description = or_else dto.description t.description;
  priority = or_else dto.priority t.priority;
  assignee_id = or_else dto.assignee_id t.assignee_id;
  due_date = or_else dto.due_date t.due_date;
  status = or_else dto.status t.status;
  completed_at = completed dto.status now t;
  updated_at = at;
}

-- `save` of a task that was read before
abbrev pub save_task : Task → Exec Task
save_task task = do
  check_assignee task.assignee_id
  modify (λ w. record w { tasks = save_row (λ t. t.id) task w.tasks })
  pure task

abbrev emit_reassigned : Option (Option Uuid) → Option Uuid → Task → Uuid → Exec (Unit {0})
emit_reassigned none prev saved actor_id = pure tt
emit_reassigned (some given) prev saved actor_id =
    if given =? prev then pure tt else emit_assigned saved.id saved.assignee_id actor_id

abbrev emit_completed : Task → Uuid → Exec (Unit {0})
emit_completed saved actor_id =
    if is_done saved.status
    then emit (
        task_completed
          (record { task_id = saved.id; actor_id = actor_id; creator_id = some saved.created_by }))
    else pure tt

abbrev emit_status : Option TaskStatus → TaskStatus → Task → Uuid → Exec (Unit {0})
emit_status none prev saved actor_id = pure tt
emit_status (some given) prev saved actor_id = if same_status given prev then pure tt else do
  emit (
      task_status_changed
        (record { task_id = saved.id; from = prev; to = saved.status; actor_id = actor_id }))
  emit_completed saved actor_id

unfoldable pub update : Instant → Micros → Uuid → Uuid → Uuid → Uuid → UpdateTaskDto → Exec Task
update now at workspace_id project_id task_id actor_id dto = do
  task ← find_one_or_fail workspace_id project_id task_id
  saved ← save_task (edited dto now at task)
  emit_reassigned dto.assignee_id task.assignee_id saved actor_id
  emit_status dto.status task.status saved actor_id
  pure saved

unfoldable pub remove : Uuid → Uuid → Uuid → Exec (Unit {0})
remove workspace_id project_id task_id = do
  task ← find_one_or_fail workspace_id project_id task_id
  modify (delete_task task.id)

-- `MAX(depth)` of the rows, 0 if there are none
abbrev pub max_of : List (Task × ℕ) → ℕ
max_of [] = 0
max_of (r ∷ rows) = max r.1 (max_of rows)

unfoldable pub depth_of : List Task → Uuid → ℕ
depth_of tasks task_id = max_of (ancestors tasks task_id)

abbrev pub is_among : Uuid → List (Task × ℕ) → Bool
is_among id rows = exists (λ r. (r.0).id == id) rows

-- `parentDepth + 1 + subtreeHeight > MAX_DEPTH`
abbrev pub too_deep : List Task → Uuid → Uuid → Bool
too_deep tasks task_id parent_id =
    ltb max_depth (depth_of tasks parent_id + 1 + max_of (descendants tasks task_id))

-- The guards of `moveTask` on a new parent.
unfoldable pub check_move : Uuid → Uuid → Uuid → Exec (Unit {0})
check_move project_id task_id parent_id = do
  throw_if (parent_id == task_id) (bad_request "A task cannot be its own parent")
  new_parent ← gets (find_task project_id parent_id)
  throw_if (not (is_some new_parent)) (bad_request "New parent task not found in this project")
  tasks ← gets (λ w. w.tasks)
  throw_if (is_among parent_id (descendants tasks task_id))
      (bad_request "Cannot move a task underneath its own descendant (would create a cycle)")
  throw_if (too_deep tasks task_id parent_id)
      (bad_request "Maximum nesting depth of 5 would be exceeded")

abbrev check_new_parent : Uuid → Uuid → Option Uuid → Exec (Unit {0})
check_new_parent project_id task_id none = pure tt
check_new_parent project_id task_id (some parent_id) = check_move project_id task_id parent_id

unfoldable pub move_task : Micros → Uuid → Uuid → Uuid → Option Uuid → Exec Task
unfolding check_move
move_task at workspace_id project_id task_id new_parent_id = do
  task ← find_one_or_fail workspace_id project_id task_id
  check_new_parent project_id task_id new_parent_id
  save_task (record task { parent_task_id = new_parent_id; updated_at = at })
