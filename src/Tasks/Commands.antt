-- ===== src/Tasks/Commands.antt =====
-- modules/tasks/tasks.controller.ts: the requests that write, as the controller passes them on.
use task_scheduling_platform.Base.{◌≢◌, Option, none, some, In}
use task_scheduling_platform.World.{Uuid, Instant, Stamp, Task, World}
use task_scheduling_platform.Exec.{Exec, ◌>>=◌, ◌>>◌, pure}
use task_scheduling_platform.Tasks.{CreateTaskDto, UpdateTaskDto, create, update, move_task, remove}

-- The path's ids, the caller's id and the body of a request.
pub data Command : Type 0 where
  create_task : (workspace_id project_id user_id : Uuid) → CreateTaskDto → Command
  update_task : (workspace_id project_id task_id user_id : Uuid) → UpdateTaskDto → Command
  move : (workspace_id project_id task_id : Uuid) → (parent_task_id : Option Uuid) → Command
  remove_task : (workspace_id project_id task_id : Uuid) → Command

-- `stamp` is what the database would give a new row, `now` the clock of the process.
unfoldable pub execute : Stamp → Instant → Command → Exec (Option Task)
execute stamp now (create_task workspace_id project_id user_id dto) = do
  task ← create stamp workspace_id project_id user_id dto
  pure (some task)
execute stamp now (update_task workspace_id project_id task_id user_id dto) = do
  task ← update now stamp.at workspace_id project_id task_id user_id dto
  pure (some task)
execute stamp now (move workspace_id project_id task_id parent_task_id) = do
  task ← move_task stamp.at workspace_id project_id task_id parent_task_id
  pure (some task)
execute stamp now (remove_task workspace_id project_id task_id) = do
  remove workspace_id project_id task_id
  pure none

-- A fresh id is the id of no task.
abbrev pub IsFresh : Stamp → World → Type 0
IsFresh stamp w = (t : Task) → In t w.tasks → t.id ≢ stamp.id

-- Requests in any order, each with any outcome.
pub data Step (w : World) : World → Type 0 where
  serve :
      (stamp : Stamp) (now : Instant) (command : Command)
      → IsFresh stamp w
      → Step w (execute stamp now command w).1

pub data Reach (w : World) : World → Type 0 where
  start : Reach w w
  next : {v u : World} → Reach w v → Step v u → Reach w u
