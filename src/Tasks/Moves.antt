-- ===== src/Tasks/Moves.antt =====
-- What a successful `moveTask` has checked, and what it writes.
use task_scheduling_platform.Base.{
  ◌+◌, ◌≤◌, ◌≡◌, sym, is_some, true, false, none, some, List, arith, In, In-find_one, save_row, inl,
  inr, Option-cases,
}
use task_scheduling_platform.Http.{ok}
use task_scheduling_platform.World.{Uuid, Micros, Task, World}
use task_scheduling_platform.World.Tree.{descendants}
use task_scheduling_platform.Exec.{>>=-eq-ok}
use mathlib.Core.Path.{subst₂}
use task_scheduling_platform.Tasks.Invariant.{HasParent}
use task_scheduling_platform.Tasks.{
  in_project, find_task, max_depth, max_of, depth_of, is_among, find_one_or_fail, check_move,
  move_task, save_task,
}

-- A task that `findOneOrFail` returns is in the table, under that id, in that project.
pub find_one_or_fail-ok :
    (workspace_id project_id task_id : Uuid) (w w' : World) (task : Task)
    → find_one_or_fail workspace_id project_id task_id w ≡ (ok task, w')
    → In task w.tasks × (task.id ≡ task_id) × (task.project_id ≡ project_id) × (w' ≡ w)
unfolding find_one_or_fail
find_one_or_fail-ok workspace_id project_id task_id w w' task h =
    let found : find_task project_id task_id w ≡ some task = ground arith in
    let (m, e) = In-find_one (in_project project_id task_id) w.tasks found in
    (m, ground arith, ground arith, ground arith)

-- The move of `task` under `parent_id`, as it is written.
pub record IsMove (tasks tasks' : List Task) (task_id parent_id : Uuid) (task moved : Task)
    : Type 0 where
  pub member : In task tasks
  pub named : task.id ≡ task_id
  pub keeps_id : moved.id ≡ task_id
  pub keeps_project : moved.project_id ≡ task.project_id
  pub parent : moved.parent_task_id ≡ some parent_id
  pub adopted : HasParent tasks task.project_id parent_id
  pub apart : is_among parent_id (descendants tasks task_id) ≡ false
  pub shallow : depth_of tasks parent_id + 1 + max_of (descendants tasks task_id) ≤ max_depth
  pub written : tasks' ≡ save_row (λ t. t.id) moved tasks

check_move-ok :
    (project_id task_id parent_id : Uuid) (w w' : World) (u : Unit {0})
    → check_move project_id task_id parent_id w ≡ (ok u, w')
    → (w' ≡ w)
      × (is_some (find_task project_id parent_id w) ≡ true)
      × (is_among parent_id (descendants w.tasks task_id) ≡ false)
      × (depth_of w.tasks parent_id + 1 + max_of (descendants w.tasks task_id) ≤ max_depth)
unfolding check_move
check_move-ok project_id task_id parent_id w w' u h = ground arith

save_task-ok :
    (task saved : Task) (w w' : World)
    → save_task task w ≡ (ok saved, w')
    → (saved ≡ task) × (w'.tasks ≡ save_row (λ t. t.id) task w.tasks)
save_task-ok task saved w w' h = ground arith

pub find_task-HasParent :
    (project_id parent_id : Uuid) (w : World)
    → is_some (find_task project_id parent_id w) ≡ true
    → HasParent w.tasks project_id parent_id
find_task-HasParent project_id parent_id w h =
    elim (Option-cases (find_task project_id parent_id w)) [
      | inl missing ↦ cc
      | inr (x, found) ↦
          let (m, e) = In-find_one (in_project project_id parent_id) w.tasks found in
          (x, m, ground arith, ground arith)
    ]

pub move_task-IsMove :
    (at : Micros) (workspace_id project_id task_id parent_id : Uuid) (w w' : World) (moved : Task)
    → move_task at workspace_id project_id task_id (some parent_id) w ≡ (ok moved, w')
    → (task : Task) × IsMove w.tasks w'.tasks task_id parent_id task moved
unfolding move_task
move_task-IsMove at workspace_id project_id task_id parent_id w w' moved h =
    let (task, v, found, h') =
      >>=-eq-ok (find_one_or_fail workspace_id project_id task_id) _ w w' h in
    let (u, v', checked, h'') = >>=-eq-ok (check_move project_id task_id parent_id) _ v w' h' in
    let (member, named, project, same) =
      find_one_or_fail-ok workspace_id project_id task_id w v task found in
    let (same', known, apart, shallow) =
      check_move-ok project_id task_id parent_id v v' u checked in
    let (result, written) = save_task-ok _ moved v' w' h'' in
    (
      task,
      record {
        member = member;
        named = named;
        keeps_id = ground arith;
        keeps_project = ground arith;
        adopted =
            subst₂ (λ v k. HasParent v.tasks k parent_id) same (sym project)
              (find_task-HasParent project_id parent_id v known);
        parent = ground arith;
        apart = rw same at apart;
        shallow = rw same at shallow;
        written = ground arith;
      },
    )

-- A move to the top level.
pub move_task_top-ok :
    (at : Micros) (workspace_id project_id task_id : Uuid) (w w' : World) (moved : Task)
    → move_task at workspace_id project_id task_id none w ≡ (ok moved, w')
    → (task : Task) × In task w.tasks
      × (w'.tasks
          ≡ save_row (λ t. t.id) (record task { parent_task_id = none; updated_at = at }) w.tasks)
unfolding move_task
move_task_top-ok at workspace_id project_id task_id w w' moved h =
    let (task, v, found, h') =
      >>=-eq-ok (find_one_or_fail workspace_id project_id task_id) _ w w' h in
    let (member, _, _, same) = find_one_or_fail-ok workspace_id project_id task_id w v task found in
    (task, member, ground arith)
