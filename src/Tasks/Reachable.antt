-- ===== src/Tasks/Reachable.antt =====
-- The invariant of the tasks over sequences of requests.
use task_scheduling_platform.Base.{
  ◌≡◌, ◌⊎◌, sym, subst, Bool, true, Option, none, some, [], ◌∷◌, ◌++◌, arith, inl, inr, is_some,
}
use task_scheduling_platform.World.{Uuid, Instant, Stamp, World}
use task_scheduling_platform.Exec.{>>=-pure}
use task_scheduling_platform.Tasks.{
  CreateTaskDto, find_task, new_task, create, update, move_task, remove,
}
use task_scheduling_platform.Tasks.Moves.{find_task-HasParent}
use task_scheduling_platform.Tasks.Invariant.{IsWell, HasParent, append-IsWell}
use task_scheduling_platform.Tasks.Commands.{
  Command, create_task, update_task, move, remove_task, execute, IsFresh, serve, Reach, start, next,
}
use task_scheduling_platform.Tasks.Steps.{update-IsWell, remove-IsWell, move_task-IsWell}

-- The parent that a body names is in the project.
unfoldable pub parent_found : Uuid → Option Uuid → World → Bool
parent_found project_id none w = true
parent_found project_id (some p) w = is_some (find_task project_id p w)

module _ (stamp : Stamp) (workspace_id project_id created_by : Uuid) (dto : CreateTaskDto)
    (w : World) where
  pub create_cases :
      ((create stamp workspace_id project_id created_by dto w).1.tasks ≡ w.tasks)
      ⊎ ((create stamp workspace_id project_id created_by dto w).1.tasks
          ≡ w.tasks ++ new_task stamp project_id created_by dto ∷ [])
        × (parent_found project_id dto.parent_task_id w ≡ true)
  unfolding create parent_found
  create_cases = ground arith

  parent_found-HasParent :
      (parent : Option Uuid) (p : Uuid)
      → parent_found project_id parent w ≡ true
      → parent ≡ some p
      → HasParent w.tasks project_id p
  unfolding parent_found
  parent_found-HasParent none p h e = cc
  parent_found-HasParent (some q) p h e =
      let same : q ≡ p = cc e in find_task-HasParent project_id p w (rw same at h)

  create-IsWell :
      IsFresh stamp w
      → IsWell w.tasks
      → IsWell (create stamp workspace_id project_id created_by dto w).1.tasks
  create-IsWell fresh well = elim create_cases [
    | inl same ↦ subst IsWell (sym same) well
    | inr (written, found) ↦ subst IsWell (sym written) (
        append-IsWell w.tasks (new_task stamp project_id created_by dto) fresh
          (λ p. parent_found-HasParent dto.parent_task_id p found) well)
  ]

execute-IsWell :
    (stamp : Stamp) (now : Instant) (command : Command) (w : World)
    → IsFresh stamp w
    → IsWell w.tasks
    → IsWell (execute stamp now command w).1.tasks
unfolding execute
execute-IsWell stamp now (create_task workspace_id project_id user_id dto) w fresh well =
    subst (λ (v : World). IsWell v.tasks)
      (sym (>>=-pure (create stamp workspace_id project_id user_id dto) some w))
      (create-IsWell stamp workspace_id project_id user_id dto w fresh well)
execute-IsWell stamp now (update_task workspace_id project_id task_id user_id dto) w fresh well =
    subst (λ (v : World). IsWell v.tasks)
      (sym (>>=-pure (update now stamp.at workspace_id project_id task_id user_id dto) some w))
      (update-IsWell workspace_id project_id task_id w now stamp.at user_id dto well)
execute-IsWell stamp now (move workspace_id project_id task_id parent_task_id) w fresh well =
    subst (λ (v : World). IsWell v.tasks)
      (sym (>>=-pure (move_task stamp.at workspace_id project_id task_id parent_task_id) some w))
      (move_task-IsWell workspace_id project_id task_id w stamp.at parent_task_id well)
execute-IsWell stamp now (remove_task workspace_id project_id task_id) w fresh well =
    subst (λ (v : World). IsWell v.tasks)
      (sym (>>=-pure (remove workspace_id project_id task_id) (λ _. none) w))
      (remove-IsWell workspace_id project_id task_id w well)

-- Whatever requests are served, in any order and with any outcome, the tasks stay a forest: no task
-- is its own ancestor, ids stay unique, and every parent is a task of the same project. It must be so
-- at the start, and each new row get an id that no row has.
pub Reach-IsWell : (w v : World) → IsWell w.tasks → Reach w v → IsWell v.tasks
Reach-IsWell w v well start = well
Reach-IsWell w v well (next {v = u} reached (serve stamp now command fresh)) =
    execute-IsWell stamp now command u fresh (Reach-IsWell w u well reached)
