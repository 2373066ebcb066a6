-- ===== src/Tasks/Completion.antt =====
-- modules/tasks/tasks.service.ts: `status` and `completedAt`, and the events that report them.
use task_scheduling_platform.Base.{
  ◌≡◌, ◌⊎◌, refl, sym, subst, Bool, not, Option, none, some, List, arith, In, In-snoc, In-save_row,
  In-find, inl, inr, ◌==◌, is_some, save_row, delete_where, suc, length, find,
}
use task_scheduling_platform.Http.{ok, err, HttpException, Result-cases}
use task_scheduling_platform.World.{Uuid, Instant, Micros, Stamp, Task, World}
use task_scheduling_platform.World.Work.{is_done}
use task_scheduling_platform.Exec.{>>=-pure}
use task_scheduling_platform.Tasks.{
  CreateTaskDto, UpdateTaskDto, new_task, edited, find_one_or_fail, create, update, move_task,
  remove,
}
use task_scheduling_platform.Tasks.Steps.{
  find_one_or_fail-IsQuery, update_failed, update_found, read-ok, remove_failed, remove_found,
}
use task_scheduling_platform.Tasks.Reachable.{create_cases}
use task_scheduling_platform.World.Cascade.{delete_task, has_task}
use task_scheduling_platform.World.Tree.{levels, children}
use task_scheduling_platform.Tasks.{check_move}
use task_scheduling_platform.Tasks.Commands.{
  Command, create_task, update_task, move, remove_task, execute, serve, Reach, start, next,
}

-- A task is DONE exactly when it has a completion time.
abbrev pub IsStamped : Task → Type 0
IsStamped t = is_some t.completed_at ≡ is_done t.status

abbrev pub AllStamped : List Task → Type 0
AllStamped ts = (t : Task) → In t ts → IsStamped t

edited-IsStamped :
    (dto : UpdateTaskDto) (now : Instant) (at : Micros) (t : Task)
    → IsStamped t
    → IsStamped (edited dto now at t)
edited-IsStamped dto now at t h = ground arith

save-AllStamped :
    (saved : Task) (ts : List Task)
    → IsStamped saved
    → AllStamped ts
    → AllStamped (save_row (λ t. t.id) saved ts)
save-AllStamped saved ts s all t m = elim (In-save_row (λ t. t.id) saved ts t m) [
  | inl e ↦ rw e s
  | inr k ↦ all t k.0
]

delete-AllStamped :
    (p : Task → Bool) (ts : List Task) → AllStamped ts → AllStamped (delete_where p ts)
delete-AllStamped p ts all t m = all t (In-find (λ x. not (p x)) ts m).0

create-AllStamped :
    (stamp : Stamp) (workspace_id project_id created_by : Uuid) (dto : CreateTaskDto) (w : World)
    → AllStamped w.tasks
    → AllStamped (create stamp workspace_id project_id created_by dto w).1.tasks
create-AllStamped stamp workspace_id project_id created_by dto w all =
    elim (create_cases stamp workspace_id project_id created_by dto w) [
      | inl same ↦ subst AllStamped (sym same) all
      | inr (written, _) ↦ subst AllStamped (sym written) (λ t m.
          elim (In-snoc t (new_task stamp project_id created_by dto) w.tasks m) [
            | inl k ↦ all t k
            | inr e ↦ rw e refl
          ])
    ]

delete_task-AllStamped :
    (id : Uuid) (w : World) → AllStamped w.tasks → AllStamped (delete_task id w).tasks
unfolding delete_task
delete_task-AllStamped id w all =
    delete-AllStamped
      (λ t.
        has_task
          (levels (suc (length w.tasks)) (children w.tasks) 0 (find (λ t. t.id == id) w.tasks))
          t.id)
      w.tasks all

module _ (workspace_id project_id task_id : Uuid) (w : World) where
  update-AllStamped :
      (now : Instant) (at : Micros) (actor_id : Uuid) (dto : UpdateTaskDto)
      → AllStamped w.tasks
      → AllStamped (update now at workspace_id project_id task_id actor_id dto w).1.tasks
  update-AllStamped now at actor_id dto all =
      elim (Result-cases (find_one_or_fail workspace_id project_id task_id w).0) [
        | inr (e, h) ↦
            subst AllStamped
              (sym (update_failed workspace_id project_id task_id w now at actor_id dto e h)) all
        | inl (task, h) ↦
            elim (update_found workspace_id project_id task_id w now at actor_id dto task h) [
              | inl same ↦ subst AllStamped (sym same) all
              | inr written ↦ subst AllStamped (sym written) (
                  save-AllStamped (edited dto now at task) w.tasks
                    (edited-IsStamped dto now at task
                      (all task (read-ok workspace_id project_id task_id w task h).0))
                    all)
            ]
      ]

  remove-AllStamped :
      AllStamped w.tasks → AllStamped (remove workspace_id project_id task_id w).1.tasks
  remove-AllStamped all =
      elim (Result-cases (find_one_or_fail workspace_id project_id task_id w).0) [
        | inr (e, h) ↦
            subst AllStamped (sym (remove_failed workspace_id project_id task_id w e h)) all
        | inl (task, h) ↦
            subst (λ (v : World). AllStamped v.tasks)
              (sym (remove_found workspace_id project_id task_id w task h))
              (delete_task-AllStamped task.id w all)
      ]

  move_found :
      (at : Micros) (new_parent_id : Option Uuid) (task : Task)
      → (find_one_or_fail workspace_id project_id task_id w).0 ≡ ok task
      → ((move_task at workspace_id project_id task_id new_parent_id w).1.tasks ≡ w.tasks)
        ⊎ ((move_task at workspace_id project_id task_id new_parent_id w).1.tasks
            ≡ save_row
                (λ t. t.id)
                (record task { parent_task_id = new_parent_id; updated_at = at })
                w.tasks)
  unfolding move_task check_move
  move_found at none task h =
      ground (arith, find_one_or_fail-IsQuery workspace_id project_id task_id w)
  move_found at (some p) task h =
      ground (arith, find_one_or_fail-IsQuery workspace_id project_id task_id w)

  move_unfound :
      (at : Micros) (new_parent_id : Option Uuid) (e : HttpException)
      → (find_one_or_fail workspace_id project_id task_id w).0 ≡ err e
      → (move_task at workspace_id project_id task_id new_parent_id w).1.tasks ≡ w.tasks
  unfolding move_task
  move_unfound at new_parent_id e h =
      ground (arith, find_one_or_fail-IsQuery workspace_id project_id task_id w)

  move_task-AllStamped :
      (at : Micros) (new_parent_id : Option Uuid)
      → AllStamped w.tasks
      → AllStamped (move_task at workspace_id project_id task_id new_parent_id w).1.tasks
  move_task-AllStamped at new_parent_id all =
      elim (Result-cases (find_one_or_fail workspace_id project_id task_id w).0) [
        | inr (e, h) ↦ subst AllStamped (sym (move_unfound at new_parent_id e h)) all
        | inl (task, h) ↦ elim (move_found at new_parent_id task h) [
          | inl same ↦ subst AllStamped (sym same) all
          | inr written ↦ subst AllStamped (sym written) (
              save-AllStamped (record task { parent_task_id = new_parent_id; updated_at = at })
                w.tasks (all task (read-ok workspace_id project_id task_id w task h).0) all)
        ]
      ]

execute-AllStamped :
    (stamp : Stamp) (now : Instant) (command : Command) (w : World)
    → AllStamped w.tasks
    → AllStamped (execute stamp now command w).1.tasks
unfolding execute
execute-AllStamped stamp now (create_task workspace_id project_id user_id dto) w all =
    subst (λ (v : World). AllStamped v.tasks)
      (sym (>>=-pure (create stamp workspace_id project_id user_id dto) some w))
      (create-AllStamped stamp workspace_id project_id user_id dto w all)
execute-AllStamped stamp now (update_task workspace_id project_id task_id user_id dto) w all =
    subst (λ (v : World). AllStamped v.tasks)
      (sym (>>=-pure (update now stamp.at workspace_id project_id task_id user_id dto) some w))
      (update-AllStamped workspace_id project_id task_id w now stamp.at user_id dto all)
execute-AllStamped stamp now (move workspace_id project_id task_id parent_task_id) w all =
    subst (λ (v : World). AllStamped v.tasks)
      (sym (>>=-pure (move_task stamp.at workspace_id project_id task_id parent_task_id) some w))
      (move_task-AllStamped workspace_id project_id task_id w stamp.at parent_task_id all)
execute-AllStamped stamp now (remove_task workspace_id project_id task_id) w all =
    subst (λ (v : World). AllStamped v.tasks)
      (sym (>>=-pure (remove workspace_id project_id task_id) (λ _. none) w))
      (remove-AllStamped workspace_id project_id task_id w all)

-- Whatever requests are served, in any order and with any outcome, a task has a completion time
-- exactly while its status is DONE, if that was so at the start.
pub Reach-AllStamped : (w v : World) → AllStamped w.tasks → Reach w v → AllStamped v.tasks
Reach-AllStamped w v all start = all
Reach-AllStamped w v all (next {v = u} reached (serve stamp now command fresh)) =
    execute-AllStamped stamp now command u (Reach-AllStamped w u all reached)
