-- ===== src/Tasks/Tenancy/Requests.antt =====
-- modules/tasks/tasks.service.ts and modules/projects/projects.service.ts: each writing method stays
-- within the workspace that it is called for.
use task_scheduling_platform.Base.{
  suc, ◌≡◌, refl, ap, ◌∙◌, Option, none, some, [], ◌∷◌, ◌++◌, arith, ◌==◌, ◌⊎◌, inl, inr, In,
  In-find, In-find_one, Option-cases, save_row, find, find_one, length,
}
use task_scheduling_platform.Http.{Result, ok, err, Result-cases}
use task_scheduling_platform.World.{Uuid, Stamp, Instant, Micros, Task, Project, World}
use task_scheduling_platform.World.Tree.{children, levels}
use task_scheduling_platform.World.Cascade.{delete_task, delete_project}
use task_scheduling_platform.Projects
use task_scheduling_platform.Tasks.{
  CreateTaskDto, UpdateTaskDto, edited, new_task, check_move, create, update, move_task, remove,
  find_one_or_fail,
}
use task_scheduling_platform.Tasks.Scope.{IsProjectOf, find_one_or_fail-IsProjectOf}
use task_scheduling_platform.Tasks.Invariant.{IsWell}
use task_scheduling_platform.Tasks.Steps.{
  find_one_or_fail-IsQuery, update_failed, update_found, remove_failed, remove_found,
}
use task_scheduling_platform.Tasks.Tenancy.{
  Isolates, same-Isolates, append-Isolates, save-Isolates, delete-Isolates, gone-project,
}

find_project :
    (workspace_id project_id : Uuid) (w : World) (p : Project)
    → find_one (Projects.in_workspace workspace_id project_id) w.projects ≡ some p
    → (p.id ≡ project_id) × IsProjectOf workspace_id project_id w
find_project workspace_id project_id w p found =
    let (m, e) = In-find_one (Projects.in_workspace workspace_id project_id) w.projects found in
    (ground arith, (p, m, ground arith, ground arith))

create_tasks :
    (stamp : Stamp) (workspace_id project_id user_id : Uuid) (dto : CreateTaskDto) (w : World)
    → let w' : World = (create stamp workspace_id project_id user_id dto w).1 in
      (w'.tasks ≡ w.tasks)
      ⊎ ((w'.tasks ≡ w.tasks ++ new_task stamp project_id user_id dto ∷ [])
          × IsProjectOf workspace_id project_id w)
unfolding create Projects.find_one_or_fail
create_tasks stamp workspace_id project_id user_id dto w =
    elim (Option-cases (find_one (Projects.in_workspace workspace_id project_id) w.projects)) [
      | inl missing ↦ inl (ground arith)
      | inr (p, found) ↦
          let (_, mine) = find_project workspace_id project_id w p found in ground arith
    ]

module _ (workspace_id project_id : Uuid) (w : World) (well : IsWell w.tasks) where
  pub create-Isolates :
      (stamp : Stamp) (user_id : Uuid) (dto : CreateTaskDto)
      → Isolates workspace_id w (create stamp workspace_id project_id user_id dto w).1
  create-Isolates stamp user_id dto =
      let w' : World = (create stamp workspace_id project_id user_id dto w).1 in
      elim (create_tasks stamp workspace_id project_id user_id dto w) [
        | inl same ↦ same-Isolates workspace_id w w' same
        | inr (written, mine) ↦
            append-Isolates workspace_id w w' (new_task stamp project_id user_id dto) mine written
      ]

  module _ (task_id : Uuid) where
    abbrev read : Result Task × World
    read = find_one_or_fail workspace_id project_id task_id w

    scope :
        (task : Task)
        → read.0 ≡ ok task
        → In task w.tasks
          × (task.id ≡ task_id)
          × (task.project_id ≡ project_id)
          × IsProjectOf workspace_id project_id w
    scope task h =
        let (m, e, p, mine, _) =
          find_one_or_fail-IsProjectOf workspace_id project_id task_id w read.1 task
            (λ i. (h i, read.1)) in
        (m, e, p, mine)

    pub update-Isolates :
        (now : Instant) (at : Micros) (user_id : Uuid) (dto : UpdateTaskDto)
        → Isolates workspace_id w (update now at workspace_id project_id task_id user_id dto w).1
    update-Isolates now at user_id dto =
        let w' : World = (update now at workspace_id project_id task_id user_id dto w).1 in
        elim (Result-cases read.0) [
          | inr (e, failed) ↦
              same-Isolates workspace_id w w'
                (update_failed workspace_id project_id task_id w now at user_id dto e failed)
          | inl (task, found) ↦
              let (m, _, project, mine) = scope task found in
              elim (update_found workspace_id project_id task_id w now at user_id dto task found) [
                | inl same ↦ same-Isolates workspace_id w w' same
                | inr written ↦
                    save-Isolates workspace_id w w' task (edited dto now at task) well.keyed m
                      (rw project mine) refl refl written
              ]
        ]

    move_found :
        (at : Micros) (new_parent_id : Option Uuid) (task : Task)
        → read.0 ≡ ok task
        → let w' : World = (move_task at workspace_id project_id task_id new_parent_id w).1 in
          (w'.tasks ≡ w.tasks)
          ⊎ (w'.tasks
              ≡ save_row
                  (λ t. t.id)
                  (record task { parent_task_id = new_parent_id; updated_at = at })
                  w.tasks)
    unfolding move_task check_move
    move_found at none task h =
        ground (arith, find_one_or_fail-IsQuery workspace_id project_id task_id w)
    move_found at (some p) task h =
        ground (arith, find_one_or_fail-IsQuery workspace_id project_id task_id w)

    move_failed :
        (at : Micros) (new_parent_id : Option Uuid) {e : _}
        → read.0 ≡ err e
        → (move_task at workspace_id project_id task_id new_parent_id w).1.tasks ≡ w.tasks
    unfolding move_task
    move_failed at new_parent_id h =
        ground (arith, find_one_or_fail-IsQuery workspace_id project_id task_id w)

    pub move_task-Isolates :
        (at : Micros) (new_parent_id : Option Uuid)
        → Isolates workspace_id w (move_task at workspace_id project_id task_id new_parent_id w).1
    move_task-Isolates at new_parent_id =
        let w' : World = (move_task at workspace_id project_id task_id new_parent_id w).1 in
        elim (Result-cases read.0) [
          | inr (e, failed) ↦ same-Isolates workspace_id w w' (move_failed at new_parent_id failed)
          | inl (task, found) ↦
              let (m, _, project, mine) = scope task found in
              elim (move_found at new_parent_id task found) [
                | inl same ↦ same-Isolates workspace_id w w' same
                | inr written ↦
                    save-Isolates workspace_id w w' task
                      (record task { parent_task_id = new_parent_id; updated_at = at }) well.keyed m
                      (rw project mine) refl refl written
              ]
        ]

    pub remove-Isolates : Isolates workspace_id w (remove workspace_id project_id task_id w).1
    unfolding delete_task
    remove-Isolates =
        let w' : World = (remove workspace_id project_id task_id w).1 in
        elim (Result-cases read.0) [
          | inr (e, failed) ↦
              same-Isolates workspace_id w w'
                (remove_failed workspace_id project_id task_id w e failed)
          | inl (task, found) ↦
              let (m, _, project, mine) = scope task found in
              let tops = find (λ t. t.id == task.id) w.tasks in
              delete-Isolates workspace_id w w'
                (levels (suc (length w.tasks)) (children w.tasks) 0 tops)
                (λ t k gone.
                  let in_project : t.project_id ≡ project_id =
                    gone-project w.tasks well project_id tops t
                      (λ x a.
                        let (b, e) = In-find (λ t. t.id == task.id) w.tasks a in
                        (
                          b,
                          ap (λ (z : Task). z.project_id) (well.keyed x task b m (ground arith))
                              ∙ project,
                        ))
                      k gone in
                  rw in_project mine)
                (ap (λ (v : World). v.tasks)
                  (remove_found workspace_id project_id task_id w task found))
        ]

  pub remove_project-Isolates :
      Isolates workspace_id w (Projects.remove workspace_id project_id w).1
  unfolding delete_project Projects.remove Projects.find_one_or_fail
  remove_project-Isolates =
      let w' : World = (Projects.remove workspace_id project_id w).1 in
      elim (Option-cases (find_one (Projects.in_workspace workspace_id project_id) w.projects)) [
        | inl missing ↦ same-Isolates workspace_id w w' (ground arith)
        | inr (p, found) ↦
            let (same, mine) = find_project workspace_id project_id w p found in
            let tops = find (λ t. t.project_id == project_id) w.tasks in
            delete-Isolates workspace_id w w'
              (levels (suc (length w.tasks)) (children w.tasks) 0 tops)
              (λ t k gone.
                let in_project : t.project_id ≡ project_id =
                  gone-project w.tasks well project_id tops t
                    (λ x a.
                      let (b, e) = In-find (λ t. t.project_id == project_id) w.tasks a in
                      (b, ground arith))
                    k gone in
                rw in_project mine)
              (rw (found, same) refl)
      ]
