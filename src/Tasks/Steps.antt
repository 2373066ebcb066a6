-- ===== src/Tasks/Steps.antt =====
-- The methods of TasksService that write, in any order and with any outcome.
use task_scheduling_platform.Base.{
  ◌≡◌, ◌⊎◌, refl, sym, ◌∙◌, ap, subst, Option, none, some, arith, In, inl, inr, save_row,
  In-save_row,
}
use task_scheduling_platform.Http.{HttpException, Result, ok, err, Result-cases}
use task_scheduling_platform.World.{Uuid, Instant, Micros, Task, World}
use task_scheduling_platform.World.Tree.{descendants}
use task_scheduling_platform.World.Cascade.{delete_task, has_task}
use task_scheduling_platform.Exec.{IsQuery}
use task_scheduling_platform.Tasks.{
  UpdateTaskDto, edited, find_one_or_fail, update, remove, move_task, check_move,
}
use task_scheduling_platform.Tasks.Moves.{find_one_or_fail-ok, move_task-IsMove, move_task_top-ok}
use task_scheduling_platform.Tasks.Cycles.{is_among-child, lifted, lifted-IsRanked}
use task_scheduling_platform.Tasks.Invariant.{
  IsWell, IsKeyed, IsRooted, HasParent, save-IsWell, save-IsKeyed, save-IsRooted, delete-IsWell,
}

pub find_one_or_fail-IsQuery :
    (workspace_id project_id task_id : Uuid)
    → IsQuery (find_one_or_fail workspace_id project_id task_id)
unfolding find_one_or_fail
find_one_or_fail-IsQuery workspace_id project_id task_id w = ground arith

-- What a method leaves in the table of tasks, by the outcome of its first query.
module _ (workspace_id project_id task_id : Uuid) (w : World) where
  abbrev read : Result Task × World
  read = find_one_or_fail workspace_id project_id task_id w

  pub update_failed :
      (now : Instant) (at : Micros) (actor_id : Uuid) (dto : UpdateTaskDto) (e : HttpException)
      → read.0 ≡ err e
      → (update now at workspace_id project_id task_id actor_id dto w).1.tasks ≡ w.tasks
  unfolding update
  update_failed now at actor_id dto e h =
      ground (arith, find_one_or_fail-IsQuery workspace_id project_id task_id w)

  pub update_found :
      (now : Instant) (at : Micros) (actor_id : Uuid) (dto : UpdateTaskDto) (task : Task)
      → read.0 ≡ ok task
      → ((update now at workspace_id project_id task_id actor_id dto w).1.tasks ≡ w.tasks)
        ⊎ ((update now at workspace_id project_id task_id actor_id dto w).1.tasks
            ≡ save_row (λ t. t.id) (edited dto now at task) w.tasks)
  unfolding update
  update_found now at actor_id dto task h =
      ground (arith, find_one_or_fail-IsQuery workspace_id project_id task_id w)

  pub remove_failed :
      (e : HttpException)
      → read.0 ≡ err e
      → (remove workspace_id project_id task_id w).1.tasks ≡ w.tasks
  unfolding remove
  remove_failed e h = ground (arith, find_one_or_fail-IsQuery workspace_id project_id task_id w)

  pub remove_found :
      (task : Task)
      → read.0 ≡ ok task
      → (remove workspace_id project_id task_id w).1 ≡ delete_task task.id w
  unfolding remove
  remove_found task h = ground (arith, find_one_or_fail-IsQuery workspace_id project_id task_id w)

  -- A move that fails writes nothing.
  pub move_task_failed :
      (at : Micros) (new_parent_id : Option Uuid) (e : HttpException)
      → (move_task at workspace_id project_id task_id new_parent_id w).0 ≡ err e
      → (move_task at workspace_id project_id task_id new_parent_id w).1 ≡ w
  unfolding move_task check_move
  move_task_failed at none e h =
      ground (arith, find_one_or_fail-IsQuery workspace_id project_id task_id w)
  move_task_failed at (some p) e h =
      ground (arith, find_one_or_fail-IsQuery workspace_id project_id task_id w)

  pub read-ok : (task : Task) → read.0 ≡ ok task → In task w.tasks × (task.id ≡ task_id)
  read-ok task h =
      let (m, e, _, _) =
        find_one_or_fail-ok workspace_id project_id task_id w read.1 task (λ i. (h i, read.1)) in
      (m, e)

  delete_task-tasks :
      (task : Task) → In task w.tasks → IsWell w.tasks → IsWell (delete_task task.id w).tasks
  unfolding delete_task descendants
  delete_task-tasks task m well =
      delete-IsWell w.tasks (has_task (descendants w.tasks task.id))
        (λ t p. is_among-child w.tasks task.id t p well.forest) well

  pub update-IsWell :
      (now : Instant) (at : Micros) (actor_id : Uuid) (dto : UpdateTaskDto)
      → IsWell w.tasks
      → IsWell (update now at workspace_id project_id task_id actor_id dto w).1.tasks
  update-IsWell now at actor_id dto well = elim (Result-cases read.0) [
    | inl (task, h) ↦ elim (update_found now at actor_id dto task h) [
      | inl same ↦ subst IsWell (sym same) well
      | inr written ↦
          subst IsWell (sym written) (
            save-IsWell w.tasks task (edited dto now at task) (read-ok task h).0 refl refl refl
              well)
    ]
    | inr (e, h) ↦ subst IsWell (sym (update_failed now at actor_id dto e h)) well
  ]

  pub remove-IsWell : IsWell w.tasks → IsWell (remove workspace_id project_id task_id w).1.tasks
  remove-IsWell well = elim (Result-cases read.0) [
    | inl (task, h) ↦
        subst (λ v. IsWell v.tasks) (sym (remove_found task h))
          (delete_task-tasks task (read-ok task h).0 well)
    | inr (e, h) ↦ subst IsWell (sym (remove_failed e h)) well
  ]

  move_task_top-IsWell :
      (at : Micros) (moved : Task) (w' : World)
      → IsWell w.tasks
      → move_task at workspace_id project_id task_id none w ≡ (ok moved, w')
      → IsWell w'.tasks
  move_task_top-IsWell at moved w' well h =
      let (task, m, written) = move_task_top-ok at workspace_id project_id task_id w w' moved h in
      let top : Task = record task { parent_task_id = none; updated_at = at } in
      let (rank, ranked) = well.forest in
      subst IsWell (sym written) (record {
        forest = (
          rank,
          λ t k p e. elim (In-save_row (λ t. t.id) top w.tasks t k) [
            | inl it ↦ cc (sym (ap (λ (x : Task). x.parent_task_id) it) ∙ e)
            | inr (n, _) ↦ ranked t n p e
          ],
        );
        keyed = save-IsKeyed w.tasks task top m refl refl well.keyed;
        rooted = save-IsRooted w.tasks task top m refl refl well.keyed (λ p e. cc e) well.rooted;
      })

  move_task_under-IsWell :
      (at : Micros) (parent_id : Uuid) (moved : Task) (w' : World)
      → IsWell w.tasks
      → move_task at workspace_id project_id task_id (some parent_id) w ≡ (ok moved, w')
      → IsWell w'.tasks
  move_task_under-IsWell at parent_id moved w' well h =
      let (task, move) =
        move_task-IsMove at workspace_id project_id task_id parent_id w w' moved h in
      let keeps_id = move.keeps_id ∙ sym move.named in
      let (rank, ranked) = well.forest in
      record {
        forest = (
          lifted rank w.tasks task_id parent_id,
          lifted-IsRanked rank w.tasks w'.tasks task_id parent_id task moved ranked move,
        );
        keyed =
            subst IsKeyed (sym move.written)
              (save-IsKeyed w.tasks task moved move.member keeps_id move.keeps_project well.keyed);
        rooted = subst IsRooted (sym move.written) (
            save-IsRooted w.tasks task moved move.member keeps_id move.keeps_project well.keyed
              (λ p e. subst (HasParent w.tasks task.project_id) (ground arith) move.adopted)
              well.rooted);
      }

  pub move_ok :
      (at : Micros) (new_parent_id : Option Uuid) (moved : Task) (w' : World)
      → IsWell w.tasks
      → move_task at workspace_id project_id task_id new_parent_id w ≡ (ok moved, w')
      → IsWell w'.tasks
  move_ok at none = move_task_top-IsWell at
  move_ok at (some p) = move_task_under-IsWell at p

  pub move_task-IsWell :
      (at : Micros) (new_parent_id : Option Uuid)
      → IsWell w.tasks
      → IsWell (move_task at workspace_id project_id task_id new_parent_id w).1.tasks
  move_task-IsWell at new_parent_id well =
      elim (Result-cases (move_task at workspace_id project_id task_id new_parent_id w).0) [
        | inr (e, h) ↦
            subst (λ (v : World). IsWell v.tasks) (sym (move_task_failed at new_parent_id e h)) well
        | inl (moved, h) ↦
            move_ok at new_parent_id moved
              (move_task at workspace_id project_id task_id new_parent_id w).1 well
              (λ i. (h i, (move_task at workspace_id project_id task_id new_parent_id w).1))
      ]
