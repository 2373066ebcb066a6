-- ===== src/Tasks/Tenancy.antt =====
-- modules/tasks/tasks.service.ts and modules/projects/projects.service.ts: which tasks a request of one
-- workspace may touch.
pub mod Requests
use task_scheduling_platform.Base.{
  ℕ, zero, suc, ◌≡◌, ◌≢◌, refl, sym, ap, ◌∙◌, subst, Bool, true, false, not, Option, none, some,
  List, [], ◌∷◌, ◌++◌, arith, ◌==◌, ◌=?◌, ◌⊎◌, inl, inr, In, In-snoc, snoc-In, In-find, find-In,
  In-save_row, save_row-kept, In-find_one, Bool-cases, Option-cases, exists-witness, save_row,
  delete_where, find, find_one, length,
}
use task_scheduling_platform.Http.{Result, ok, err, Result-cases}
use task_scheduling_platform.World.{Uuid, Stamp, Instant, Micros, Task, World}
use task_scheduling_platform.World.Tree.{children, levels}
use task_scheduling_platform.World.Tree.Levels.{Reaches, here, step, levels-Reaches}
use task_scheduling_platform.World.Cascade.{has_task, delete_task, delete_project}
use task_scheduling_platform.Projects
use task_scheduling_platform.Tasks.{
  CreateTaskDto, UpdateTaskDto, edited, new_task, known_user, find_task, check_move, create, update,
  move_task, remove, find_one_or_fail,
}
use task_scheduling_platform.Tasks.Scope.{IsProjectOf, find_one_or_fail-IsProjectOf}
use task_scheduling_platform.Tasks.Invariant.{IsKeyed, IsRooted, IsWell}
use task_scheduling_platform.Tasks.Depth.{children-id}
use task_scheduling_platform.Tasks.Steps.{
  find_one_or_fail-IsQuery, update_failed, update_found, remove_failed, remove_found,
  move_task_failed,
}

-- The task is in a project of the workspace.
abbrev pub IsTaskOf : Uuid → World → Task → Type 0
IsTaskOf workspace_id w t = IsProjectOf workspace_id t.project_id w

-- From `w` to `w'` the tasks of other workspaces stay as they are, and none is added to them.
pub record Isolates (workspace_id : Uuid) (w w' : World) : Type 0 where
  pub kept : (t : Task) → In t w.tasks → ¬ IsTaskOf workspace_id w t → In t w'.tasks
  pub origin : (t : Task) → In t w'.tasks → In t w.tasks ⊎ IsTaskOf workspace_id w t

module _ (workspace_id : Uuid) (w w' : World) where
  pub same-Isolates : w'.tasks ≡ w.tasks → Isolates workspace_id w w'
  same-Isolates e = record { kept = λ t m other. rw e m; origin = λ t m. inl (rw e at m) }

  pub append-Isolates :
      (new : Task)
      → IsTaskOf workspace_id w new
      → w'.tasks ≡ w.tasks ++ new ∷ []
      → Isolates workspace_id w w'
  append-Isolates new mine e = record {
    kept = λ t m other. rw e (snoc-In t new w.tasks (inl m));
    origin = λ t m. elim (In-snoc t new w.tasks (rw e at m)) [
      | inl k ↦ inl k
      | inr it ↦ inr (rw it mine)
    ];
  }

  pub save-Isolates :
      (old saved : Task)
      → IsKeyed w.tasks
      → In old w.tasks
      → IsTaskOf workspace_id w old
      → saved.id ≡ old.id
      → saved.project_id ≡ old.project_id
      → w'.tasks ≡ save_row (λ t. t.id) saved w.tasks
      → Isolates workspace_id w w'
  save-Isolates old saved keyed member mine same_id same_project e = record {
    kept = λ t m other. rw e (
        save_row-kept (λ x. x.id) saved w.tasks t m
          (λ h. other (rw (keyed t old m member (h ∙ same_id)) mine)));
    origin = λ t m. elim (In-save_row (λ x. x.id) saved w.tasks t (rw e at m)) [
      | inl it ↦ inr (rw (it, same_project) mine)
      | inr (k, _) ↦ inl k
    ];
  }

  -- A deletion of rows of which each is in a project of the workspace.
  pub delete-Isolates :
      (gone : List (Task × ℕ))
      → ((t : Task) → In t w.tasks → has_task gone t.id ≡ true → IsTaskOf workspace_id w t)
      → w'.tasks ≡ delete_where (λ t. has_task gone t.id) w.tasks
      → Isolates workspace_id w w'
  delete-Isolates gone mine e = record {
    kept = λ t m other. rw e (elim (Bool-cases (has_task gone t.id)) [
      | inl h ↦ absurd (other (mine t m h))
      | inr h ↦ find-In (λ x. not (has_task gone x.id)) w.tasks m (rw h refl)
    ]);
    origin = λ t m. inl (In-find (λ x. not (has_task gone x.id)) w.tasks (rw e at m)).0;
  }

module _ (tasks : List Task) (well : IsWell tasks) where
  -- Below a task are tasks of its project.
  Reaches-project :
      (x y : Task) (n : ℕ)
      → In x tasks
      → Reaches (children tasks) x y n
      → In y tasks × (y.project_id ≡ x.project_id)
  Reaches-project x y n m (here _) = (m, refl)
  Reaches-project x y n m (step {y = v} {n = k} first r) =
      let (mv, up) = children-id tasks x v first in
      let (z, mz, same, project) = well.rooted v mv x.id up in
      let it : z ≡ x = well.keyed z x mz m same in
      let (my, e) = Reaches-project v y k mv r in
      (my, e ∙ sym project ∙ ap (λ (t : Task). t.project_id) it)

  -- What the cascade takes with tasks of a project.
  pub gone-project :
      (project_id : Uuid) (tops : List Task) (t : Task)
      → ((x : Task) → In x tops → In x tasks × (x.project_id ≡ project_id))
      → In t tasks
      → has_task (levels (suc (length tasks)) (children tasks) 0 tops) t.id ≡ true
      → t.project_id ≡ project_id
  gone-project project_id tops t start m h =
      let ((y, d), k, e) =
        exists-witness (λ r. (r.0).id == t.id) (levels (suc (length tasks)) (children tasks) 0 tops)
          h in
      let (x, n, at, _, r) = levels-Reaches (children tasks) (suc (length tasks)) 0 tops y d k in
      let (mx, top) = start x at in
      let (my, same) = Reaches-project x y n mx r in
      let it : y ≡ t = well.keyed y t my m (ground arith) in
      ap (λ (z : Task). z.project_id) (sym it) ∙ same ∙ top
