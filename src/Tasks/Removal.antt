-- ===== src/Tasks/Removal.antt =====
-- modules/tasks/tasks.service.ts: what `remove` removes, with the cascades of the database.
use task_scheduling_platform.Base.{
  ℕ, ◌≡◌, ◌↔◌, refl, sym, subst, true, not, List, arith, In, inl, inr, ◌==◌, Bool-cases,
  delete_where, In-find, find-In, exists-In, exists-witness,
}
use task_scheduling_platform.Http.{ok}
use task_scheduling_platform.World.{Uuid, Task, Comment, Reminder, World}
use task_scheduling_platform.World.Cascade.{delete_task, has_task}
use task_scheduling_platform.World.Tree.{children, descendants}
use task_scheduling_platform.World.Tree.Levels.{Reaches}
use task_scheduling_platform.World.Tree.Forest.{IsForest, In-descendants_iff}
use task_scheduling_platform.Exec.{>>=-eq-ok}
use task_scheduling_platform.Tasks.{find_one_or_fail, remove}
use task_scheduling_platform.Tasks.Moves.{find_one_or_fail-ok}

-- Some number of steps from parent to child lead from the task with id `top` to one with id `id`.
abbrev pub IsWithin : List Task → Uuid → Uuid → Type 0
IsWithin tasks top id =
    (x y : Task) × (n : ℕ) × In x tasks
    × (x.id ≡ top)
    × (y.id ≡ id)
    × Reaches (children tasks) x y n

has_task_iff :
    (tasks : List Task)
    → IsForest tasks
    → (top id : Uuid) → (has_task (descendants tasks top) id ≡ true) ↔ IsWithin tasks top id
has_task_iff tasks forest top id = (
  λ h.
      let ((y, n), m, e) =
        exists-witness (λ (r : Task × ℕ). (r.0).id == id) (descendants tasks top) h in
      let (x, at, same, r) = (In-descendants_iff tasks forest top y n).0 m in
      (x, y, n, at, same, ground arith, r),
  λ (x, y, n, at, same, e, r).
      exists-In (λ (r : Task × ℕ). (r.0).id == id) (descendants tasks top)
        ((In-descendants_iff tasks forest top y n).1 (x, at, same, r)) (ground arith),
)

kept_iff :
    {A : Type 0} (tasks : List Task)
    → IsForest tasks
    → (top : Uuid) (task_of : A → Uuid) (rows : List A) (a : A)
    → In a (delete_where (λ b. has_task (descendants tasks top) (task_of b)) rows)
      ↔ (In a rows × (IsWithin tasks top (task_of a) → ⊥))
kept_iff tasks forest top task_of rows a = (
  λ m.
      let (k, e) = In-find (λ b. not (has_task (descendants tasks top) (task_of b))) rows m in
      (k, λ within. let h = (has_task_iff tasks forest top (task_of a)).1 within in ground arith),
  λ (m, outside).
      find-In (λ b. not (has_task (descendants tasks top) (task_of b))) rows m
        (elim (Bool-cases (has_task (descendants tasks top) (task_of a))) [
          | inl h ↦ absurd (outside ((has_task_iff tasks forest top (task_of a)).0 h))
          | inr h ↦ rw h refl
        ]),
)

delete_task-descendants :
    (id : Uuid) (w : World)
    → ((delete_task id w).tasks
        ≡ delete_where (λ t. has_task (descendants w.tasks id) t.id) w.tasks)
      × ((delete_task id w).comments
          ≡ delete_where (λ c. has_task (descendants w.tasks id) c.task_id) w.comments)
      × ((delete_task id w).reminders
          ≡ delete_where (λ r. has_task (descendants w.tasks id) r.task_id) w.reminders)
unfolding delete_task descendants
delete_task-descendants id w = (refl, refl, refl)

remove_written :
    (workspace_id project_id task_id : Uuid) (w w' : World)
    → remove workspace_id project_id task_id w ≡ (ok tt, w')
    → w' ≡ delete_task task_id w
unfolding remove
remove_written workspace_id project_id task_id w w' h =
    let (task, v, read, h') =
      >>=-eq-ok (find_one_or_fail workspace_id project_id task_id) _ w w' h in
    let (m, named, project, same) =
      find_one_or_fail-ok workspace_id project_id task_id w v task read in
    ground arith

-- In a forest, removing a task removes exactly that task and all tasks below it, with exactly their
-- comments and reminders.
pub remove-In :
    (workspace_id project_id task_id : Uuid) (w w' : World)
    → IsForest w.tasks
    → remove workspace_id project_id task_id w ≡ (ok tt, w')
    → ((t : Task) → In t w'.tasks ↔ (In t w.tasks × (IsWithin w.tasks task_id t.id → ⊥)))
      × ((c : Comment)
          → In c w'.comments ↔ (In c w.comments × (IsWithin w.tasks task_id c.task_id → ⊥)))
      × ((r : Reminder)
          → In r w'.reminders ↔ (In r w.reminders × (IsWithin w.tasks task_id r.task_id → ⊥)))
remove-In workspace_id project_id task_id w w' forest h =
    let deleted = remove_written workspace_id project_id task_id w w' h in
    let (ts, cs, rs) = delete_task-descendants task_id w in
    subst
      (λ (v : World).
        ((t : Task) → In t v.tasks ↔ (In t w.tasks × (IsWithin w.tasks task_id t.id → ⊥)))
        × ((c : Comment)
            → In c v.comments ↔ (In c w.comments × (IsWithin w.tasks task_id c.task_id → ⊥)))
        × ((r : Reminder)
            → In r v.reminders ↔ (In r w.reminders × (IsWithin w.tasks task_id r.task_id → ⊥))))
      (sym deleted)
      (rw (ts, cs, rs)
        (
          kept_iff w.tasks forest task_id (λ t. t.id) w.tasks,
          kept_iff w.tasks forest task_id (λ c. c.task_id) w.comments,
          kept_iff w.tasks forest task_id (λ r. r.task_id) w.reminders,
        ))
