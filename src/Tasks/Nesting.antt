-- ===== src/Tasks/Nesting.antt =====
-- modules/tasks/tasks.service.ts: how deep `create` puts a task.
mod Tests
use task_scheduling_platform.Base.{
  ℕ, zero, suc, ◌+◌, ◌≤◌, ◌≡◌, ◌≢◌, refl, sym, ◌∙◌, ap, subst, true, some, List, [], ◌∷◌, ◌++◌,
  arith, ◌=?◌, In, In-find, find-In, find_one, In-find_one, In-snoc, snoc-In, inl, inr,
}
use task_scheduling_platform.Http.{ok}
use task_scheduling_platform.World.{Uuid, Stamp, Task, Project, World}
use task_scheduling_platform.World.Tree.{parents, ancestors}
use task_scheduling_platform.World.Tree.Levels.{Reaches, here, step}
use task_scheduling_platform.World.Tree.Forest.{In-ancestors_iff}
use task_scheduling_platform.Projects
use task_scheduling_platform.Tasks.{
  CreateTaskDto, find_task, in_project, known_user, new_task, max_of, depth_of, create,
}
use task_scheduling_platform.Tasks.Invariant.{IsWell, HasParent, append-IsWell}
use task_scheduling_platform.Tasks.Commands.{IsFresh}
use task_scheduling_platform.Tasks.Depth.{In-le_max_of, max_of-le, parents-id}

max_of-lt :
    (rows : List (Task × ℕ)) (bound : ℕ)
    → 1 ≤ bound
    → ((y : Task) (k : ℕ) → In (y, k) rows → suc k ≤ bound)
    → suc (max_of rows) ≤ bound
max_of-lt rows zero h low = absurd (omega arith)
max_of-lt rows (suc b) h low = omega (arith, max_of-le rows b (λ y k m. omega (arith, low y k m)))

-- A new row below a row of the table.
module _ (tasks : List Task) (new parent : Task) (well : IsWell tasks)
    (fresh : (t : Task) → In t tasks → t.id ≢ new.id) (member : In parent tasks)
    (below : new.parent_task_id ≡ some parent.id)
    (inside : parent.project_id ≡ new.project_id) where
  abbrev grown : List Task
  grown = tasks ++ new ∷ []

  grown-IsWell : IsWell grown
  grown-IsWell = append-IsWell tasks new fresh (λ p e. (parent, member, ground arith, inside)) well

  -- The parents of an old row are old.
  old_parent : (z v : Task) → In z tasks → In v (parents grown z) → In v (parents tasks z)
  old_parent z v m first =
      let (v_in, e) = parents-id grown z v first in
      let (x, x_in, named, _) = well.rooted z m v.id e in
      let old : In v tasks = elim (In-snoc v new tasks v_in) [
        | inl k ↦ k
        | inr it ↦ absurd (fresh x x_in (named ∙ ap (λ (t : Task). t.id) it))
      ] in
      find-In (λ p. some p.id =? z.parent_task_id) tasks old (ground arith)

  up_old :
      (z y : Task) (k : ℕ)
      → In z tasks
      → Reaches (parents grown) z y k
      → Reaches (parents tasks) z y k
  up_old z y k m (here _) = here z
  up_old z y k m (step {y = v} {n = n} first r) =
      let first' = old_parent z v m first in
      step first' (up_old v y n (parents-id tasks z v first').0 r)

  up_new : (z y : Task) (k : ℕ) → Reaches (parents tasks) z y k → Reaches (parents grown) z y k
  up_new z y k (here _) = here z
  up_new z y k (step {y = v} {n = n} first r) =
      let (m, e) = parents-id tasks z v first in
      step
        (find-In (λ p. some p.id =? z.parent_task_id) grown (snoc-In v new tasks (inl m))
          (ground arith))
        (up_new v y n r)

  new_In : In new grown
  new_In = snoc-In new new tasks (inr refl)

  parent_of_new : In parent (parents grown new)
  parent_of_new =
      find-In (λ p. some p.id =? new.parent_task_id) grown (snoc-In parent new tasks (inl member))
        (ground arith)

  -- What is above the new row is its parent and what is above that.
  above_new :
      (y : Task) (k : ℕ) → Reaches (parents grown) new y k → k ≤ suc (depth_of tasks parent.id)
  unfolding depth_of
  above_new y zero r = omega arith
  above_new y (suc n) (step {y = v} first r) =
      let (v_in, e) = parents-id grown new v first in
      let same : v ≡ parent =
        grown-IsWell.keyed v parent v_in (snoc-In parent new tasks (inl member)) (ground arith) in
      let up = up_old parent y n member (subst (λ t. Reaches (parents grown) t y n) same r) in
      omega (
        arith,
        In-le_max_of (ancestors tasks parent.id) y n
            ((In-ancestors_iff tasks well.forest parent.id y n).1 (parent, member, refl, up)),
      )

  above_parent :
      (y : Task) (k : ℕ) → Reaches (parents tasks) parent y k → suc k ≤ depth_of grown new.id
  unfolding depth_of
  above_parent y k r = In-le_max_of (ancestors grown new.id) y (suc k) (
      (In-ancestors_iff grown grown-IsWell.forest new.id y (suc k)).1
        (new, new_In, refl, step parent_of_new (up_new parent y k r)))

  pub new_depth : depth_of grown new.id ≡ suc (depth_of tasks parent.id)
  unfolding depth_of
  new_depth =
      let upper = max_of-le (ancestors grown new.id) (suc (depth_of tasks parent.id)) (λ y k m.
        let (x, x_in, named, r) = (In-ancestors_iff grown grown-IsWell.forest new.id y k).0 m in
        above_new y k (
          subst (λ t. Reaches (parents grown) t y k) (grown-IsWell.keyed x new x_in new_In named)
            r)) in
      let some_level = above_parent parent 0 (here parent) in
      let lower = max_of-lt (ancestors tasks parent.id) (depth_of grown new.id) some_level (λ y k m.
        let (x, x_in, named, r) = (In-ancestors_iff tasks well.forest parent.id y k).0 m in
        above_parent y k
          (subst (λ t. Reaches (parents tasks) t y k) (well.keyed x parent x_in member named) r)) in
      omega (arith, upper, lower)

-- In a table that keeps the invariant, and with an id that is new, a request to create a task below a
-- task of the project succeeds however deep that task is, if the project is found and the assignee, if
-- any, exists; and the new task is one level below its parent, by the measure of `depthOf`.
pub create_depth :
    (stamp : Stamp) (workspace_id project_id created_by parent_id : Uuid) (dto : CreateTaskDto)
    (w : World) (project : Project) (parent : Task)
    → IsWell w.tasks
    → IsFresh stamp w
    → find_one (Projects.in_workspace workspace_id project_id) w.projects ≡ some project
    → dto.parent_task_id ≡ some parent_id
    → find_task project_id parent_id w ≡ some parent
    → known_user w dto.assignee_id ≡ true
    → let (answer, w') = create stamp workspace_id project_id created_by dto w in
      (answer ≡ ok (new_task stamp project_id created_by dto))
      × (depth_of w'.tasks stamp.id ≡ suc (depth_of w.tasks parent_id))
unfolding create Projects.find_one_or_fail
create_depth stamp workspace_id project_id created_by parent_id dto w project parent well fresh
      found below there known =
    let new = new_task stamp project_id created_by dto in
    let (m, e) = In-find_one (in_project project_id parent_id) w.tasks there in
    let named : parent.id ≡ parent_id = ground arith in
    let inside : parent.project_id ≡ project_id = ground arith in
    let written : (create stamp workspace_id project_id created_by dto w).1.tasks
        ≡ w.tasks ++ new ∷ [] =
      ground arith in
    let depth = new_depth w.tasks new parent well fresh m (below ∙ ap some (sym named)) inside in
    (
      ground arith,
      ap (λ tasks. depth_of tasks stamp.id) written
          ∙ depth
          ∙ ap (λ id. suc (depth_of w.tasks id)) named,
    )
