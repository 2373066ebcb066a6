-- ===== src/Projects/Removal.antt =====
-- modules/projects/projects.service.ts: what `remove` leaves, with the cascades of the database.
use task_scheduling_platform.Base.{
  suc, ◌≡◌, ◌≢◌, subst, not, arith, In, In-find, find-In, exists-In, In-find_one, inl, inr, ℕ, find,
  find_one, length, ◌==◌, Option-cases,
}
use task_scheduling_platform.Http.{ok}
use task_scheduling_platform.World.{Uuid, Task, World}
use task_scheduling_platform.World.Cascade.{delete_project, has_task}
use task_scheduling_platform.World.Tree.{levels, children}
use task_scheduling_platform.World.Tree.Levels.{In-levels_start}
use task_scheduling_platform.Projects.{in_workspace, find_one_or_fail, remove}

remove_written :
    (workspace_id project_id : Uuid) (w w' : World)
    → remove workspace_id project_id w ≡ (ok tt, w')
    → w' ≡ delete_project project_id w
unfolding remove find_one_or_fail
remove_written workspace_id project_id w w' h =
    elim (Option-cases (find_one (in_workspace workspace_id project_id) w.projects)) [
      | inl missing ↦ ground arith
      | inr (p, found) ↦
          let (m, e) = In-find_one (in_workspace workspace_id project_id) w.projects found in
          let same : p.id ≡ project_id = ground arith in ground arith
    ]

deleted :
    (project_id : Uuid) (w : World) (t : Task)
    → In t (delete_project project_id w).tasks
    → t.project_id ≢ project_id
unfolding delete_project
deleted project_id w t m e =
    let tops = find (λ x. x.project_id == project_id) w.tasks in
    let gone = levels (suc (length w.tasks)) (children w.tasks) 0 tops in
    let (here, kept) = In-find (λ x. not (has_task gone x.id)) w.tasks m in
    let top = find-In (λ x. x.project_id == project_id) w.tasks here (ground arith) in
    let at_start =
      In-levels_start (children w.tasks) (suc (length w.tasks)) 0 t tops (omega arith) top in
    let h = exists-In (λ (r : Task × ℕ). (r.0).id == t.id) gone at_start (ground arith) in
    ground arith

-- After a project was removed, none of its tasks is left, however they are nested.
pub remove-project_id :
    (workspace_id project_id : Uuid) (w w' : World) (t : Task)
    → remove workspace_id project_id w ≡ (ok tt, w')
    → In t w'.tasks
    → t.project_id ≢ project_id
remove-project_id workspace_id project_id w w' t h m =
    deleted project_id w t
      (subst (λ (v : World). In t v.tasks) (remove_written workspace_id project_id w w' h) m)
