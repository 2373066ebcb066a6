-- ===== src/Projects.antt =====
-- modules/projects/projects.service.ts
pub mod Removal
mod Tests
use task_scheduling_platform.Base.{
  ℕ, String, Bool, true, ◌&&◌, Option, none, some, [], ◌∷◌, ◌++◌, ◌==◌, or_else, or_some, find_one,
  save_row,
}
use task_scheduling_platform.Http.{not_found}
use task_scheduling_platform.World.{Uuid, Micros, Stamp, Project}
use task_scheduling_platform.World.Work.{ProjectStatus, active, same_project_status}
use task_scheduling_platform.World.Cascade.{delete_project}
use task_scheduling_platform.Exec.{Exec, ◌>>=◌, ◌>>◌, pure, gets, modify, or_throw, lift}
use task_scheduling_platform.Pagination.{Page, list_page}
use task_scheduling_platform.Pagination.Cursor.{Text, Codec}

pub record CreateProjectDto : Type 0 where
  pub name : String
  pub description : Option String

pub record UpdateProjectDto : Type 0 where
  pub name : Option String
  pub description : Option String
  pub status : Option ProjectStatus

pub record ListProjectsQueryDto : Type 0 where
  pub limit : Option ℕ
  pub cursor : Option Text
  pub status : Option ProjectStatus

unfoldable pub create : Stamp → Uuid → Uuid → CreateProjectDto → Exec Project
create stamp workspace_id created_by dto = do
  let project : Project = record {
    id = stamp.id;
    workspace_id = workspace_id;
    created_by = created_by;
    name = dto.name;
    description = dto.description;
    status = active;
    created_at = stamp.at;
    updated_at = stamp.at;
  }
  modify (λ w. record w { projects = w.projects ++ project ∷ [] })
  pure project

abbrev pub in_workspace : Uuid → Uuid → Project → Bool
in_workspace workspace_id project_id p = p.id == project_id && p.workspace_id == workspace_id

unfoldable pub find_one_or_fail : Uuid → Uuid → Exec Project
find_one_or_fail workspace_id project_id = do
  found ← gets (λ w. find_one (in_workspace workspace_id project_id) w.projects)
  or_throw (not_found "Project not found") found

abbrev pub status_is : Option ProjectStatus → Project → Bool
status_is none p = true
status_is (some s) p = same_project_status p.status s

-- the `where` clauses of `list`
abbrev pub listed : Uuid → ListProjectsQueryDto → Project → Bool
listed workspace_id query p = p.workspace_id == workspace_id && status_is query.status p

unfoldable pub list : Codec → Uuid → ListProjectsQueryDto → Exec (Page Project)
list codec workspace_id query = do
  page ← gets (λ w.
      list_page codec (λ p. p.created_at) (λ p. p.id) (listed workspace_id query)
        (or_else query.limit 20) query.cursor w.projects)
  lift page

abbrev changed : UpdateProjectDto → Micros → Project → Project
changed dto at p = record p {
  name = or_else dto.name p.name;
  description = or_some dto.description p.description;
  status = or_else dto.status p.status;
  updated_at = at;
}

unfoldable pub update : Micros → Uuid → Uuid → UpdateProjectDto → Exec Project
unfolding find_one_or_fail
update at workspace_id project_id dto = do
  project ← find_one_or_fail workspace_id project_id
  let saved = changed dto at project
  modify (λ w. record w { projects = save_row (λ p. p.id) saved w.projects })
  pure saved

unfoldable pub remove : Uuid → Uuid → Exec (Unit {0})
unfolding find_one_or_fail
remove workspace_id project_id = do
  project ← find_one_or_fail workspace_id project_id
  modify (delete_project project.id)
