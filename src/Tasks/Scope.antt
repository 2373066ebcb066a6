-- ===== src/Tasks/Scope.antt =====
-- modules/tasks/tasks.service.ts: the workspace and the project that a request names.
use task_scheduling_platform.Base.{◌≡◌, some, arith, In, In-find_one, find_one, or_else}
use task_scheduling_platform.Http.{ok}
use task_scheduling_platform.World.{Uuid, Task, Project, World}
use task_scheduling_platform.Exec.{>>=-eq-ok}
use task_scheduling_platform.Pagination.{Page, list_page}
use task_scheduling_platform.Pagination.Cursor.{Codec}
use task_scheduling_platform.Pagination.Precision.{In-list_page_rows}
use task_scheduling_platform.Projects
use task_scheduling_platform.Tasks.{ListTasksQueryDto, in_project, listed, list, find_one_or_fail}

-- The project is one of the workspace.
abbrev pub IsProjectOf : Uuid → Uuid → World → Type 0
IsProjectOf workspace_id project_id w =
    (p : Project) × In p w.projects × (p.id ≡ project_id) × (p.workspace_id ≡ workspace_id)

project_found :
    (workspace_id project_id : Uuid) (w w' : World) (p : Project)
    → Projects.find_one_or_fail workspace_id project_id w ≡ (ok p, w')
    → (w' ≡ w) × IsProjectOf workspace_id project_id w
unfolding Projects.find_one_or_fail
project_found workspace_id project_id w w' p h =
    let found : find_one (Projects.in_workspace workspace_id project_id) w.projects ≡ some p =
      ground arith in
    let (m, e) = In-find_one (Projects.in_workspace workspace_id project_id) w.projects found in
    (ground arith, (p, m, ground arith, ground arith))

-- The task that a request reads by its id is a task of the project that the request names, and that
-- project is one of the workspace that it names.
pub find_one_or_fail-IsProjectOf :
    (workspace_id project_id task_id : Uuid) (w w' : World) (task : Task)
    → find_one_or_fail workspace_id project_id task_id w ≡ (ok task, w')
    → In task w.tasks
      × (task.id ≡ task_id)
      × (task.project_id ≡ project_id)
      × IsProjectOf workspace_id project_id w
      × (w' ≡ w)
unfolding find_one_or_fail
find_one_or_fail-IsProjectOf workspace_id project_id task_id w w' task h =
    let (p, v, read, h') = >>=-eq-ok (Projects.find_one_or_fail workspace_id project_id) _ w w' h in
    let (same, scope) = project_found workspace_id project_id w v p read in
    let found : find_one (in_project project_id task_id) w.tasks ≡ some task = ground arith in
    let (m, e) = In-find_one (in_project project_id task_id) w.tasks found in
    (m, ground arith, ground arith, scope, ground arith)

-- Every task that a list returns is a task of the project that the request names, and that project is
-- one of the workspace that it names; the list changes nothing.
pub list-IsProjectOf :
    (codec : Codec) (workspace_id project_id : Uuid) (query : ListTasksQueryDto) (w w' : World)
    (page : Page Task) (task : Task)
    → list codec workspace_id project_id query w ≡ (ok page, w')
    → In task page.rows
    → In task w.tasks
      × (task.project_id ≡ project_id)
      × IsProjectOf workspace_id project_id w
      × (w' ≡ w)
unfolding list
list-IsProjectOf codec workspace_id project_id query w w' page task h m =
    let (p, v, read, h') = >>=-eq-ok (Projects.find_one_or_fail workspace_id project_id) _ w w' h in
    let (same, scope) = project_found workspace_id project_id w v p read in
    let listed_page : list_page codec (λ t. t.created_at) (λ t. t.id) (listed project_id query)
          (or_else query.limit 20) query.cursor w.tasks
        ≡ ok page =
      ground arith in
    let (k, fits) =
      In-list_page_rows codec (λ t. t.created_at) (λ t. t.id) (listed project_id query)
        (or_else query.limit 20) w.tasks query.cursor page task listed_page m in
    (k, ground arith, scope, ground arith)
