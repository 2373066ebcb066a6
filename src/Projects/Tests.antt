-- ===== src/Projects/Tests.antt =====
-- Runs of ProjectsService.
use task_scheduling_platform.Base.{◌≡◌, ◌≢◌, refl, none, ◌∷◌, [], inl}
use task_scheduling_platform.Http.{ok}
use task_scheduling_platform.World.{Task, World}
use task_scheduling_platform.World.Cascade.{delete_project}
use task_scheduling_platform.World.Tree.{levels}
use task_scheduling_platform.Samples.{task, three_tasks, with_tasks}
use task_scheduling_platform.Projects.{find_one_or_fail, remove}
use task_scheduling_platform.Projects.Removal.{remove-project_id}

-- A task of another project stands behind the three of the sample.
abbrev other : Task
other = record (task 34 none) { project_id = 21 }

abbrev two_projects : World
two_projects = with_tasks (other ∷ three_tasks)

abbrev one_left : World
one_left = record (with_tasks (other ∷ [])) { projects = [] }

service : Unit {0}
unfolding find_one_or_fail remove delete_project levels
service = tt

removal : remove 10 20 two_projects ≡ (ok tt, one_left)
unfolding service
removal = refl

remove-project_id_example : other.project_id ≢ 20
remove-project_id_example = remove-project_id 10 20 two_projects one_left other removal (inl refl)
