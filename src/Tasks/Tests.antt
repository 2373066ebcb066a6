-- ===== src/Tasks/Tests.antt =====
-- Runs of TasksService on the sample workspace, and the theorems at concrete inputs.
use task_scheduling_platform.Base.{
  ◌≡◌, ◌≤◌, ◌↔◌, refl, true, false, none, some, List, [], ◌∷◌, ◌++◌, arith, In, inl, inr,
}
use task_scheduling_platform.Http.{ok, err, bad_request}
use task_scheduling_platform.World.{Task, Comment, Reminder, World}
use task_scheduling_platform.World.Work.{done}
use task_scheduling_platform.World.Cascade.{delete_task}
use task_scheduling_platform.World.Tree.{levels, children, descendants, ancestors}
use task_scheduling_platform.World.Tree.Levels.{Reaches}
use task_scheduling_platform.World.Tree.Forest.{IsForest, In-descendants_iff}
use task_scheduling_platform.Samples.{task, three_tasks, with_tasks, world, stamp}
use task_scheduling_platform.Pagination.{Page, list_page, page_from, position_of, build_page}
use task_scheduling_platform.Pagination.Cursor.{Codec}
use task_scheduling_platform.Pagination.Order.{order_by}
use task_scheduling_platform.Projects
use task_scheduling_platform.Tasks.{
  CreateTaskDto, UpdateTaskDto, ListTasksQueryDto, find_one_or_fail, edited, create, update, list,
  move_task, remove, check_move, depth_of, max_depth,
}
use task_scheduling_platform.Tasks.Invariant.{IsWell}
use task_scheduling_platform.Tasks.Commands.{
  IsFresh, create_task, execute, Reach, start, next, serve,
}
use task_scheduling_platform.Tasks.Depth.{move_task_depth}
use task_scheduling_platform.Tasks.Reachable.{Reach-IsWell}
use task_scheduling_platform.Tasks.Completion.{AllStamped, Reach-AllStamped}
use task_scheduling_platform.Tasks.Announcements.{news, update-events}
use task_scheduling_platform.Tasks.Removal.{IsWithin, remove-In}
use task_scheduling_platform.Tasks.Scope.{IsProjectOf, list-IsProjectOf}

service : Unit {0}
unfolding find_one_or_fail Projects.find_one_or_fail create update move_task check_move remove
    delete_task levels depth_of execute descendants ancestors list list_page page_from position_of
    build_page order_by
service = tt

abbrev moved : Task
moved = record (task 33 (some 32)) { updated_at = 7 }

move_deeper :
    move_task 7 10 20 33 (some 32) world
    ≡ (ok moved, with_tasks (task 31 none ∷ task 32 (some 31) ∷ moved ∷ []))
unfolding service
move_deeper = refl

move_into_cycle : move_task 7 10 20 31 (some 32) world ≡ (
  err (bad_request "Cannot move a task underneath its own descendant (would create a cycle)"),
  world,
)
unfolding service
move_into_cycle = refl

three_tasks-IsForest : IsForest three_tasks
three_tasks-IsForest = (λ x. x, λ t m p e. ground arith)

three_tasks-IsWell : IsWell three_tasks
three_tasks-IsWell = record {
  forest = three_tasks-IsForest;
  keyed = λ x y m k e. ground arith;
  rooted = λ t m p e. (task 31 none, inl refl, ground arith, ground arith);
}

abbrev after_move : List Task
after_move = task 31 none ∷ task 32 (some 31) ∷ moved ∷ []

moved_within : In (moved, 0) (descendants after_move 33)
unfolding service
moved_within = inl refl

move_task_depth_example : depth_of after_move 33 ≤ max_depth
move_task_depth_example =
    move_task_depth 7 10 20 33 32 world (with_tasks after_move) moved three_tasks-IsWell move_deeper
      moved 0 moved_within

abbrev dto : CreateTaskDto
dto = record {
  title = "title";
  description = none;
  priority = none;
  assignee_id = some 2;
  due_date = none;
  parent_task_id = some 32;
}

abbrev finish : UpdateTaskDto
finish = record {
  title = none;
  description = none;
  status = some done;
  priority = none;
  assignee_id = none;
  due_date = none;
}

stamp_34-IsFresh : IsFresh (stamp 34) world
stamp_34-IsFresh t m = ground arith

abbrev grown : World
grown = (execute (stamp 34) 6 (create_task 10 20 1 dto) world).1

grown-Reach : Reach world grown
grown-Reach = next start (serve (stamp 34) 6 (create_task 10 20 1 dto) stamp_34-IsFresh)

Reach-IsWell_example : IsWell grown.tasks
Reach-IsWell_example = Reach-IsWell world grown three_tasks-IsWell grown-Reach

three_tasks-AllStamped : AllStamped three_tasks
three_tasks-AllStamped t m = ground arith

Reach-AllStamped_example : AllStamped grown.tasks
Reach-AllStamped_example = Reach-AllStamped world grown three_tasks-AllStamped grown-Reach

abbrev finished : World
finished = (update 9 8 10 20 33 1 finish world).1

abbrev finished_task : Task
finished_task = record (task 33 none) { status = done; completed_at = some 9; updated_at = 8 }

finishing : update 9 8 10 20 33 1 finish world ≡ (ok finished_task, finished)
unfolding service
finishing = refl

update-events_example :
    (old : Task) × In old three_tasks
    × (old.id ≡ 33)
    × (finished_task ≡ edited finish 9 8 old)
    × (finished.events ≡ world.events ++ news 1 old finished_task)
update-events_example = update-events 9 8 10 20 33 1 finish world finished finished_task finishing

abbrev trimmed : World
trimmed = (remove 10 20 31 world).1

trimming : remove 10 20 31 world ≡ (ok tt, trimmed)
unfolding service
trimming = refl

remove-In_example :
    ((t : Task) → In t trimmed.tasks ↔ (In t three_tasks × (IsWithin three_tasks 31 t.id → ⊥)))
    × ((c : Comment)
        → In c trimmed.comments ↔ (In c world.comments × (IsWithin three_tasks 31 c.task_id → ⊥)))
    × ((r : Reminder)
        → In r trimmed.reminders ↔ (In r world.reminders × (IsWithin three_tasks 31 r.task_id → ⊥)))
remove-In_example = remove-In 10 20 31 world trimmed three_tasks-IsForest trimming

reading : find_one_or_fail 10 20 32 world ≡ (ok (task 32 (some 31)), world)
unfolding service
reading = refl

abbrev codec : Codec
codec = record {
  to_base64url = λ t. t;
  from_base64url = λ t. t;
  to_iso_string = λ n. n ∷ [];
  uuid_text = λ n. n ∷ [];
  cast_timestamptz = λ t. none;
  cast_uuid = λ t. none;
}

abbrev query : ListTasksQueryDto
query = record {
  limit = none;
  cursor = none;
  status = none;
  priority = none;
  assignee_id = none;
  parent_task_id = none;
  top_level = true;
}

abbrev roots : Page Task
roots = record {
  rows = task 33 none ∷ task 31 none ∷ [];
  meta = record { limit = 20; count = 2; has_more = false; next_cursor = none };
}

listing : list codec 10 20 query world ≡ (ok roots, world)
unfolding service
listing = refl

list-IsProjectOf_example :
    In (task 31 none) three_tasks
    × ((task 31 none).project_id ≡ 20)
    × IsProjectOf 10 20 world
    × (world ≡ world)
list-IsProjectOf_example =
    list-IsProjectOf codec 10 20 query world world roots (task 31 none) listing (inr (inl refl))

In-descendants_iff_example : In (task 32 (some 31), 1) (descendants three_tasks 31) ↔ (
    (x : Task) × In x three_tasks
    × (x.id ≡ 31)
    × Reaches (children three_tasks) x (task 32 (some 31)) 1)
In-descendants_iff_example =
    In-descendants_iff three_tasks three_tasks-IsForest 31 (task 32 (some 31)) 1
