-- ===== src/Tasks/Subtree.antt =====
-- modules/tasks/tasks.service.ts: `getSubtree`, and the nested tree that it returns
-- (modules/tasks/types.ts).
mod Tests
pub mod Links
pub mod Depths
pub mod Shape
use task_scheduling_platform.Base.{
  ℕ, zero, suc, ◌≡◌, String, Bool, true, false, Option, none, some, List, [], ◌∷◌, ◌++◌, ◌==◌,
  if◌then◌else◌, find_one, find, exists, update_where, length, In,
}
use task_scheduling_platform.World.{Uuid, Instant, Task, World}
use task_scheduling_platform.World.Work.{TaskStatus, TaskPriority}
use task_scheduling_platform.World.Tree.{children, levels}
use task_scheduling_platform.Exec.{Exec, ◌>>=◌, ◌>>◌, pure, gets}
use task_scheduling_platform.Pagination.Order.{order_by}
use task_scheduling_platform.Tasks.{in_project, find_one_or_fail}

-- The fields of a node besides `children`.
pub record Entry : Type 0 where
  pub id : Uuid
  pub title : String
  pub status : TaskStatus
  pub priority : TaskPriority
  pub assignee_id : Option Uuid
  pub due_date : Option Instant
  pub depth : ℕ

mutual
  pub data SubtreeNode : Type 0 where
    node : Entry → SubtreeNodes → SubtreeNode

  pub data SubtreeNodes : Type 0 where
    nil : SubtreeNodes
    cons : SubtreeNode → SubtreeNodes → SubtreeNodes

-- The node objects stand in a `Map` by their ids, which no later step takes away: a reference to
-- one in a `children` array is its id.
pub record Cell : Type 0 where
  pub entry : Entry
  pub children : List Uuid

abbrev pub entry : Task × ℕ → Entry
entry r = record {
  id = (r.0).id;
  title = (r.0).title;
  status = (r.0).status;
  priority = (r.0).priority;
  assignee_id = (r.0).assignee_id;
  due_date = (r.0).due_date;
  depth = r.1;
}

abbrev pub cell : Task × ℕ → Cell
cell r = record { entry = entry r; children = [] }

abbrev pub reverse : {A : Type 0} → List A → List A
reverse [] = []
reverse (x ∷ xs) = reverse xs ++ x ∷ []

-- `ORDER BY depth ASC, id ASC`: `order_by` sorts downwards.
unfoldable pub subtree_rows : List Task → Uuid → Uuid → List (Task × ℕ)
unfolding levels order_by
subtree_rows tasks project_id task_id = reverse (
    order_by (λ r. r.1) (λ r. (r.0).id)
      (levels (suc (length tasks)) (children tasks) 0 (find (in_project project_id task_id) tasks)))

-- `nodes.get(id)`
abbrev pub get : Uuid → List Cell → Option Cell
get id nodes = find_one (λ c. (c.entry).id == id) nodes

-- `nodes.set(…)`
abbrev pub set : Cell → List Cell → List Cell
set new [] = new ∷ []
set new (c ∷ nodes) =
    let rest = set new nodes in if (c.entry).id == (new.entry).id then new ∷ nodes else c ∷ rest

abbrev pub load : List (Task × ℕ) → List Cell → List Cell
load [] nodes = nodes
load (r ∷ rows) nodes = load rows (set (cell r) nodes)

abbrev pub push : Uuid → Cell → Cell
push id c = record c { children = c.children ++ id ∷ [] }

-- `nodes.get(r.parent_task_id)?.children.push(node)`
abbrev pub push_to : Option Uuid → Uuid → List Cell → List Cell
push_to none id nodes = nodes
push_to (some p) id nodes = update_where (λ c. (c.entry).id == p) (push id) nodes

abbrev pub link_row : Uuid → Task → List Cell → List Cell
link_row task_id t nodes = if t.id == task_id then nodes else push_to t.parent_task_id t.id nodes

abbrev pub link : Uuid → List (Task × ℕ) → List Cell → List Cell
link task_id [] nodes = nodes
link task_id (r ∷ rows) nodes = link task_id rows (link_row task_id r.0 nodes)

abbrev pub attach : (List Uuid → SubtreeNodes) → Option Cell → SubtreeNodes → SubtreeNodes
attach below none rest = rest
attach below (some c) rest = cons (node c.entry (below c.children)) rest

abbrev pub graft : (List Uuid → SubtreeNodes) → List Cell → List Uuid → SubtreeNodes
graft below nodes [] = nil
graft below nodes (id ∷ ids) = attach below (get id nodes) (graft below nodes ids)

-- The object graph read as trees, down to `fuel` levels.
unfoldable pub read : ℕ → List Cell → List Uuid → SubtreeNodes
read zero nodes ids = nil
read (suc fuel) nodes ids = graft (read fuel nodes) nodes ids

abbrev pub first : SubtreeNodes → Option SubtreeNode
first nil = none
first (cons t ts) = some t

-- The returned `root`, which is undefined if no row has the id of the task. No path of references
-- is longer than the table, and the root stands on one level more.
abbrev pub subtree_of : List Task → Uuid → List (Task × ℕ) → Option SubtreeNode
subtree_of tasks task_id rows =
    if exists (λ r. (r.0).id == task_id) rows
    then first (read (suc (length tasks)) (link task_id rows (load rows [])) (task_id ∷ []))
    else none

unfoldable pub get_subtree : Uuid → Uuid → Uuid → Exec (Option SubtreeNode)
unfolding find_one_or_fail subtree_rows read
get_subtree workspace_id project_id task_id = do
  find_one_or_fail workspace_id project_id task_id
  tasks ← gets (λ w. w.tasks)
  pure (subtree_of tasks task_id (subtree_rows tasks project_id task_id))

abbrev pub roots : SubtreeNodes → List Entry
roots nil = []
roots (cons (node e cs) ts) = e ∷ roots ts

-- A node is the one of the task at its depth, and its children are those of the tasks whose parent
-- the task is, all of them and no others, on the next level.
unfoldable mutual
  pub IsTree : List Task → Task → ℕ → SubtreeNode → Type 0
  IsTree tasks x depth (node e cs) =
      (e ≡ entry (x, depth))
      × AreTrees tasks x (suc depth) cs
      × ((y : Task) → In y (children tasks x) → In (entry (y, suc depth)) (roots cs))

  pub AreTrees : List Task → Task → ℕ → SubtreeNodes → Type 0
  AreTrees tasks x depth nil = Unit
  AreTrees tasks x depth (cons t ts) =
      ((y : Task) × In y (children tasks x) × IsTree tasks y depth t) × AreTrees tasks x depth ts
