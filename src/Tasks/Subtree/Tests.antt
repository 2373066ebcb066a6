-- ===== src/Tasks/Subtree/Tests.antt =====
-- Runs of `getSubtree` on the sample workspace, and the theorem at a concrete input.
use task_scheduling_platform.Base.{◌≡◌, refl, some, none, List, [], ◌∷◌, arith, inl, inr}
use task_scheduling_platform.Http.{ok, err, not_found}
use task_scheduling_platform.World.{Task}
use task_scheduling_platform.World.Tree.{levels}
use task_scheduling_platform.Samples.{task, with_tasks, world}
use task_scheduling_platform.Pagination.Order.{order_by}
use task_scheduling_platform.Projects
use task_scheduling_platform.Tasks.{find_one_or_fail}
use task_scheduling_platform.Tasks.Invariant.{IsWell, IsRooted}
use task_scheduling_platform.Tasks.Subtree.{
  SubtreeNode, node, nil, cons, entry, subtree_rows, read, get_subtree, IsTree,
}
use task_scheduling_platform.Tasks.Subtree.Shape.{get_subtree-IsTree}

service : Unit {0}
unfolding find_one_or_fail Projects.find_one_or_fail levels order_by subtree_rows read get_subtree
service = tt

-- Tasks 34 and 35 below task 31 too, task 36 below task 34; the rows come in another order.
abbrev five_tasks : List Task
five_tasks =
    task 36 (some 34) ∷ task 35 (some 31) ∷ task 31 none ∷ task 34 (some 31) ∷ task 33 none ∷ []

abbrev expected : SubtreeNode
expected = node (entry (task 31 none, 0)) (
    cons (node (entry (task 34 (some 31), 1)) (cons (node (entry (task 36 (some 34), 2)) nil) nil))
      (cons (node (entry (task 35 (some 31), 1)) nil) nil))

nested : get_subtree 10 20 31 (with_tasks five_tasks) ≡ (ok (some expected), with_tasks five_tasks)
unfolding service
nested = refl

missing : get_subtree 10 20 40 world ≡ (err (not_found "Task not found"), world)
unfolding service
missing = refl

five_tasks-IsRooted : IsRooted five_tasks
five_tasks-IsRooted t (inl h) p e =
    (task 34 (some 31), inr (inr (inr (inl refl))), ground arith, ground arith)
five_tasks-IsRooted t (inr (inl h)) p e =
    (task 31 none, inr (inr (inl refl)), ground arith, ground arith)
five_tasks-IsRooted t (inr (inr (inl h))) p e = absurd (ground arith)
five_tasks-IsRooted t (inr (inr (inr (inl h)))) p e =
    (task 31 none, inr (inr (inl refl)), ground arith, ground arith)
five_tasks-IsRooted t (inr (inr (inr (inr (inl h))))) p e = absurd (ground arith)
five_tasks-IsRooted t (inr (inr (inr (inr (inr n))))) p e = absurd n

five_tasks-IsWell : IsWell five_tasks
five_tasks-IsWell = record {
  forest = (λ x. x, λ t m p e. ground arith);
  keyed = λ x y mx my e. ground arith;
  rooted = five_tasks-IsRooted;
}

five_tasks-found :
    find_one_or_fail 10 20 31 (with_tasks five_tasks) ≡ (ok (task 31 none), with_tasks five_tasks)
unfolding service
five_tasks-found = refl

get_subtree-IsTree_example :
    (tree : SubtreeNode) × (get_subtree 10 20 31 (with_tasks five_tasks)
      ≡ (ok (some tree), with_tasks five_tasks))
    × IsTree five_tasks (task 31 none) 0 tree
get_subtree-IsTree_example =
    get_subtree-IsTree 10 20 31 (with_tasks five_tasks) (with_tasks five_tasks) (task 31 none)
      five_tasks-IsWell five_tasks-found
