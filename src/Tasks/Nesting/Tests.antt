-- ===== src/Tasks/Nesting/Tests.antt =====
-- A task created at the depth that `moveTask` allows at most.
use task_scheduling_platform.Base.{◌≡◌, suc, refl, none, some, List, [], ◌∷◌, arith, In, inl, inr}
use task_scheduling_platform.Http.{ok}
use task_scheduling_platform.World.{Uuid, Task}
use task_scheduling_platform.World.Tree.{levels, ancestors}
use task_scheduling_platform.Samples.{task, with_tasks, project, stamp}
use task_scheduling_platform.Tasks.{CreateTaskDto, create, new_task, depth_of, max_depth}
use task_scheduling_platform.Tasks.Invariant.{IsWell, HasParent}
use task_scheduling_platform.Tasks.Commands.{IsFresh}
use task_scheduling_platform.Tasks.Nesting.{create_depth}

-- Tasks 31 to 36, each below the one before.
abbrev chain : List Task
chain =
    task 31 none
    ∷ task 32 (some 31)
    ∷ task 33 (some 32)
    ∷ task 34 (some 33)
    ∷ task 35 (some 34)
    ∷ task 36 (some 35)
    ∷ []

chain-IsRooted :
    (t : Task)
    → In t chain
    → (p : Uuid) → t.parent_task_id ≡ some p
    → HasParent chain t.project_id p
chain-IsRooted t (inl it) p e = absurd (ground arith)
chain-IsRooted t (inr (inl it)) p e = (task 31 none, inl refl, ground arith, ground arith)
chain-IsRooted t (inr (inr (inl it))) p e =
    (task 32 (some 31), inr (inl refl), ground arith, ground arith)
chain-IsRooted t (inr (inr (inr (inl it)))) p e =
    (task 33 (some 32), inr (inr (inl refl)), ground arith, ground arith)
chain-IsRooted t (inr (inr (inr (inr (inl it))))) p e =
    (task 34 (some 33), inr (inr (inr (inl refl))), ground arith, ground arith)
chain-IsRooted t (inr (inr (inr (inr (inr (inl it)))))) p e =
    (task 35 (some 34), inr (inr (inr (inr (inl refl)))), ground arith, ground arith)
chain-IsRooted t (inr (inr (inr (inr (inr (inr x)))))) p e = elim x [ ]

chain-IsWell : IsWell chain
chain-IsWell = record {
  forest = (λ x. x, λ t m p e. ground arith);
  keyed = λ x y m k e. ground arith;
  rooted = chain-IsRooted;
}

abbrev below_36 : CreateTaskDto
below_36 = record {
  title = "title";
  description = none;
  priority = none;
  assignee_id = some 2;
  due_date = none;
  parent_task_id = some 36;
}

stamp_40-IsFresh : IsFresh (stamp 40) (with_tasks chain)
stamp_40-IsFresh t m = ground arith

chain_depth : depth_of chain 36 ≡ max_depth
unfolding depth_of ancestors levels
chain_depth = refl

-- Task 36 is as deep as MAX_DEPTH allows, and a task is created below it.
create_depth_example :
    let (answer, w') = create (stamp 40) 10 20 1 below_36 (with_tasks chain) in
    (answer ≡ ok (new_task (stamp 40) 20 1 below_36))
    × (depth_of w'.tasks 40 ≡ suc (depth_of chain 36))
create_depth_example =
    create_depth (stamp 40) 10 20 1 36 below_36 (with_tasks chain) project (task 36 (some 35))
      chain-IsWell stamp_40-IsFresh refl refl refl refl
