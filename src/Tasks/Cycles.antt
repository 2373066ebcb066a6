-- ===== src/Tasks/Cycles.antt =====
-- modules/tasks/tasks.service.ts: `moveTask` and cycles.
use task_scheduling_platform.Base.{
  ℕ, suc, ◌+◌, ◌<◌, ◌≡◌, refl, true, false, some, List, arith, ◌==◌, ◌=?◌, if◌then◌else◌, In,
  In-update_where, exists-In, exists-witness, find-In, inl, inr, Bool-cases,
}
use task_scheduling_platform.Http.{ok}
use task_scheduling_platform.World.{Uuid, Micros, Task, World}
use task_scheduling_platform.World.Tree.{children, descendants}
use task_scheduling_platform.World.Tree.Levels.{here, Reaches-snoc}
use task_scheduling_platform.World.Tree.Forest.{IsRanked, IsForest, In-descendants_iff}
use task_scheduling_platform.Tasks.{is_among, move_task}
use task_scheduling_platform.Tasks.Moves.{IsMove, move_task-IsMove}

-- The descendants are closed under subtasks.
pub is_among-child :
    (tasks : List Task) (id : Uuid) (t : Task) (p : Uuid)
    → IsForest tasks
    → In t tasks
    → t.parent_task_id ≡ some p
    → is_among p (descendants tasks id) ≡ true
    → is_among t.id (descendants tasks id) ≡ true
is_among-child tasks id t p forest m e among =
    let ((x, n), at, named) = exists-witness (λ r. (r.0).id == p) (descendants tasks id) among in
    let (a, a_in, a_id, reached) = (In-descendants_iff tasks forest id x n).0 at in
    let child : In t (children tasks x) =
      find-In (λ c. c.parent_task_id =? some x.id) tasks m (ground arith) in
    exists-In (λ r. (r.0).id == t.id) (descendants tasks id)
      ((In-descendants_iff tasks forest id t (suc n)).1
        (a, a_in, a_id, Reaches-snoc (children tasks) a x t n reached child))
      (ground arith)

pub is_among_self :
    (tasks : List Task) (t : Task)
    → IsForest tasks
    → In t tasks
    → is_among t.id (descendants tasks t.id) ≡ true
is_among_self tasks t forest m =
    exists-In (λ r. (r.0).id == t.id) (descendants tasks t.id)
      ((In-descendants_iff tasks forest t.id t 0).1 (t, m, refl, here t)) (ground arith)

-- The moved subtree is lifted above its new parent; the other tasks keep their rank.
pub lifted : (Uuid → ℕ) → List Task → Uuid → Uuid → Uuid → ℕ
lifted rank tasks task_id parent_id x =
    if is_among x (descendants tasks task_id) then rank x + suc (rank parent_id) else rank x

kept_edge :
    (rank : Uuid → ℕ) (tasks : List Task) (task_id parent_id : Uuid) (a : Task) (p : Uuid)
    → IsRanked rank tasks
    → In a tasks
    → a.parent_task_id ≡ some p
    → lifted rank tasks task_id parent_id p < lifted rank tasks task_id parent_id a.id
unfolding lifted
kept_edge rank tasks task_id parent_id a p ranked m e =
    let lower = ranked a m p e in
    elim (Bool-cases (is_among p (descendants tasks task_id))) [
      | inl among ↦
          rw (among, is_among-child tasks task_id a p (rank, ranked) m e among) (omega arith)
      | inr apart ↦ rw apart (ground arith)
    ]

lifted_edge :
    (rank : Uuid → ℕ) (tasks : List Task) (task_id parent_id : Uuid) (task t : Task) (p : Uuid)
    → IsRanked rank tasks
    → In task tasks
    → task.id ≡ task_id
    → is_among parent_id (descendants tasks task_id) ≡ false
    → t.id ≡ task_id
    → p ≡ parent_id
    → lifted rank tasks task_id parent_id p < lifted rank tasks task_id parent_id t.id
unfolding lifted
lifted_edge rank tasks task_id parent_id task t p ranked m named apart it same =
    let self = is_among_self tasks task (rank, ranked) m in
    rw (same, it, apart, rw named at self) (omega arith)

pub lifted-IsRanked :
    (rank : Uuid → ℕ) (tasks tasks' : List Task) (task_id parent_id : Uuid) (task moved : Task)
    → IsRanked rank tasks
    → IsMove tasks tasks' task_id parent_id task moved
    → IsRanked (lifted rank tasks task_id parent_id) tasks'
unfolding lifted
lifted-IsRanked rank tasks tasks' task_id parent_id task moved ranked move t m p e =
    let (a, a_in, same) =
      In-update_where (λ x. x.id == moved.id) (λ _. moved) tasks (rw move.written at m) in
    elim (Bool-cases (a.id == moved.id)) [
      | inl it ↦
          let is_moved : t ≡ moved = rw it at same in
          lifted_edge rank tasks task_id parent_id task t p ranked move.member move.named move.apart
            (ground arith) (ground arith)
      | inr other ↦
          let is_a : t ≡ a = rw other at same in
          kept_edge rank tasks task_id parent_id t p ranked (rw is_a a_in) e
    ]

-- A move below another task keeps the tasks a forest, if they were one: whatever `moveTask` accepts leaves no task its own ancestor.
pub move_task-IsForest :
    (at : Micros) (workspace_id project_id task_id : Uuid) (parent_id : Uuid) (w w' : World)
    (moved : Task)
    → IsForest w.tasks
    → move_task at workspace_id project_id task_id (some parent_id) w ≡ (ok moved, w')
    → IsForest w'.tasks
move_task-IsForest at workspace_id project_id task_id parent_id w w' moved (rank, ranked) h =
    let (task, move) = move_task-IsMove at workspace_id project_id task_id parent_id w w' moved h in
    (
      lifted rank w.tasks task_id parent_id,
      lifted-IsRanked rank w.tasks w'.tasks task_id parent_id task moved ranked move,
    )
