-- ===== src/World/Tree.antt =====
-- The recursive queries of TasksService: `WITH RECURSIVE` is evaluated level by level, each level
-- being the rows that join the level before. SQL goes on until a level is empty; the model takes
-- one level more than the table has rows.
pub mod Levels
pub mod Forest
use task_scheduling_platform.Base.{
  ℕ, zero, suc, ◌+◌, Option, none, some, List, [], ◌∷◌, ◌++◌, map, ◌==◌, ◌=?◌, find, length,
}
use task_scheduling_platform.World.Accounts.{Uuid}
use task_scheduling_platform.World.Work.{Task}

module _ {A : Type 0} where
  abbrev pub flat_map : (A → List A) → List A → List A
  flat_map next [] = []
  flat_map next (x ∷ xs) = next x ++ flat_map next xs

  abbrev pub tag : ℕ → List A → List (A × ℕ)
  tag depth [] = []
  tag depth (x ∷ xs) = (x, depth) ∷ tag depth xs

  unfoldable pub levels : ℕ → (A → List A) → ℕ → List A → List (A × ℕ)
  levels zero next depth rows = []
  levels (suc fuel) next depth rows =
      tag depth rows ++ levels fuel next (suc depth) (flat_map next rows)

module _ (tasks : List Task) where
  -- `c.parent_task_id = d.id`
  abbrev pub children : Task → List Task
  children t = find (λ c. c.parent_task_id =? some t.id) tasks

  -- `t.id = a.parent_task_id`
  abbrev pub parents : Task → List Task
  parents t = find (λ p. some p.id =? t.parent_task_id) tasks

  abbrev pub by_id : Uuid → List Task
  by_id id = find (λ t. t.id == id) tasks

  -- A task and all below it, each with its depth below the task.
  unfoldable pub descendants : Uuid → List (Task × ℕ)
  unfolding levels
  descendants id = levels (suc (length tasks)) children 0 (by_id id)

  -- A task and all above it, each with its distance.
  unfoldable pub ancestors : Uuid → List (Task × ℕ)
  unfolding levels
  ancestors id = levels (suc (length tasks)) parents 0 (by_id id)
