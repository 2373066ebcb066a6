-- ===== src/World/Tree/Forest.antt =====
-- A table of tasks without cycles, and the recursive queries on it.
use task_scheduling_platform.Base.{
  ℕ, suc, ◌≤◌, ◌<◌, ◌≡◌, ◌≢◌, ◌↔◌, Bool, true, some, List, [], ◌∷◌, arith, ltb, ◌==◌, ◌=?◌, In,
  In-find, find-In, find, length, inl, inr,
}
use native.Mathlib.Nat.{zero-add}
use task_scheduling_platform.World.Accounts.{Uuid}
use task_scheduling_platform.World.Work.{Task}
use task_scheduling_platform.World.Tree.{children, parents, by_id, descendants, ancestors}
use task_scheduling_platform.World.Tree.Levels.{Reaches, In-levels_reached, levels-Reaches}

-- `rank` grows from each task to its subtasks.
abbrev pub IsRanked : (Uuid → ℕ) → List Task → Type 0
IsRanked rank tasks =
    (t : Task) → In t tasks → (p : Uuid) → t.parent_task_id ≡ some p → rank p < rank t.id

-- No task is its own ancestor: the tasks can be ranked.
abbrev pub IsForest : List Task → Type 0
IsForest tasks = (rank : Uuid → ℕ) × IsRanked rank tasks

find-length_le : {A : Type 0} (p : A → Bool) (xs : List A) → length (find p xs) ≤ length xs
find-length_le p [] = omega arith
find-length_le p (x ∷ xs) = ground (arith, find-length_le p xs)

find-length_mono :
    {A : Type 0} (p q : A → Bool) (xs : List A)
    → ((x : A) → p x ≡ true → q x ≡ true)
    → length (find p xs) ≤ length (find q xs)
find-length_mono p q [] h = omega arith
find-length_mono p q (x ∷ xs) h = ground (arith, h x, find-length_mono p q xs h)

find-length_lt :
    {A : Type 0} (p q : A → Bool) (xs : List A) (a : A)
    → ((x : A) → p x ≡ true → q x ≡ true)
    → In a xs
    → q a ≡ true
    → p a ≢ true
    → length (find p xs) < length (find q xs)
find-length_lt p q [] a h m k n = absurd m
find-length_lt p q (x ∷ xs) a h (inl e) k n =
    ground (arith, rw e at k, rw e at n, find-length_mono p q xs h)
find-length_lt p q (x ∷ xs) a h (inr m) k n = ground (arith, h x, find-length_lt p q xs a h m k n)

module _ (rank : Uuid → ℕ) (tasks : List Task) (ranked : IsRanked rank tasks) where
  -- How many tasks stand above the rank of `t`; how many below.
  pub above : Task → ℕ
  above t = length (find (λ x. ltb (rank t.id) (rank x.id)) tasks)

  below : Task → ℕ
  below t = length (find (λ x. ltb (rank x.id) (rank t.id)) tasks)

  pub above_falls :
      (x y : Task) → In x tasks → In y (children tasks x) → In y tasks × (above y < above x)
  unfolding above
  above_falls x y m k =
      let (m', e) = In-find (λ c. c.parent_task_id =? some x.id) tasks k in
      let lower = ranked y m' x.id (ground arith) in
      (
        m',
        find-length_lt (λ z. ltb (rank y.id) (rank z.id)) (λ z. ltb (rank x.id) (rank z.id)) tasks y
            (λ z h. ground arith) m' (ground arith) (λ h. ground arith),
      )

  below_falls :
      (x y : Task) → In x tasks → In y (parents tasks x) → In y tasks × (below y < below x)
  unfolding below
  below_falls x y m k =
      let (m', e) = In-find (λ p. some p.id =? x.parent_task_id) tasks k in
      let lower = ranked x m y.id (ground arith) in
      (
        m',
        find-length_lt (λ z. ltb (rank z.id) (rank y.id)) (λ z. ltb (rank z.id) (rank x.id)) tasks y
            (λ z h. ground arith) m' (ground arith) (λ h. ground arith),
      )

  pub starts_above :
      (id : Uuid) (x : Task) → In x (by_id tasks id) → In x tasks × (above x < suc (length tasks))
  unfolding above
  starts_above id x m =
      let (m', _) = In-find (λ t. t.id == id) tasks m in
      (m', omega (arith, find-length_le (λ z. ltb (rank x.id) (rank z.id)) tasks))

  starts_below :
      (id : Uuid) (x : Task) → In x (by_id tasks id) → In x tasks × (below x < suc (length tasks))
  unfolding below
  starts_below id x m =
      let (m', _) = In-find (λ t. t.id == id) tasks m in
      (m', omega (arith, find-length_le (λ z. ltb (rank z.id) (rank x.id)) tasks))

-- In a forest the query for the descendants ends, and it returns exactly the tasks that steps from
-- parent to child reach from the task, each with the number of those steps.
pub In-descendants_iff :
    (tasks : List Task)
    → IsForest tasks
    → (id : Uuid) (y : Task) (n : ℕ)
    → In (y, n) (descendants tasks id)
      ↔ ((x : Task) × In x tasks × (x.id ≡ id) × Reaches (children tasks) x y n)
unfolding descendants
In-descendants_iff tasks (rank, ranked) id y n = (
  λ m.
      let (x, k, at, same, r) =
        levels-Reaches (children tasks) (suc (length tasks)) 0 (by_id tasks id) y n m in
      let (at', e) = In-find (λ t. t.id == id) tasks at in
      let steps : n ≡ k = omega arith in (x, at', ground arith, rw steps r),
  λ (x, at, e, r). rw zero-add at (
      In-levels_reached (children tasks) (λ t. In t tasks) (above rank tasks ranked)
        (above_falls rank tasks ranked) (suc (length tasks)) 0 (by_id tasks id)
        (starts_above rank tasks ranked id) x y n
        (find-In (λ t. t.id == id) tasks at (ground arith)) r),
)

-- In a forest the query for the ancestors ends, and it returns exactly the tasks that steps from
-- child to parent reach from the task, each with the number of those steps.
pub In-ancestors_iff :
    (tasks : List Task)
    → IsForest tasks
    → (id : Uuid) (y : Task) (n : ℕ)
    → In (y, n) (ancestors tasks id)
      ↔ ((x : Task) × In x tasks × (x.id ≡ id) × Reaches (parents tasks) x y n)
unfolding ancestors
In-ancestors_iff tasks (rank, ranked) id y n = (
  λ m.
      let (x, k, at, same, r) =
        levels-Reaches (parents tasks) (suc (length tasks)) 0 (by_id tasks id) y n m in
      let (at', e) = In-find (λ t. t.id == id) tasks at in
      let steps : n ≡ k = omega arith in (x, at', ground arith, rw steps r),
  λ (x, at, e, r). rw zero-add at (
      In-levels_reached (parents tasks) (λ t. In t tasks) (below rank tasks ranked)
        (below_falls rank tasks ranked) (suc (length tasks)) 0 (by_id tasks id)
        (starts_below rank tasks ranked id) x y n
        (find-In (λ t. t.id == id) tasks at (ground arith)) r),
)
