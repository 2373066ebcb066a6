-- ===== src/Tasks/Subtree/Depths.antt =====
-- modules/tasks/tasks.service.ts: the rows of the query of `getSubtree`.
use task_scheduling_platform.Base.{
  ℕ, suc, ◌+◌, ◌≤◌, ◌<◌, ◌≡◌, ◌↔◌, ap, subst, true, some, List, [], ◌∷◌, arith, ◌==◌, ◌=?◌, In, inl,
  inr, In-find, find-In, In-snoc, snoc-In, find, length,
}
use native.Mathlib.Nat.{zero-add}
use task_scheduling_platform.World.{Uuid, Task}
use task_scheduling_platform.World.Tree.{children, parents, levels}
use task_scheduling_platform.World.Tree.Levels.{
  Reaches, here, step, Reaches-snoc, In-levels_reached, levels-Reaches,
}
use task_scheduling_platform.World.Tree.Forest.{above, above_falls, starts_above}
use task_scheduling_platform.Pagination.Order.{order_by, In-order_by}
use task_scheduling_platform.Tasks.{in_project}
use task_scheduling_platform.Tasks.Invariant.{IsWell}
use task_scheduling_platform.Tasks.Depth.{parents-id, children-id}
use task_scheduling_platform.Tasks.Subtree.{reverse, subtree_rows}

In-reverse : {A : Type 0} (x : A) (xs : List A) → In x (reverse xs) ↔ In x xs
In-reverse x [] = ground arith
In-reverse x (y ∷ xs) = (
  λ m. elim (In-snoc x y (reverse xs) m) [ inl k ↦ inr ((In-reverse x xs).0 k) | inr e ↦ inl e ],
  λ m. snoc-In x y (reverse xs) (elim m [ inl e ↦ inr e | inr k ↦ inl ((In-reverse x xs).1 k) ]),
)

module _ (tasks : List Task) (well : IsWell tasks) where
  pub Reaches-In : (x y : Task) (n : ℕ) → In x tasks → Reaches (children tasks) x y n → In y tasks
  Reaches-In x y n m (here _) = m
  Reaches-In x y n m (step {y = v} {n = k} first r) =
      Reaches-In v y k (children-id tasks x v first).0 r

  -- The steps down from a task, taken back up.
  climb :
      (x y : Task) (n : ℕ)
      → In x tasks
      → Reaches (children tasks) x y n
      → Reaches (parents tasks) y x n
  climb x y n m (here _) = here x
  climb x y n m (step {y = v} {n = k} first r) =
      let (mv, up) = children-id tasks x v first in
      Reaches-snoc (parents tasks) y v x k (climb v y k mv r)
        (find-In (λ p. some p.id =? v.parent_task_id) tasks m (ground arith))

  parents_unique : (z u v : Task) → In u (parents tasks z) → In v (parents tasks z) → u ≡ v
  parents_unique z u v mu mv =
      let (ku, eu) = parents-id tasks z u mu in
      let (kv, ev) = parents-id tasks z v mv in well.keyed u v ku kv (ground arith)

  climb_rank :
      (y x : Task) (n : ℕ)
      → In y tasks
      → Reaches (parents tasks) y x n
      → (well.forest).0 x.id + n ≤ (well.forest).0 y.id
  climb_rank y x n m (here _) = omega arith
  climb_rank y x n m (step {y = v} {n = k} first r) =
      let (mv, up) = parents-id tasks y v first in
      omega (arith, (well.forest).1 y m v.id up, climb_rank v x k mv r)

  climb_unique :
      (y x : Task) (n k : ℕ)
      → In y tasks
      → Reaches (parents tasks) y x n
      → Reaches (parents tasks) y x k
      → n ≡ k
  climb_unique y x n k m (here _) r = omega (arith, climb_rank y y k m r)
  climb_unique y x n k m (step {y = u} {n = i} first r) (here _) =
      omega (arith, climb_rank y y (suc i) m (step first r))
  climb_unique y x n k m (step {y = u} {n = i} first r) (step {y = v} {n = j} second s) =
      let same : v ≡ u = parents_unique y v u second first in
      ap suc (
        climb_unique u x i j (parents-id tasks y u first).0 r
          (subst (λ z. Reaches (parents tasks) z x j) same s))

  -- A task stands at one depth below another.
  pub depth_unique :
      (x y : Task) (n k : ℕ)
      → In x tasks
      → Reaches (children tasks) x y n
      → Reaches (children tasks) x y k
      → n ≡ k
  depth_unique x y n k m r s =
      climb_unique y x n k (Reaches-In x y n m r) (climb x y n m r) (climb x y k m s)

  pub below_length :
      (x : Task) → In x tasks → above (well.forest).0 tasks (well.forest).1 x < suc (length tasks)
  below_length x m =
      (starts_above (well.forest).0 tasks (well.forest).1 x.id x
        (find-In (λ t. t.id == x.id) tasks m (ground arith))).1

  -- The rows are the tasks below the root, the root too, each at its depth.
  pub In-subtree_rows :
      (project_id : Uuid) (root : Task)
      → In root tasks
      → in_project project_id root.id root ≡ true
      → (y : Task) (n : ℕ)
      → In (y, n) (subtree_rows tasks project_id root.id) ↔ Reaches (children tasks) root y n
  unfolding subtree_rows
  In-subtree_rows project_id root m e y n =
      let starts = find (in_project project_id root.id) tasks in
      let found = levels (suc (length tasks)) (children tasks) 0 starts in
      let is_root : (x : Task) → In x starts → In x tasks × (x ≡ root) = λ x k.
        let (k', test) = In-find (in_project project_id root.id) tasks k in
        (k', well.keyed x root k' m (ground arith)) in
      let there = In-reverse (y, n) (order_by (λ (r : Task × ℕ). r.1) (λ r. (r.0).id) found) in
      let sorted = In-order_by (λ (r : Task × ℕ). r.1) (λ r. (r.0).id) (y, n) found in
      (
        λ k.
            let (x, d, at, same, r) =
              levels-Reaches (children tasks) (suc (length tasks)) 0 starts y n
                (sorted.0 (there.0 k)) in
            let it = (is_root x at).1 in
            let steps : n ≡ d = omega arith in
            rw steps (subst (λ z. Reaches (children tasks) z y d) it r),
        λ r. there.1 (
            sorted.1 (
              rw zero-add at (
                In-levels_reached (children tasks) (λ t. In t tasks)
                  (above (well.forest).0 tasks (well.forest).1)
                  (above_falls (well.forest).0 tasks (well.forest).1) (suc (length tasks)) 0 starts
                  (λ x k. let (k', _) = is_root x k in (k', below_length x k')) root y n
                  (find-In (in_project project_id root.id) tasks m e) r))),
      )
