-- ===== src/Tasks/Subtree/Shape.antt =====
-- modules/tasks/tasks.service.ts: the shape of the tree that `getSubtree` returns.
use task_scheduling_platform.Base.{
  ℕ, zero, suc, ◌<◌, ◌≡◌, ◌≢◌, refl, sym, ap, ◌∙◌, subst, true, some, List, [], ◌∷◌, arith, ◌==◌,
  ◌=?◌, In, inl, inr, find-In, length, exists-In,
}
use task_scheduling_platform.Http.{ok}
use task_scheduling_platform.World.{Uuid, Task, World}
use task_scheduling_platform.World.Tree.{children}
use task_scheduling_platform.World.Tree.Levels.{Reaches, here, Reaches-snoc}
use task_scheduling_platform.World.Tree.Forest.{above, above_falls}
use task_scheduling_platform.Tasks.{in_project, find_one_or_fail}
use task_scheduling_platform.Tasks.Moves.{find_one_or_fail-ok}
use task_scheduling_platform.Tasks.Invariant.{IsWell}
use task_scheduling_platform.Tasks.Depth.{children-id}
use task_scheduling_platform.Tasks.Subtree.{
  Cell, SubtreeNode, SubtreeNodes, node, entry, cell, get, load, link, graft, read, roots,
  subtree_rows, subtree_of, get_subtree, IsTree, AreTrees,
}
use task_scheduling_platform.Tasks.Subtree.Links.{get-load, get-link, pushed, In-pushed, pushed-In}
use task_scheduling_platform.Tasks.Subtree.Depths.{
  In-subtree_rows, depth_unique, Reaches-In, below_length,
}

module _ (tasks : List Task) (well : IsWell tasks) (project_id : Uuid) (root : Task)
    (member : In root tasks) (named : in_project project_id root.id root ≡ true) where
  abbrev rows : List (Task × ℕ)
  rows = subtree_rows tasks project_id root.id

  abbrev nodes : List Cell
  nodes = link root.id rows (load rows [])

  abbrev ids_below : Uuid → List Uuid
  ids_below id = pushed root.id id rows

  abbrev Down : Task → ℕ → Type 0
  Down x n = Reaches (children tasks) root x n

  rows_unique :
      (y : Task) (n : ℕ) → Down y n → (s : Task × ℕ) → In s rows → (s.0).id ≡ y.id → s ≡ (y, n)
  rows_unique y n r (z, k) m e =
      let s : Down z k = (In-subtree_rows tasks well project_id root member named z k).0 m in
      let same : z ≡ y =
        well.keyed z y (Reaches-In tasks well root z k member s)
          (Reaches-In tasks well root y n member r) e in
      let depth : k ≡ n =
        depth_unique tasks well root y k n member (subst (λ t. Down t k) same s) r in
      rw (same, depth) refl

  -- The node of a task below the root, once both loops are through.
  get-nodes :
      (y : Task) (n : ℕ)
      → Down y n
      → get y.id nodes ≡ some (record { entry = entry (y, n); children = ids_below y.id })
  get-nodes y n r = get-link root.id y.id rows (load rows []) (cell (y, n)) (
      get-load rows [] (y, n) (rows_unique y n r)
        (inl ((In-subtree_rows tasks well project_id root member named y n).1 r)))

  abbrev measure : Task → ℕ
  measure x = above (well.forest).0 tasks (well.forest).1 x

  -- Ids that are children of `x`.
  abbrev AreBelow : Task → List Uuid → Type 0
  AreBelow x ids = (id : Uuid) → In id ids → (z : Task) × In z (children tasks x) × (z.id ≡ id)

  abbrev IsRead : Task → ℕ → List Uuid → SubtreeNodes → Type 0
  IsRead x n ids ts =
      AreTrees tasks x (suc n) ts
      × ((z : Task) → In z (children tasks x) → In z.id ids → In (entry (z, suc n)) (roots ts))

  ids_below-AreBelow : (x : Task) (n : ℕ) → Down x n → AreBelow x (ids_below x.id)
  ids_below-AreBelow x n r id m =
      let ((z, k), at, e, p) = In-pushed root.id x.id rows id m in
      (
        z,
        find-In (λ c. c.parent_task_id =? some x.id) tasks
            (Reaches-In tasks well root z k member
              ((In-subtree_rows tasks well project_id root member named z k).0 at))
            (ground arith),
        e,
      )

  In-ids_below :
      (x z : Task) (n : ℕ) → Down x n → In z (children tasks x) → In z.id (ids_below x.id)
  In-ids_below x z n r m =
      let down : Down z (suc n) = Reaches-snoc (children tasks) root x z n r m in
      let (_, up) = children-id tasks x z m in
      let not_root : z.id ≢ root.id = λ e.
        let same : z ≡ root =
          well.keyed z root (Reaches-In tasks well root z (suc n) member down) member e in
        omega (
          arith,
          depth_unique tasks well root root (suc n) 0 member (subst (λ t. Down t (suc n)) same down)
              (here root),
        ) in
      pushed-In root.id x.id rows (z, suc n)
        ((In-subtree_rows tasks well project_id root member named z (suc n)).1 down)
        (ground (arith, not_root))

  graft-IsRead :
      (x : Task) (n fuel : ℕ)
      → Down x n
      → ((z : Task)
          → In z (children tasks x)
          → IsRead z (suc n) (ids_below z.id) (read fuel nodes (ids_below z.id)))
      → (ids : List Uuid) → AreBelow x ids
      → IsRead x n ids (graft (read fuel nodes) nodes ids)
  unfolding AreTrees IsTree
  graft-IsRead x n fuel r step [] low = (tt, λ z m k. k)
  graft-IsRead x n fuel r step (id ∷ ids) low =
      let (y, m, e) = low id (inl refl) in
      let down : Down y (suc n) = Reaches-snoc (children tasks) root x y n r m in
      let here' = get-nodes y (suc n) down in
      let (trees, all) = graft-IsRead x n fuel r step ids (λ i k. low i (inr k)) in
      let (below, every) = step y m in
      rw (sym e) (
        rw here' (
          ((y, m, (refl, below, λ z k. every z k (In-ids_below y z (suc n) down k))), trees),
          λ z k at. elim at [
            | inl same ↦ inl (
                ap (λ t. entry (t, suc n))
                  (well.keyed z y (children-id tasks x z k).0 (children-id tasks x y m).0 same))
            | inr later ↦ inr (all z k later)
          ],
        ))

  falls_below_parent :
      (x z : Task) (n : ℕ) → Down x n → In z (children tasks x) → measure z < measure x
  falls_below_parent x z n r m =
      (above_falls (well.forest).0 tasks (well.forest).1 x z
        (Reaches-In tasks well root x n member r) m).1

  read-IsRead :
      (fuel : ℕ) (x : Task) (n : ℕ)
      → Down x n
      → measure x < suc fuel
      → (ids : List Uuid) → AreBelow x ids
      → IsRead x n ids (read fuel nodes ids)
  unfolding AreTrees read
  read-IsRead zero x n r low ids all =
      (tt, λ z m k. absurd (omega (arith, falls_below_parent x z n r m)))
  read-IsRead (suc fuel) x n r low ids all =
      graft-IsRead x n fuel r
        (λ z m.
          read-IsRead fuel z (suc n) (Reaches-snoc (children tasks) root x z n r m)
            (omega (arith, falls_below_parent x z n r m)) (ids_below z.id)
            (ids_below-AreBelow z (suc n) (Reaches-snoc (children tasks) root x z n r m)))
        ids all

  subtree_of-IsTree :
      (t : SubtreeNode) × (subtree_of tasks root.id rows ≡ some t) × IsTree tasks root 0 t
  unfolding read IsTree
  subtree_of-IsTree =
      let (trees, every) =
        read-IsRead (length tasks) root 0 (here root) (below_length tasks well root member)
          (ids_below root.id) (ids_below-AreBelow root 0 (here root)) in
      let found =
        exists-In (λ (r : Task × ℕ). (r.0).id == root.id) rows
          ((In-subtree_rows tasks well project_id root member named root 0).1 (here root))
          (ground arith) in
      let at = get-nodes root 0 (here root) in
      (
        node (entry (root, 0)) (read (length tasks) nodes (ids_below root.id)),
        rw (found, at) refl,
        (refl, trees, λ y m. every y m (In-ids_below root y 0 (here root) m)),
      )

-- Where `findOneOrFail` finds the task, `getSubtree` returns a tree and changes nothing: the root is
-- the task at depth 0, and under each node are the nodes of exactly the tasks whose parent its task
-- is, each at the next depth. The table is well formed: its tasks have no cycle, and their ids differ.
pub get_subtree-IsTree :
    (workspace_id project_id task_id : Uuid) (w v : World) (root : Task)
    → IsWell w.tasks
    → find_one_or_fail workspace_id project_id task_id w ≡ (ok root, v)
    → (tree : SubtreeNode) × (get_subtree workspace_id project_id task_id w ≡ (ok (some tree), w))
      × IsTree w.tasks root 0 tree
unfolding get_subtree
get_subtree-IsTree workspace_id project_id task_id w v root well found =
    let (member, named, project, same) =
      find_one_or_fail-ok workspace_id project_id task_id w v root found in
    let (tree, built, is_tree) =
      subtree_of-IsTree w.tasks well project_id root member (ground arith) in
    let found' : find_one_or_fail workspace_id project_id task_id w ≡ (ok root, w) =
      found ∙ ap (λ u. (ok root, u)) same in
    let built' =
      subst (λ id. subtree_of w.tasks id (subtree_rows w.tasks project_id id) ≡ some tree) named
        built in
    (tree, rw found' (ap (λ t. (ok t, w)) built'), is_tree)
