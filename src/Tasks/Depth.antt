-- ===== src/Tasks/Depth.antt =====
-- The nesting limit of `moveTask`, which looks at it where there is a new parent only.
use mathlib.Core.Bool.{false≢true}
use task_scheduling_platform.Base.{
  ℕ, zero, suc, ◌+◌, ◌≤◌, ◌≡◌, ◌≢◌, refl, sym, ◌∙◌, ap, subst, Bool, true, false, some, List, [],
  ◌∷◌, arith, ◌=?◌, In, In-find, find-In, In-save_row, save_row-saved, inl, inr,
}
use task_scheduling_platform.Http.{ok}
use task_scheduling_platform.World.{Uuid, Micros, Task, World}
use task_scheduling_platform.World.Tree.{children, parents, descendants, ancestors}
use task_scheduling_platform.World.Tree.Levels.{Reaches, here, step}
use task_scheduling_platform.World.Tree.Forest.{In-descendants_iff, In-ancestors_iff}
use task_scheduling_platform.Tasks.{max_depth, max_of, depth_of, is_among, move_task}
use task_scheduling_platform.Tasks.Moves.{IsMove, move_task-IsMove}
use task_scheduling_platform.Tasks.Cycles.{is_among-child, is_among_self}
use task_scheduling_platform.Tasks.Invariant.{IsWell}
use task_scheduling_platform.Tasks.Steps.{move_ok}

pub In-le_max_of : (rows : List (Task × ℕ)) (y : Task) (k : ℕ) → In (y, k) rows → k ≤ max_of rows
In-le_max_of [] y k m = absurd m
In-le_max_of (r ∷ rows) y k (inl e) =
    let same : k ≡ r.1 = ap (λ (s : Task × ℕ). s.1) e in omega arith
In-le_max_of (r ∷ rows) y k (inr m) = omega (arith, In-le_max_of rows y k m)

pub max_of-le :
    (rows : List (Task × ℕ)) (bound : ℕ)
    → ((y : Task) (k : ℕ) → In (y, k) rows → k ≤ bound)
    → max_of rows ≤ bound
max_of-le [] bound h = omega arith
max_of-le (r ∷ rows) bound h =
    omega (arith, h r.0 r.1 (inl refl), max_of-le rows bound (λ y k m. h y k (inr m)))

pub parents-id :
    (tasks : List Task) (z v : Task)
    → In v (parents tasks z)
    → In v tasks × (z.parent_task_id ≡ some v.id)
parents-id tasks z v m =
    let (k, e) = In-find (λ p. some p.id =? z.parent_task_id) tasks m in (k, ground arith)

pub children-id :
    (tasks : List Task) (a c : Task)
    → In c (children tasks a)
    → In c tasks × (c.parent_task_id ≡ some a.id)
children-id tasks a c m =
    let (k, e) = In-find (λ c. c.parent_task_id =? some a.id) tasks m in (k, ground arith)

-- At most `bound` steps lead up from `a`.
abbrev IsBound : List Task → Task → ℕ → Type 0
IsBound tasks a bound = (y : Task) (k : ℕ) → Reaches (parents tasks) a y k → k ≤ bound

child_depth :
    (tasks : List Task) (a c : Task) (bound : ℕ)
    → IsWell tasks
    → In a tasks
    → In c (children tasks a)
    → IsBound tasks a bound
    → IsBound tasks c (suc bound)
child_depth tasks a c bound well m k low y zero r = omega arith
child_depth tasks a c bound well m k low y (suc n) (step {y = v} first r) =
    let (_, up) = parents-id tasks c v first in
    let (_, down) = children-id tasks a c k in
    let same : v ≡ a = well.keyed v a (parents-id tasks c v first).0 m (cc (sym up ∙ down)) in
    omega (arith, low y n (subst (λ z. Reaches (parents tasks) z y n) same r))

down_depth :
    (tasks : List Task) (a x : Task) (n bound : ℕ)
    → IsWell tasks
    → In a tasks
    → IsBound tasks a bound
    → Reaches (children tasks) a x n
    → In x tasks × IsBound tasks x (bound + n)
down_depth tasks a x n bound well m low (here _) = (m, λ y k r. omega (arith, low y k r))
down_depth tasks a x n bound well m low (step {y = c} {n = j} first r) =
    let (member, low') =
      down_depth tasks c x j (suc bound) well (children-id tasks a c first).0
        (child_depth tasks a c bound well m first low) r in
    (member, λ y k up. omega (arith, low' y k up))

ne_true : (b : Bool) → b ≢ true → b ≡ false
ne_true true h = absurd (h refl)
ne_true false h = refl

module _ (tasks tasks' : List Task) (task_id parent_id : Uuid) (task moved : Task)
    (well : IsWell tasks) (well' : IsWell tasks')
    (move : IsMove tasks tasks' task_id parent_id task moved) where
  abbrev among : Uuid → Bool
  among id = is_among id (descendants tasks task_id)

  among_self : among task_id ≡ true
  among_self =
      subst (λ k. is_among k (descendants tasks k) ≡ true) move.named
        (is_among_self tasks task well.forest move.member)

  kept : (y : Task) → In y tasks' → y.id ≢ task_id → In y tasks
  kept y m h = elim (In-save_row (λ t. t.id) moved tasks y (subst (In y) move.written m)) [
    | inl it ↦ absurd (h (ap (λ (t : Task). t.id) it ∙ move.keeps_id))
    | inr (k, _) ↦ k
  ]

  -- Above a task outside of the moved subtree nothing has changed.
  up_kept :
      (z y : Task) (k : ℕ)
      → among z.id ≡ false
      → In z tasks
      → Reaches (parents tasks') z y k
      → Reaches (parents tasks) z y k
  up_kept z y k apart m (here _) = here z
  up_kept z y k apart m (step {y = v} {n = n} first r) =
      let (m', e) = parents-id tasks' z v first in
      let apart' : among v.id ≡ false =
        ne_true (among v.id)
          (λ h. false≢true (sym apart ∙ is_among-child tasks task_id z v.id well.forest m e h)) in
      let k' : In v tasks = kept v m' (λ h. false≢true (sym apart' ∙ ap among h ∙ among_self)) in
      step (find-In (λ p. some p.id =? z.parent_task_id) tasks k' (ground arith))
        (up_kept v y n apart' k' r)

  moved_depth : IsBound tasks' moved (depth_of tasks parent_id + 1)
  unfolding depth_of
  moved_depth y zero r = omega arith
  moved_depth y (suc n) (step {y = v} first r) =
      let (m, e) = parents-id tasks' moved v first in
      let named : v.id ≡ parent_id = cc (sym e ∙ move.parent) in
      let apart : among v.id ≡ false = ap among named ∙ move.apart in
      let k : In v tasks = kept v m (λ h. false≢true (sym apart ∙ ap among h ∙ among_self)) in
      omega (
        arith,
        In-le_max_of (ancestors tasks parent_id) y n (
            (In-ancestors_iff tasks well.forest parent_id y n).1
              (v, k, named, up_kept v y n apart k r)),
      )

  -- The moved subtree is the old one.
  down_kept :
      (a a° x : Task) (n : ℕ)
      → In a° tasks
      → a°.id ≡ a.id
      → among a.id ≡ true
      → Reaches (children tasks') a x n
      → (x° : Task) × Reaches (children tasks) a° x° n
  down_kept a a° x n m same inside (here _) = (a°, here a°)
  down_kept a a° x n m same inside (step {y = c} {n = j} first r) =
      let (m', e) = children-id tasks' a c first in
      elim (In-save_row (λ t. t.id) moved tasks c (subst (In c) move.written m')) [
        | inl it ↦
            let top : a.id ≡ parent_id =
              cc (sym e ∙ ap (λ (t : Task). t.parent_task_id) it ∙ move.parent) in
            absurd (false≢true (sym move.apart ∙ ap among (sym top) ∙ inside))
        | inr (k, _) ↦
            let down =
              down_kept c c x j k refl (is_among-child tasks task_id c a.id well.forest k e inside)
                r in
            (
              down.0,
              step (find-In (λ t. t.parent_task_id =? some a°.id) tasks k (ground arith)) down.1,
            )
      ]

  moved_member : In moved tasks'
  moved_member =
      subst (In moved) (sym move.written)
        (save_row-saved (λ t. t.id) moved tasks task move.member (move.named ∙ sym move.keeps_id))

  -- Each task of the moved subtree keeps within the limit.
  subtree_depth :
      (x : Task) (n : ℕ) → In (x, n) (descendants tasks' task_id) → depth_of tasks' x.id ≤ max_depth
  unfolding depth_of
  subtree_depth x n m =
      let (a, a_in, named, reached) = (In-descendants_iff tasks' well'.forest task_id x n).0 m in
      let top : a ≡ moved = well'.keyed a moved a_in moved_member (named ∙ sym move.keeps_id) in
      let reached' = subst (λ t. Reaches (children tasks') t x n) top reached in
      let (x_in, low) = down_depth tasks' moved x n _ well' moved_member moved_depth reached' in
      let (x°, old) =
        down_kept moved task x n move.member (move.named ∙ sym move.keeps_id)
          (ap among move.keeps_id ∙ among_self) reached' in
      let height = In-le_max_of (descendants tasks task_id) x° n (
        (In-descendants_iff tasks well.forest task_id x° n).1
          (task, move.member, move.named, old)) in
      max_of-le (ancestors tasks' x.id) max_depth (λ y k up.
        let (z, z_in, z_id, r) = (In-ancestors_iff tasks' well'.forest x.id y k).0 up in
        let same : z ≡ x = well'.keyed z x z_in x_in z_id in
        omega (arith, low y k (subst (λ t. Reaches (parents tasks') t y k) same r), move.shallow))

-- After a successful move below another task every task of the moved subtree, the task itself
-- included, is at most MAX_DEPTH levels below its root, by the measure of `depthOf`, in a table that
-- keeps the invariant.
pub move_task_depth :
    (at : Micros) (workspace_id project_id task_id parent_id : Uuid) (w w' : World) (moved : Task)
    → IsWell w.tasks
    → move_task at workspace_id project_id task_id (some parent_id) w ≡ (ok moved, w')
    → (x : Task) (n : ℕ) → In (x, n) (descendants w'.tasks task_id)
    → depth_of w'.tasks x.id ≤ max_depth
move_task_depth at workspace_id project_id task_id parent_id w w' moved well h x n m =
    let (task, move) = move_task-IsMove at workspace_id project_id task_id parent_id w w' moved h in
    let well' = move_ok workspace_id project_id task_id w at (some parent_id) moved w' well h in
    subtree_depth w.tasks w'.tasks task_id parent_id task moved well well' move x n m
