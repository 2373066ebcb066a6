-- ===== src/Tasks/Invariant.antt =====
-- The invariant of the table of tasks, under the writes that TasksService makes.
use task_scheduling_platform.Base.{
  ℕ, suc, ◌≡◌, ◌≢◌, sym, ◌∙◌, ap, subst, Bool, true, false, not, Option, none, some, List, [], ◌∷◌,
  ◌++◌, arith, ◌==◌, if◌then◌else◌, In, In-snoc, snoc-In, In-find, find-In, In-save_row,
  save_row-kept, save_row-saved, inl, inr, Bool-cases, save_row, delete_where,
}
use mathlib.Core.Bool.{false≢true}
use task_scheduling_platform.World.{Uuid, Task}
use task_scheduling_platform.World.Tree.Forest.{IsRanked, IsForest}

-- The primary key: rows with one id are one row.
abbrev pub IsKeyed : List Task → Type 0
IsKeyed tasks = (x y : Task) → In x tasks → In y tasks → x.id ≡ y.id → x ≡ y

-- The parent `p` of a task of the project is a task of that project.
abbrev pub HasParent : List Task → Uuid → Uuid → Type 0
HasParent tasks project_id p = (x : Task) × In x tasks × (x.id ≡ p) × (x.project_id ≡ project_id)

abbrev pub IsRooted : List Task → Type 0
IsRooted tasks =
    (t : Task)
    → In t tasks
    → (p : Uuid) → t.parent_task_id ≡ some p
    → HasParent tasks t.project_id p

pub record IsWell (tasks : List Task) : Type 0 where
  pub forest : IsForest tasks
  pub keyed : IsKeyed tasks
  pub rooted : IsRooted tasks

-- A save of the row `task` that keeps its id and its project.
module _ (tasks : List Task) (task saved : Task) (member : In task tasks)
    (keeps_id : saved.id ≡ task.id) (keeps_project : saved.project_id ≡ task.project_id) where
  abbrev tasks' : List Task
  tasks' = save_row (λ t. t.id) saved tasks

  saved-In : In saved tasks'
  saved-In = save_row-saved (λ t. t.id) saved tasks task member (sym keeps_id)

  pub save-IsKeyed : IsKeyed tasks → IsKeyed tasks'
  save-IsKeyed keyed x y mx my e = elim (In-save_row (λ t. t.id) saved tasks x mx) [
    | inl sx ↦ elim (In-save_row (λ t. t.id) saved tasks y my) [
      | inl sy ↦ sx ∙ sym sy
      | inr (ky, ny) ↦ absurd (ny (sym e ∙ ap (λ (t : Task). t.id) sx))
    ]
    | inr (kx, nx) ↦ elim (In-save_row (λ t. t.id) saved tasks y my) [
      | inl sy ↦ absurd (nx (e ∙ ap (λ (t : Task). t.id) sy))
      | inr (ky, ny) ↦ keyed x y kx ky e
    ]
  ]

  HasParent-save :
      IsKeyed tasks
      → (project_id p : Uuid) → HasParent tasks project_id p
      → HasParent tasks' project_id p
  HasParent-save keyed project_id p (x, m, e, k) = elim (Bool-cases (x.id == saved.id)) [
    | inl it ↦
        let same : x ≡ task = keyed x task m member (ground arith) in
        (
          saved,
          saved-In,
          ground arith,
          keeps_project ∙ sym (ap (λ (t : Task). t.project_id) same) ∙ k,
        )
    | inr other ↦ (x, save_row-kept (λ t. t.id) saved tasks x m (λ h. ground arith), e, k)
  ]

  pub save-IsRooted :
      IsKeyed tasks
      → ((p : Uuid) → saved.parent_task_id ≡ some p → HasParent tasks task.project_id p)
      → IsRooted tasks
      → IsRooted tasks'
  save-IsRooted keyed ours rooted t m p e = elim (In-save_row (λ t. t.id) saved tasks t m) [
    | inl it ↦
        let project : t.project_id ≡ task.project_id =
          ap (λ (x : Task). x.project_id) it ∙ keeps_project in
        let parent : saved.parent_task_id ≡ some p =
          sym (ap (λ (x : Task). x.parent_task_id) it) ∙ e in
        subst (λ k. HasParent tasks' k p) (sym project)
          (HasParent-save keyed task.project_id p (ours p parent))
    | inr (k, n) ↦ HasParent-save keyed t.project_id p (rooted t k p e)
  ]

  -- A save that keeps the parent too keeps all of the invariant.
  pub save-IsWell : saved.parent_task_id ≡ task.parent_task_id → IsWell tasks → IsWell tasks'
  save-IsWell keeps_parent well = record {
    forest =
        let (rank, ranked) = well.forest in
        (
          rank,
          λ t m p e. elim (In-save_row (λ t. t.id) saved tasks t m) [
            | inl it ↦
                let lower = ranked task member p (ground arith) in
                let id : t.id ≡ task.id = ap (λ (x : Task). x.id) it ∙ keeps_id in rw id lower
            | inr (k, n) ↦ ranked t k p e
          ],
        );
    keyed = save-IsKeyed well.keyed;
    rooted =
        save-IsRooted well.keyed (λ p e. well.rooted task member p (sym keeps_parent ∙ e))
          well.rooted;
  }

-- A new row whose id is no id of the table, and whose parent, if any, is in its project.
module _ (tasks : List Task) (new : Task) (fresh : (t : Task) → In t tasks → t.id ≢ new.id)
    (parent : (p : Uuid) → new.parent_task_id ≡ some p → HasParent tasks new.project_id p) where
  -- The rank of the new task: above its parent.
  new_rank : (Uuid → ℕ) → Option Uuid → ℕ
  new_rank rank none = 0
  new_rank rank (some p) = suc (rank p)

  ranks : (Uuid → ℕ) → Uuid → ℕ
  unfolding new_rank
  ranks rank x = if x == new.id then new_rank rank new.parent_task_id else rank x

  ranks-parent :
      (rank : Uuid → ℕ) (project_id p : Uuid) → HasParent tasks project_id p → ranks rank p ≡ rank p
  unfolding ranks
  ranks-parent rank project_id p (x, m, e, _) = ground (arith, fresh x m)

  ranks-IsRanked :
      (rank : Uuid → ℕ)
      → IsRooted tasks
      → IsRanked rank tasks
      → IsRanked (ranks rank) (tasks ++ new ∷ [])
  ranks-IsRanked rank rooted ranked t m p e = elim (In-snoc t new tasks m) [
    | inl k ↦
        rw (ranks-parent rank t.project_id p (rooted t k p e))
          (unfold ranks in ground (arith, fresh t k, ranked t k p e))
    | inr it ↦
        let given : new.parent_task_id ≡ some p =
          sym (ap (λ (x : Task). x.parent_task_id) it) ∙ e in
        let same : t.id ≡ new.id = ap (λ (x : Task). x.id) it in
        rw (same, ranks-parent rank new.project_id p (parent p given))
          (unfold ranks in ground arith)
  ]

  HasParent-append :
      (project_id p : Uuid)
      → HasParent tasks project_id p
      → HasParent (tasks ++ new ∷ []) project_id p
  HasParent-append project_id p (x, m, e, k) = (x, snoc-In x new tasks (inl m), e, k)

  append-IsKeyed : IsKeyed tasks → IsKeyed (tasks ++ new ∷ [])
  append-IsKeyed keyed x y mx my e = elim (In-snoc x new tasks mx) [
    | inl kx ↦ elim (In-snoc y new tasks my) [
      | inl ky ↦ keyed x y kx ky e
      | inr ny ↦ absurd (fresh x kx (e ∙ ap (λ (t : Task). t.id) ny))
    ]
    | inr nx ↦ elim (In-snoc y new tasks my) [
      | inl ky ↦ absurd (fresh y ky (sym e ∙ ap (λ (t : Task). t.id) nx))
      | inr ny ↦ nx ∙ sym ny
    ]
  ]

  append-IsRooted : IsRooted tasks → IsRooted (tasks ++ new ∷ [])
  append-IsRooted rooted t m p e = elim (In-snoc t new tasks m) [
    | inl k ↦ HasParent-append t.project_id p (rooted t k p e)
    | inr it ↦
        subst (λ k. HasParent (tasks ++ new ∷ []) k p) (sym (ap (λ (x : Task). x.project_id) it))
          (HasParent-append new.project_id p
            (parent p (sym (ap (λ (x : Task). x.parent_task_id) it) ∙ e)))
  ]

  pub append-IsWell : IsWell tasks → IsWell (tasks ++ new ∷ [])
  append-IsWell well = record {
    forest =
        let (rank, ranked) = well.forest in (ranks rank, ranks-IsRanked rank well.rooted ranked);
    keyed = append-IsKeyed well.keyed;
    rooted = append-IsRooted well.rooted;
  }

-- A deletion that takes the subtasks of each deleted task too.
module _ (tasks : List Task) (gone : Uuid → Bool)
    (closed : (t : Task) (p : Uuid)
      → In t tasks
      → t.parent_task_id ≡ some p
      → gone p ≡ true
      → gone t.id ≡ true) where
  abbrev left : List Task
  left = delete_where (λ t. gone t.id) tasks

  left-In : (t : Task) → In t left → In t tasks × (gone t.id ≡ false)
  left-In t m = let (k, e) = In-find (λ x. not (gone x.id)) tasks m in (k, ground arith)

  parent_kept :
      (t x : Task) (p : Uuid)
      → In t tasks
      → t.parent_task_id ≡ some p
      → gone t.id ≡ false
      → x.id ≡ p
      → not (gone x.id) ≡ true
  parent_kept t x p k e kept named = elim (Bool-cases (gone p)) [
    | inl taken ↦ absurd (false≢true (sym kept ∙ closed t p k e taken))
    | inr stays ↦ rw (named, stays)
  ]

  pub delete-IsWell : IsWell tasks → IsWell left
  delete-IsWell well = record {
    forest = let (rank, ranked) = well.forest in (rank, λ t m. ranked t (left-In t m).0);
    keyed = λ x y mx my. well.keyed x y (left-In x mx).0 (left-In y my).0;
    rooted = λ t m p e.
        let (k, kept) = left-In t m in
        let (x, n, named, project) = well.rooted t k p e in
        (
          x,
          find-In (λ y. not (gone y.id)) tasks n (parent_kept t x p k e kept named),
          named,
          project,
        );
  }
