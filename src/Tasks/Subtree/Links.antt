-- ===== src/Tasks/Subtree/Links.antt =====
-- modules/tasks/tasks.service.ts: the two loops of `getSubtree` over the rows.
use task_scheduling_platform.Base.{
  ℕ, ◌≡◌, ◌≢◌, refl, sym, ap, ◌∙◌, Bool, true, not, some, List, [], ◌∷◌, ◌++◌, arith, ◌==◌, ◌=?◌,
  ◌&&◌, if◌then◌else◌, In, inl, inr, ◌⊎◌, Bool-cases, Option-cases, append_assoc, append-nil,
}
use task_scheduling_platform.World.{Uuid, Task}
use task_scheduling_platform.Tasks.Subtree.{
  Cell, cell, get, set, load, push, push_to, link_row, link,
}

get-set_same :
    (id : Uuid) (new : Cell) (nodes : List Cell)
    → (new.entry).id ≡ id
    → get id (set new nodes) ≡ some new
get-set_same id new [] h = ground arith
get-set_same id new (c ∷ nodes) h = ground (arith, get-set_same id new nodes h)

get-set_other :
    (id : Uuid) (new : Cell) (nodes : List Cell)
    → (new.entry).id ≢ id
    → get id (set new nodes) ≡ get id nodes
get-set_other id new [] h = ground arith
get-set_other id new (c ∷ nodes) h = ground (arith, get-set_other id new nodes h)

-- After the first loop a row is found by its id, if no other row has it.
pub get-load :
    (rows : List (Task × ℕ)) (nodes : List Cell) (r : Task × ℕ)
    → ((s : Task × ℕ) → In s rows → (s.0).id ≡ (r.0).id → s ≡ r)
    → In r rows ⊎ (get (r.0).id nodes ≡ some (cell r))
    → get (r.0).id (load rows nodes) ≡ some (cell r)
get-load [] nodes r unique (inl m) = absurd m
get-load [] nodes r unique (inr h) = h
get-load (s ∷ rows) nodes r unique h = elim (Bool-cases ((s.0).id == (r.0).id)) [
  | inl e ↦
      let same : s ≡ r = unique s (inl refl) (ground arith) in
      get-load rows (set (cell s) nodes) r (λ z m. unique z (inr m))
        (inr (rw same (get-set_same (r.0).id (cell r) nodes refl)))
  | inr e ↦
      let kept = get-set_other (r.0).id (cell s) nodes (ground arith) in
      get-load rows (set (cell s) nodes) r (λ z m. unique z (inr m))
        (elim h [
          | inl m ↦ elim m [
            | inl same ↦ absurd (ground (arith, rw same at e))
            | inr later ↦ inl later
          ]
          | inr found ↦ inr (kept ∙ found)
        ])
]

-- The ids that the second loop pushes to the children of `id`.
abbrev pub is_pushed : Uuid → Uuid → Task → Bool
is_pushed task_id id t = not (t.id == task_id) && t.parent_task_id =? some id

abbrev pub pushed : Uuid → Uuid → List (Task × ℕ) → List Uuid
pushed task_id id [] = []
pushed task_id id (r ∷ rows) =
    let rest = pushed task_id id rows in if is_pushed task_id id r.0 then (r.0).id ∷ rest else rest

abbrev grown : List Uuid → Cell → Cell
grown ids c = record c { children = c.children ++ ids }

get-push :
    (id p new : Uuid) (nodes : List Cell) (c : Cell)
    → get id nodes ≡ some c
    → get id (push_to (some p) new nodes) ≡ some (if p == id then push new c else c)
get-push id p new [] c h = cc
get-push id p new (d ∷ nodes) c h = ground (arith, get-push id p new nodes c)

get-link_row :
    (task_id id : Uuid) (t : Task) (nodes : List Cell) (c : Cell)
    → get id nodes ≡ some c
    → get id (link_row task_id t nodes) ≡ some (if is_pushed task_id id t then push t.id c else c)
get-link_row task_id id t nodes c h = elim (Bool-cases (t.id == task_id)) [
  | inl e ↦ rw e h
  | inr e ↦ elim (Option-cases t.parent_task_id) [
    | inl none' ↦ rw (e, none') h
    | inr (p, some') ↦ rw (e, some') (get-push id p t.id nodes c h)
  ]
]

-- The second loop adds to the children of a node the rows below it, in their order.
pub get-link :
    (task_id id : Uuid) (rows : List (Task × ℕ)) (nodes : List Cell) (c : Cell)
    → get id nodes ≡ some c
    → get id (link task_id rows nodes) ≡ some (grown (pushed task_id id rows) c)
get-link task_id id [] nodes c h =
    h ∙ ap (λ ids. some (record c { children = ids })) (sym (append-nil c.children))
get-link task_id id (r ∷ rows) nodes c h =
    let next = get-link_row task_id id r.0 nodes c h in
    elim (Bool-cases (is_pushed task_id id r.0)) [
      | inl e ↦ rw e (
          get-link task_id id rows (link_row task_id r.0 nodes) (push (r.0).id c) (rw e at next)
          ∙ ap (λ ids. some (record c { children = ids }))
              (append_assoc c.children ((r.0).id ∷ []) (pushed task_id id rows)))
      | inr e ↦ rw e (get-link task_id id rows (link_row task_id r.0 nodes) c (rw e at next))
    ]

pub In-pushed :
    (task_id id : Uuid) (rows : List (Task × ℕ)) (child : Uuid)
    → In child (pushed task_id id rows)
    → (r : Task × ℕ) × In r rows × ((r.0).id ≡ child) × ((r.0).parent_task_id ≡ some id)
In-pushed task_id id [] child m = absurd m
In-pushed task_id id (r ∷ rows) child m = elim (Bool-cases (is_pushed task_id id r.0)) [
  | inl e ↦ elim (rw e at m) [
    | inl it ↦ (r, inl refl, sym it, ground arith)
    | inr later ↦ let (s, k, a, b) = In-pushed task_id id rows child later in (s, inr k, a, b)
  ]
  | inr e ↦ let (s, k, a, b) = In-pushed task_id id rows child (rw e at m) in (s, inr k, a, b)
]

pub pushed-In :
    (task_id id : Uuid) (rows : List (Task × ℕ)) (r : Task × ℕ)
    → In r rows
    → is_pushed task_id id r.0 ≡ true
    → In (r.0).id (pushed task_id id rows)
pushed-In task_id id [] r m h = absurd m
pushed-In task_id id (s ∷ rows) r (inl e) h =
    let h' : is_pushed task_id id s.0 ≡ true = rw e at h in
    rw h' (inl (ap (λ (z : Task × ℕ). (z.0).id) e))
pushed-In task_id id (s ∷ rows) r (inr m) h = ground (arith, pushed-In task_id id rows r m h)
