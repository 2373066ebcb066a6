-- ===== src/Workspaces/Cache/InMemory.antt =====
-- The laws of the cache for the in-memory store.
use task_scheduling_platform.Base.{
  ◌+◌, ◌≡◌, ◌⊎◌, sym, ap, ◌&&◌, Option, none, some, List, [], ◌∷◌, arith, inl, inr, Bool-cases,
  find_one-delete_where_all, delete_where, ltb,
}
use mathlib.Core.Path.{subst₂}
use task_scheduling_platform.World.{Uuid, Instant, WorkspaceMember, CacheEntry}
use task_scheduling_platform.Workspaces.Cache.{IsCache, under, found, in_memory}

abbrev get : Instant → Uuid → Uuid → List CacheEntry → Option WorkspaceMember
get now w u s = in_memory.get now w u s

get-cons :
    (now : Instant) (w u : Uuid) (e : CacheEntry) (s : List CacheEntry) (m : WorkspaceMember)
    → get now w u (e ∷ s) ≡ some m
    → ((e.workspace_id ≡ w) × (e.user_id ≡ u) × (e.membership ≡ m)) ⊎ (get now w u s ≡ some m)
get-cons now w u e s m h = elim (Bool-cases (under w u e && ltb now e.expires_at)) [
  | inl here ↦ inl (ground arith, ground arith, ground arith)
  | inr other ↦ inr (rw other at h)
]

get-delete_self :
    (now : Instant) (w u : Uuid) (s : List CacheEntry)
    → get now w u (delete_where (under w u) s) ≡ none
get-delete_self now w u s = ap found (
    find_one-delete_where_all (λ e. under w u e && ltb now e.expires_at) (under w u) s
      (λ a k e. ground arith))

get-delete_where :
    (now : Instant) (w u w' u' : Uuid) (m : WorkspaceMember) (s : List CacheEntry)
    → get now w' u' (delete_where (under w u) s) ≡ some m
    → get now w' u' s ≡ some m
get-delete_where now w u w' u' m [] h = h
get-delete_where now w u w' u' m (e ∷ s) h = elim (Bool-cases (under w u e)) [
  | inl dropped ↦
      let rest = get-delete_where now w u w' u' m s (rw dropped at h) in
      elim (Bool-cases (under w' u' e)) [
        | inr other ↦ rw other rest
        | inl same ↦
            let p : w ≡ w' = ground arith in
            let q : u ≡ u' = ground arith in
            let gone = get-delete_self now w' u' s in
            let k = rw dropped at h in
            let k' = subst₂ (λ a b. get now w' u' (delete_where (under a b) s) ≡ some m) p q k in
            absurd (ground arith)
      ]
  | inr kept ↦ elim (Bool-cases (under w' u' e && ltb now e.expires_at)) [
    | inl here ↦ rw here (rw (kept, here) at h)
    | inr other ↦ rw other (get-delete_where now w u w' u' m s (rw (kept, other) at h))
  ]
]

pub in_memory-IsCache : IsCache in_memory
in_memory-IsCache = record {
  get-set = λ now later w u w' u' m m' ttl s h.
      elim (get-cons later w' u'
        (record { workspace_id = w; user_id = u; membership = m; expires_at = now + ttl })
        (delete_where (under w u) s) m' h) [
          | inl (p, q, e) ↦ inl (sym p, sym q, sym e)
          | inr k ↦ inr (get-delete_where later w u w' u' m' s k)
        ];
  get-del_self = get-delete_self;
  get-del = get-delete_where;
}
