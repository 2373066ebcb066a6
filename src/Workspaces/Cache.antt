-- ===== src/Workspaces/Cache.antt =====
-- The cache manager that WorkspacesService is given. Its contents are the entries that were set;
-- the service relies on three facts: a value is returned only under the key that it was set for,
-- `del` removes a key, and neither call brings in anything else. It may drop entries at any time.
pub mod InMemory
use task_scheduling_platform.Base.{
  ℕ, ◌+◌, ◌≡◌, ◌⊎◌, Bool, ◌&&◌, Option, none, some, List, ◌∷◌, ◌==◌, ltb, find_one, delete_where,
}
use task_scheduling_platform.World.{Uuid, Instant, WorkspaceMember, CacheEntry}

pub record CacheManager : Type 0 where
  pub get : Instant → Uuid → Uuid → List CacheEntry → Option WorkspaceMember
  pub set : Instant → Uuid → Uuid → WorkspaceMember → ℕ → List CacheEntry → List CacheEntry
  pub del : Uuid → Uuid → List CacheEntry → List CacheEntry

pub record IsCache (c : CacheManager) : Type 0 where
  pub get-set :
      (now later : Instant) (w u w' u' : Uuid) (m m' : WorkspaceMember) (ttl : ℕ)
      (s : List CacheEntry)
      → c.get later w' u' (c.set now w u m ttl s) ≡ some m'
      → ((w' ≡ w) × (u' ≡ u) × (m' ≡ m)) ⊎ (c.get later w' u' s ≡ some m')
  pub get-del_self :
      (now : Instant) (w u : Uuid) (s : List CacheEntry) → c.get now w u (c.del w u s) ≡ none
  pub get-del :
      (now : Instant) (w u w' u' : Uuid) (m : WorkspaceMember) (s : List CacheEntry)
      → c.get now w' u' (c.del w u s) ≡ some m
      → c.get now w' u' s ≡ some m

-- The in-memory store: one entry for each key, read until it expires.
abbrev under : Uuid → Uuid → CacheEntry → Bool
under w u e = e.workspace_id == w && e.user_id == u

abbrev found : Option CacheEntry → Option WorkspaceMember
found none = none
found (some e) = some e.membership

abbrev pub in_memory : CacheManager
in_memory = record {
  get = λ now w u s. found (find_one (λ e. under w u e && ltb now e.expires_at) s);
  set = λ now w u m ttl s.
      record { workspace_id = w; user_id = u; membership = m; expires_at = now + ttl }
      ∷ delete_where (under w u) s;
  del = λ w u s. delete_where (under w u) s;
}
