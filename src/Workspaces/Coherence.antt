-- ===== src/Workspaces/Coherence.antt =====
-- modules/workspaces/workspaces.service.ts: the cache of memberships against the table.
use task_scheduling_platform.Base.{
  ◌≡◌, refl, some, arith, In, inl, inr, ◌==◌, Option-cases, save_row, delete_where,
}
use task_scheduling_platform.Http.{ok}
use task_scheduling_platform.World.{Uuid, Instant, WorkspaceMember, World}
use task_scheduling_platform.World.Membership.{WorkspaceRole}
use task_scheduling_platform.Workspaces.{
  find_member, membership_ttl_ms, find_by_id_or_fail, get_membership, update_member_role,
  remove_member,
}
use task_scheduling_platform.Workspaces.Cache.{CacheManager, IsCache}

-- The primary key of `workspace_members`, and its unique pair of workspace and user.
abbrev pub HasKeys : World → Type 0
HasKeys w =
    ((m n : WorkspaceMember) → In m w.members → In n w.members → m.id ≡ n.id → m ≡ n)
    × ((m n : WorkspaceMember)
        → In m w.members
        → In n w.members
        → m.workspace_id ≡ n.workspace_id
        → m.user_id ≡ n.user_id
        → m ≡ n)

module _ (cache : CacheManager) where
  -- What the cache would return is the row of the table.
  abbrev pub IsCoherent : World → Type 0
  IsCoherent w =
      (now : Instant) (workspace_id user_id : Uuid) (m : WorkspaceMember)
      → cache.get now workspace_id user_id w.cache ≡ some m
      → find_member workspace_id user_id w ≡ some m

  -- A cached lookup answers what the table holds, and it keeps the cache coherent, whenever the
  -- cache is coherent.
  pub get_membership_lem :
      (laws : IsCache cache) (now : Instant) (workspace_id user_id : Uuid) (w : World)
      → IsCoherent w
      → ((get_membership cache now workspace_id user_id w).0
          ≡ ok (find_member workspace_id user_id w))
        × IsCoherent (get_membership cache now workspace_id user_id w).1
  unfolding get_membership
  get_membership_lem laws now workspace_id user_id w coherent =
      elim (Option-cases (cache.get now workspace_id user_id w.cache)) [
        | inr (m, hit) ↦ rw (hit, coherent now workspace_id user_id m hit) (refl, coherent)
        | inl miss ↦ elim (Option-cases (find_member workspace_id user_id w)) [
          | inl absent ↦ rw (miss, absent) (refl, coherent)
          | inr (m, found) ↦
              rw (miss, found)
                (
                  refl,
                  λ later w' u' m' h. ground (
                    arith,
                    laws.get-set now later workspace_id user_id w' u' m m' membership_ttl_ms w.cache
                        h,
                    coherent later w' u' m',
                  ),
                )
        ]
      ]

  -- What a change of role did, when it succeeded.
  pub update_member_role-ok :
      (workspace_id user_id : Uuid) (role : WorkspaceRole) (w w' : World) (m : WorkspaceMember)
      → update_member_role cache workspace_id user_id role w ≡ (ok m, w')
      → (old : WorkspaceMember) × (find_member workspace_id user_id w ≡ some old)
        × (m ≡ record old { role = role })
        × (w' ≡ record w {
          members = save_row (λ x. x.id) (record old { role = role }) w.members;
          cache = cache.del workspace_id user_id w.cache;
        })
  unfolding update_member_role find_by_id_or_fail
  update_member_role-ok workspace_id user_id role w w' m h =
      elim (Option-cases (find_member workspace_id user_id w)) [
        | inl absent ↦ absurd (ground arith)
        | inr (old, found) ↦ (old, found, ground arith, ground arith)
      ]

  pub remove_member-ok :
      (workspace_id user_id : Uuid) (w w' : World)
      → remove_member cache workspace_id user_id w ≡ (ok tt, w')
      → (old : WorkspaceMember) × (find_member workspace_id user_id w ≡ some old)
        × (w' ≡ record w {
          members = delete_where (λ x. x.id == old.id) w.members;
          cache = cache.del workspace_id user_id w.cache;
        })
  unfolding remove_member find_by_id_or_fail
  remove_member-ok workspace_id user_id w w' h =
      elim (Option-cases (find_member workspace_id user_id w)) [
        | inl absent ↦ absurd (ground arith)
        | inr (old, found) ↦ (old, found, ground arith)
      ]
