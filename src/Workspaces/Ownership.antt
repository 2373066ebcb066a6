-- ===== src/Workspaces/Ownership.antt =====
-- modules/workspaces: the membership of a workspace's owner.
use task_scheduling_platform.Base.{
  ◌≡◌, sym, ap, subst, false, some, arith, In, inl, inr, ◌==◌, Bool-cases, Option-cases, find_one,
  In-find_one,
}
use task_scheduling_platform.Http.{ok}
use task_scheduling_platform.World.{Uuid, Workspace, WorkspaceMember, World}
use task_scheduling_platform.World.Membership.{WorkspaceRole, admin}
use task_scheduling_platform.Workspaces.{
  is_member, find_member, find_by_id_or_fail, update_member_role, remove_member,
}
use task_scheduling_platform.Workspaces.Cache.{CacheManager}
use task_scheduling_platform.Workspaces.Freshness.{find_member-save_row, find_member-delete_where}
use task_scheduling_platform.Workspaces.Coherence.{HasKeys, update_member_role-ok, remove_member-ok}

-- The owner of `x` has a membership in it, with the role ADMIN.
abbrev pub HasOwner : World → Workspace → Type 0
HasOwner w x = (m : WorkspaceMember) × (find_member x.id x.owner_id w ≡ some m) × (m.role ≡ admin)

abbrev pub AllOwned : World → Type 0
AllOwned w = (x : Workspace) → In x w.workspaces → HasOwner w x

-- The primary key of `workspaces`.
abbrev pub HasWorkspaceKeys : World → Type 0
HasWorkspaceKeys w = (x y : Workspace) → In x w.workspaces → In y w.workspaces → x.id ≡ y.id → x ≡ y

-- The membership of another user than the owner is not the owner's.
apart :
    (w : World) (workspace_id user_id : Uuid) (y x : Workspace) (old : WorkspaceMember)
    → HasWorkspaceKeys w
    → find_one (λ z. z.id == workspace_id) w.workspaces ≡ some y
    → (y.owner_id == user_id) ≡ false
    → find_member workspace_id user_id w ≡ some old
    → In x w.workspaces
    → is_member x.id x.owner_id old ≡ false
apart w workspace_id user_id y x old keys found other member k =
    let (at, same) = In-find_one (λ z. z.id == workspace_id) w.workspaces found in
    let (m, e) = In-find_one (is_member workspace_id user_id) w.members member in
    elim (Bool-cases (is_member x.id x.owner_id old)) [
      | inr h ↦ h
      | inl h ↦
          let one = keys x y k at (ground arith) in
          absurd (ground (arith, ap (λ (z : Workspace). z.owner_id) one))
    ]

module _ (cache : CacheManager) (workspace_id user_id : Uuid) where
  update_member_role_found :
      (role : WorkspaceRole) (w w' : World) (m : WorkspaceMember)
      → update_member_role cache workspace_id user_id role w ≡ (ok m, w')
      → (y : Workspace) × (find_one (λ z. z.id == workspace_id) w.workspaces ≡ some y)
        × ((y.owner_id == user_id) ≡ false)
  unfolding update_member_role find_by_id_or_fail
  update_member_role_found role w w' m h =
      elim (Option-cases (find_one (λ z. z.id == workspace_id) w.workspaces)) [
        | inl absent ↦ absurd (ground arith)
        | inr (y, found) ↦ (y, found, ground arith)
      ]

  remove_member_found :
      (w w' : World)
      → remove_member cache workspace_id user_id w ≡ (ok tt, w')
      → (y : Workspace) × (find_one (λ z. z.id == workspace_id) w.workspaces ≡ some y)
        × ((y.owner_id == user_id) ≡ false)
  unfolding remove_member find_by_id_or_fail
  remove_member_found w w' h =
      elim (Option-cases (find_one (λ z. z.id == workspace_id) w.workspaces)) [
        | inl absent ↦ absurd (ground arith)
        | inr (y, found) ↦ (y, found, ground arith)
      ]

  -- A change of a role, when it succeeds, leaves the owner of every workspace in it as an ADMIN, if
  -- that was so before and the keys of the two tables are unique.
  pub update_member_role-AllOwned :
      (role : WorkspaceRole) (w w' : World) (m : WorkspaceMember)
      → HasKeys w
      → HasWorkspaceKeys w
      → AllOwned w
      → update_member_role cache workspace_id user_id role w ≡ (ok m, w')
      → AllOwned w'
  update_member_role-AllOwned role w w' m keys unique owned h =
      let (old, found, e, written) =
        update_member_role-ok cache workspace_id user_id role w w' m h in
      let (y, at, other) = update_member_role_found role w w' m h in
      subst AllOwned (sym written) (λ x k.
        let (n, is_n, is_admin) = owned x k in
        (
          n,
          find_member-save_row old role w x.id x.owner_id n keys
              (In-find_one (is_member workspace_id user_id) w.members found).0
              (apart w workspace_id user_id y x old unique at other found k) is_n,
          is_admin,
        ))

  -- The removal of a member, when it succeeds, leaves the owner of every workspace in it as an ADMIN,
  -- if that was so before and the keys of the two tables are unique.
  pub remove_member-AllOwned :
      (w w' : World)
      → HasKeys w
      → HasWorkspaceKeys w
      → AllOwned w
      → remove_member cache workspace_id user_id w ≡ (ok tt, w')
      → AllOwned w'
  remove_member-AllOwned w w' keys unique owned h =
      let (old, found, written) = remove_member-ok cache workspace_id user_id w w' h in
      let (y, at, other) = remove_member_found w w' h in
      subst AllOwned (sym written) (λ x k.
        let (n, is_n, is_admin) = owned x k in
        (
          n,
          find_member-delete_where old w x.id x.owner_id n keys
              (In-find_one (is_member workspace_id user_id) w.members found).0
              (apart w workspace_id user_id y x old unique at other found k) is_n,
          is_admin,
        ))
