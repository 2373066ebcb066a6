-- ===== src/Api/Invariant/Changing.antt =====
-- Changes of memberships: WorkspacesService.updateMemberRole, removeMember and the cached lookup.
use task_scheduling_platform.Base.{
  ◌≡◌, refl, sym, ap, ◌∙◌, subst, Bool, List, arith, ◌==◌, In, inl, inr, Bool-cases, In-find_one,
  In-update_where, In-find, save_row, delete_where, if◌then◌else◌,
}
use task_scheduling_platform.Http.{ok, err, Result-cases}
use task_scheduling_platform.World.{Uuid, Instant, WorkspaceMember, World}
use task_scheduling_platform.World.Membership.{WorkspaceRole}
use task_scheduling_platform.Workspaces.{
  is_member, find_by_id_or_fail, get_membership, update_member_role, remove_member,
}
use task_scheduling_platform.Workspaces.Cache.{CacheManager, IsCache}
use task_scheduling_platform.Workspaces.Coherence.{
  HasKeys, get_membership_lem, update_member_role-ok, remove_member-ok,
}
use task_scheduling_platform.Workspaces.Freshness.{
  update_member_role-IsCoherent, remove_member-IsCoherent,
}
use task_scheduling_platform.Workspaces.Ownership.{
  HasWorkspaceKeys, update_member_role-AllOwned, remove_member-AllOwned,
}
use task_scheduling_platform.Api.Invariant.{IsSound}

-- A saved row with the keys of the old one.
module _ (w : World) (old new : WorkspaceMember) (member : In old w.members)
    (same_id : new.id ≡ old.id) (same_workspace : new.workspace_id ≡ old.workspace_id)
    (same_user : new.user_id ≡ old.user_id) (keys : HasKeys w) where
  abbrev saved : List WorkspaceMember
  saved = save_row (λ x. x.id) new w.members

  abbrev put : WorkspaceMember → WorkspaceMember
  put a = if a.id == new.id then new else a

  origin :
      (x : WorkspaceMember)
      → In x saved
      → (a : WorkspaceMember) × In a w.members
        × (x ≡ put a)
        × (a.id ≡ x.id)
        × (a.workspace_id ≡ x.workspace_id)
        × (a.user_id ≡ x.user_id)
  origin x m =
      let (a, k, e) = In-update_where (λ y. y.id == new.id) (λ _. new) w.members m in
      elim (Bool-cases (a.id == new.id)) [
        | inr other ↦ (a, k, e, ground arith, ground arith, ground arith)
        | inl same ↦
            let it : a ≡ old = keys.0 a old k member (ground arith) in
            (a, k, e, ground arith, ground arith, ground arith)
      ]

  pub saved-HasKeys : HasKeys (record w { members = saved })
  saved-HasKeys = (
    λ x y mx my e.
        let (a, ka, ea, ia, wa, ua) = origin x mx in
        let (b, kb, eb, ib, wb, ub) = origin y my in
        ea ∙ ap put (keys.0 a b ka kb (ia ∙ e ∙ sym ib)) ∙ sym eb,
    λ x y mx my e f.
        let (a, ka, ea, ia, wa, ua) = origin x mx in
        let (b, kb, eb, ib, wb, ub) = origin y my in
        ea ∙ ap put (keys.1 a b ka kb (wa ∙ e ∙ sym wb) (ua ∙ f ∙ sym ub)) ∙ sym eb,
  )

deleted-HasKeys :
    (w : World) (p : WorkspaceMember → Bool)
    → HasKeys w
    → HasKeys (record w { members = delete_where p w.members })
deleted-HasKeys w p keys = (
  λ x y mx my. keys.0 x y (In-find _ w.members mx).0 (In-find _ w.members my).0,
  λ x y mx my. keys.1 x y (In-find _ w.members mx).0 (In-find _ w.members my).0,
)

module _ (cache : CacheManager) (laws : IsCache cache) where
  pub get_membership_frame :
      (now : Instant) (workspace_id user_id : Uuid) (w : World)
      → ((get_membership cache now workspace_id user_id w).1.workspaces ≡ w.workspaces)
        × ((get_membership cache now workspace_id user_id w).1.members ≡ w.members)
  unfolding get_membership
  get_membership_frame now workspace_id user_id w = ground arith

  pub get_membership-IsSound :
      (now : Instant) (workspace_id user_id : Uuid) (w : World)
      → IsSound cache w
      → IsSound cache (get_membership cache now workspace_id user_id w).1
  get_membership-IsSound now workspace_id user_id w sound =
      let (same, same_members) = get_membership_frame now workspace_id user_id w in
      record {
        keys = rw same_members sound.keys;
        unique = rw same sound.unique;
        owned = rw (same, same_members) sound.owned;
        coherent = (get_membership_lem cache laws now workspace_id user_id w sound.coherent).1;
      }

  update_member_role_err :
      (workspace_id user_id : Uuid) (role : WorkspaceRole) (w : World) {e : _}
      → (update_member_role cache workspace_id user_id role w).0 ≡ err e
      → (update_member_role cache workspace_id user_id role w).1 ≡ w
  unfolding update_member_role find_by_id_or_fail
  update_member_role_err workspace_id user_id role w {e} h = ground arith

  remove_member_err :
      (workspace_id user_id : Uuid) (w : World) {e : _}
      → (remove_member cache workspace_id user_id w).0 ≡ err e
      → (remove_member cache workspace_id user_id w).1 ≡ w
  unfolding remove_member find_by_id_or_fail
  remove_member_err workspace_id user_id w {e} h = ground arith

  pub update_member_role-IsSound :
      (workspace_id user_id : Uuid) (role : WorkspaceRole) (w : World)
      → IsSound cache w
      → IsSound cache (update_member_role cache workspace_id user_id role w).1
  update_member_role-IsSound workspace_id user_id role w sound =
      let out = update_member_role cache workspace_id user_id role w in
      elim (Result-cases out.0) [
        | inr (e, failed) ↦ rw (update_member_role_err workspace_id user_id role w failed) sound
        | inl (m, succeeded) ↦
            let h : out ≡ (ok m, out.1) = ap (λ r. (r, out.1)) succeeded in
            let (old, found, e, written) =
              update_member_role-ok cache workspace_id user_id role w out.1 m h in
            let member = (In-find_one (is_member workspace_id user_id) w.members found).0 in
            record {
              keys = subst HasKeys (sym written) (
                  saved-HasKeys w old (record old { role = role }) member refl refl refl
                    sound.keys);
              unique = subst HasWorkspaceKeys (sym written) sound.unique;
              owned =
                  update_member_role-AllOwned cache workspace_id user_id role w out.1 m sound.keys
                    sound.unique sound.owned h;
              coherent =
                  update_member_role-IsCoherent cache laws workspace_id user_id role w out.1 m
                    sound.keys sound.coherent h;
            }
      ]

  pub remove_member-IsSound :
      (workspace_id user_id : Uuid) (w : World)
      → IsSound cache w
      → IsSound cache (remove_member cache workspace_id user_id w).1
  remove_member-IsSound workspace_id user_id w sound =
      let out = remove_member cache workspace_id user_id w in
      elim (Result-cases out.0) [
        | inr (e, failed) ↦ rw (remove_member_err workspace_id user_id w failed) sound
        | inl (m, succeeded) ↦
            let h : out ≡ (ok tt, out.1) = ap (λ r. (r, out.1)) succeeded in
            let (old, found, written) = remove_member-ok cache workspace_id user_id w out.1 h in
            record {
              keys =
                  subst HasKeys (sym written) (deleted-HasKeys w (λ x. x.id == old.id) sound.keys);
              unique = subst HasWorkspaceKeys (sym written) sound.unique;
              owned =
                  remove_member-AllOwned cache workspace_id user_id w out.1 sound.keys sound.unique
                    sound.owned h;
              coherent =
                  remove_member-IsCoherent cache laws workspace_id user_id w out.1 sound.keys
                    sound.coherent h;
            }
      ]
