-- ===== src/Workspaces/Freshness.antt =====
-- modules/workspaces/workspaces.service.ts: the cache after a change of a membership.
use task_scheduling_platform.Base.{
  ◌≡◌, refl, sym, ap, ◌∙◌, subst, false, none, some, arith, In, inl, inr, ◌==◌, Bool-cases,
  find_one, save_row, delete_where, In-find_one, find_one-save_row, find_one-update_where,
  find_one-delete_where_other, find_one-delete_where_all,
}
use task_scheduling_platform.Http.{ok}
use task_scheduling_platform.World.{Uuid, Instant, WorkspaceMember, World}
use task_scheduling_platform.World.Membership.{WorkspaceRole}
use task_scheduling_platform.Workspaces.{
  is_member, find_member, get_membership, update_member_role, remove_member,
}
use task_scheduling_platform.Workspaces.Cache.{CacheManager, IsCache}
use task_scheduling_platform.Workspaces.Coherence.{
  IsCoherent, HasKeys, get_membership_lem, update_member_role-ok, remove_member-ok,
}

-- Another member's row stays when a row is saved or deleted by its key.
pub find_member-save_row :
    (old : WorkspaceMember) (role : WorkspaceRole) (w : World) (w' u' : Uuid) (m : WorkspaceMember)
    → HasKeys w
    → In old w.members
    → is_member w' u' old ≡ false
    → find_member w' u' w ≡ some m
    → find_one (is_member w' u') (save_row (λ x. x.id) (record old { role = role }) w.members)
      ≡ some m
find_member-save_row old role w w' u' m keys here other h =
    find_one-update_where (is_member w' u') (λ x. x.id == old.id) (λ _. record old { role = role })
      w.members (λ a k e. ground (arith, keys.0 a old k here)) (λ a k e. other)
    ∙ h

pub find_member-delete_where :
    (old : WorkspaceMember) (w : World) (w' u' : Uuid) (m : WorkspaceMember)
    → HasKeys w
    → In old w.members
    → is_member w' u' old ≡ false
    → find_member w' u' w ≡ some m
    → find_one (is_member w' u') (delete_where (λ x. x.id == old.id) w.members) ≡ some m
find_member-delete_where old w w' u' m keys here other h =
    find_one-delete_where_other (is_member w' u') (λ x. x.id == old.id) w.members
      (λ a k e. ground (arith, keys.0 a old k here))
    ∙ h

module _ (cache : CacheManager) (laws : IsCache cache) (workspace_id user_id : Uuid) where
  -- What the cache still returns after `del` is about somebody else.
  kept :
      (now : Instant) (w' u' : Uuid) (m old : WorkspaceMember) (w : World)
      → IsCoherent cache w
      → find_member workspace_id user_id w ≡ some old
      → cache.get now w' u' (cache.del workspace_id user_id w.cache) ≡ some m
      → (find_member w' u' w ≡ some m) × (is_member w' u' old ≡ false)
  kept now w' u' m old w coherent found h = (
    coherent now w' u' m (laws.get-del now workspace_id user_id w' u' m w.cache h),
    elim (Bool-cases (is_member w' u' old)) [
      | inr other ↦ other
      | inl same ↦
          let e = (In-find_one (is_member workspace_id user_id) w.members found).1 in
          let p : w' ≡ workspace_id = ground arith in
          let q : u' ≡ user_id = ground arith in
          let gone = laws.get-del_self now workspace_id user_id w.cache in absurd (ground arith)
    ],
  )

  pub update_member_role-IsCoherent :
      (role : WorkspaceRole) (w w' : World) (m : WorkspaceMember)
      → HasKeys w
      → IsCoherent cache w
      → update_member_role cache workspace_id user_id role w ≡ (ok m, w')
      → IsCoherent cache w'
  update_member_role-IsCoherent role w w' m keys coherent h =
      let (old, found, e, written) =
        update_member_role-ok cache workspace_id user_id role w w' m h in
      subst (IsCoherent cache) (sym written) (λ now v u n k.
        let (there, other) = kept now v u n old w coherent found k in
        find_member-save_row old role w v u n keys
          (In-find_one (is_member workspace_id user_id) w.members found).0 other there)

  pub remove_member-IsCoherent :
      (w w' : World)
      → HasKeys w
      → IsCoherent cache w
      → remove_member cache workspace_id user_id w ≡ (ok tt, w')
      → IsCoherent cache w'
  remove_member-IsCoherent w w' keys coherent h =
      let (old, found, written) = remove_member-ok cache workspace_id user_id w w' h in
      subst (IsCoherent cache) (sym written) (λ now v u n k.
        let (there, other) = kept now v u n old w coherent found k in
        find_member-delete_where old w v u n keys
          (In-find_one (is_member workspace_id user_id) w.members found).0 other there)

  -- After a member's role was changed, the next lookup of that member, cached or not, returns the
  -- new role, and the cache is coherent for every other member, if it was coherent before and the
  -- membership table has its unique keys.
  pub update_member_role-get_membership :
      (role : WorkspaceRole) (now : Instant) (w w' : World) (m : WorkspaceMember)
      → HasKeys w
      → IsCoherent cache w
      → update_member_role cache workspace_id user_id role w ≡ (ok m, w')
      → ((get_membership cache now workspace_id user_id w').0 ≡ ok (some m))
        × (m.role ≡ role)
        × IsCoherent cache w'
  update_member_role-get_membership role now w w' m keys coherent h =
      let (old, found, e, written) =
        update_member_role-ok cache workspace_id user_id role w w' m h in
      let coherent' = update_member_role-IsCoherent role w w' m keys coherent h in
      let saved =
        find_one-save_row (is_member workspace_id user_id) (λ x. x.id) (record old { role = role })
          w.members found refl (In-find_one (is_member workspace_id user_id) w.members found).1 in
      let stored : find_member workspace_id user_id w' ≡ some m =
        ap (find_member workspace_id user_id) written ∙ saved ∙ ap some (sym e) in
      (
        (get_membership_lem cache laws now workspace_id user_id w' coherent').0 ∙ ap ok stored,
        ap (λ (x : WorkspaceMember). x.role) e,
        coherent',
      )

  -- After a member was removed, the next lookup of that member finds nobody, cached or not, and
  -- the cache is coherent, if it was coherent before and the membership table has its unique keys.
  pub remove_member-get_membership :
      (now : Instant) (w w' : World)
      → HasKeys w
      → IsCoherent cache w
      → remove_member cache workspace_id user_id w ≡ (ok tt, w')
      → ((get_membership cache now workspace_id user_id w').0 ≡ ok none) × IsCoherent cache w'
  remove_member-get_membership now w w' keys coherent h =
      let (old, found, written) = remove_member-ok cache workspace_id user_id w w' h in
      let coherent' = remove_member-IsCoherent w w' keys coherent h in
      let (here, same) = In-find_one (is_member workspace_id user_id) w.members found in
      let gone : find_member workspace_id user_id w' ≡ none =
        ap (find_member workspace_id user_id) written
        ∙ find_one-delete_where_all (is_member workspace_id user_id) (λ x. x.id == old.id) w.members
            (λ a k e. ground (arith, keys.1 a old k here)) in
      (
        (get_membership_lem cache laws now workspace_id user_id w' coherent').0 ∙ ap ok gone,
        coherent',
      )
