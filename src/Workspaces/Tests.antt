-- ===== src/Workspaces/Tests.antt =====
-- Runs of WorkspacesService with the in-memory cache, of the guards and of the slugs.
use task_scheduling_platform.Base.{
  ℕ, ◌≡◌, refl, sym, subst, none, some, List, [], ◌∷◌, arith, In, inl, inr,
}
use task_scheduling_platform.Http.{ok}
use task_scheduling_platform.World.{Uuid, WorkspaceMember, World}
use task_scheduling_platform.World.Membership.{admin}
use task_scheduling_platform.Samples.{membership, world}
use task_scheduling_platform.Workspaces.{
  find_member, find_by_id_or_fail, get_membership, update_member_role, remove_member,
}
use task_scheduling_platform.Workspaces.Cache.{in_memory}
use task_scheduling_platform.Workspaces.Cache.InMemory.{in_memory-IsCache}
use task_scheduling_platform.Workspaces.Coherence.{IsCoherent, HasKeys}
use task_scheduling_platform.Workspaces.Freshness.{
  update_member_role-get_membership, remove_member-get_membership,
}
use task_scheduling_platform.Workspaces.Ownership.{HasOwner, AllOwned, HasWorkspaceKeys}
use task_scheduling_platform.Workspaces.Guards.{
  Request, AuthUser, workspace_of, member_guard, roles_guard,
}
use task_scheduling_platform.Workspaces.Admission.{guards, guards-find_member}
use task_scheduling_platform.Workspaces.Slugs.{slugify}
use task_scheduling_platform.Workspaces.Slugs.Shape.{IsSlug, slugify-IsSlug}

abbrev lower : List ℕ → List ℕ
lower cs = cs

slugify-IsSlug_example : IsSlug (slugify lower (b'-' ∷ b'a' ∷ 32 ∷ b'!' ∷ b'b' ∷ b'-' ∷ []))
slugify-IsSlug_example = slugify-IsSlug lower (b'-' ∷ b'a' ∷ 32 ∷ b'!' ∷ b'b' ∷ b'-' ∷ [])

world-IsCoherent : IsCoherent in_memory world
world-IsCoherent now w u m h = ground arith

world-HasKeys : HasKeys world
world-HasKeys = (λ m n k l e. ground arith, λ m n k l e f. ground arith)

world-HasWorkspaceKeys : HasWorkspaceKeys world
world-HasWorkspaceKeys x y k l e = ground arith

world-AllOwned : AllOwned world
world-AllOwned x k = elim k [
  | inl e ↦ subst (HasOwner world) (sym e) (membership 11 1 admin, refl, refl)
  | inr nothing ↦ absurd nothing
]

service : Unit {0}
unfolding get_membership update_member_role remove_member find_by_id_or_fail guards member_guard
    roles_guard
service = tt

abbrev promoted : World
promoted = record world { members = membership 11 1 admin ∷ membership 12 2 admin ∷ [] }

promotion : update_member_role in_memory 10 2 admin world ≡ (ok (membership 12 2 admin), promoted)
unfolding service
promotion = refl

update_member_role-get_membership_example :
    ((get_membership in_memory 5 10 2 promoted).0 ≡ ok (some (membership 12 2 admin)))
    × (admin ≡ admin)
    × IsCoherent in_memory promoted
update_member_role-get_membership_example =
    update_member_role-get_membership in_memory in_memory-IsCache 10 2 admin 5 world promoted
      (membership 12 2 admin) world-HasKeys world-IsCoherent promotion

abbrev left : World
left = record world { members = membership 11 1 admin ∷ [] }

removal : remove_member in_memory 10 2 world ≡ (ok tt, left)
unfolding service
removal = refl

remove_member-get_membership_example :
    ((get_membership in_memory 5 10 2 left).0 ≡ ok none) × IsCoherent in_memory left
remove_member-get_membership_example =
    remove_member-get_membership in_memory in_memory-IsCache 10 2 5 world left world-HasKeys
      world-IsCoherent removal

abbrev request : Request
request = record {
  user = some (record { user_id = 1; email = 101 });
  param_workspace_id = some 10;
  body_workspace_id = none;
  workspace_role = none;
}

passed :
    guards in_memory (admin ∷ []) 5 request world
    ≡ (ok tt, (guards in_memory (admin ∷ []) 5 request world).1)
unfolding service
passed = refl

guards-find_member_example :
    (user : AuthUser) × (workspace_id : Uuid) × (m : WorkspaceMember) × (request.user ≡ some user)
    × (workspace_of request ≡ some workspace_id)
    × (find_member workspace_id user.user_id world ≡ some m)
    × In m.role (admin ∷ [])
guards-find_member_example =
    guards-find_member in_memory in_memory-IsCache admin [] 5 request world
      (guards in_memory (admin ∷ []) 5 request world).1 world-IsCoherent passed
