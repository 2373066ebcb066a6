-- ===== src/Workspaces.antt =====
-- modules/workspaces/workspaces.service.ts
pub mod Slugs
pub mod Cache
pub mod Guards
pub mod Coherence
pub mod Freshness
pub mod Ownership
pub mod Admission
mod Tests
use task_scheduling_platform.Base.{
  ℕ, suc, String, Bool, true, false, not, ◌&&◌, Option, none, some, List, [], ◌∷◌, ◌++◌, ◌==◌,
  if◌then◌else◌, ltb, or_else, find, find_one, exists, length, save_row, delete_where,
}
use task_scheduling_platform.Http.{conflict, forbidden, not_found}
use task_scheduling_platform.World.{Uuid, Instant, Stamp, Workspace, WorkspaceMember, World}
use task_scheduling_platform.World.Membership.{WorkspaceRole, admin}
use task_scheduling_platform.Exec.{Exec, ◌>>=◌, ◌>>◌, pure, gets, modify, or_throw, throw_if}
use task_scheduling_platform.Pagination.Order.{order_by}
use mathlib.Core.List.{reverse}
use Slugs.{slugify}
use Cache.{CacheManager}

pub record CreateWorkspaceDto : Type 0 where
  pub name : List ℕ
  pub slug : Option (List ℕ)

abbrev pub membership_ttl_ms : ℕ
membership_ttl_ms = 30_000

-- `where: { workspaceId, userId }`
abbrev pub is_member : Uuid → Uuid → WorkspaceMember → Bool
is_member workspace_id user_id m = m.workspace_id == workspace_id && m.user_id == user_id

abbrev pub find_member : Uuid → Uuid → World → Option WorkspaceMember
find_member workspace_id user_id w = find_one (is_member workspace_id user_id) w.members

abbrev pub same_text : List ℕ → List ℕ → Bool
same_text [] [] = true
same_text [] (d ∷ ds) = false
same_text (c ∷ cs) [] = false
same_text (c ∷ cs) (d ∷ ds) = c == d && same_text cs ds

-- The transaction throws before its first write or not at all.
unfoldable pub create :
    (List ℕ → List ℕ) → (workspace member : Stamp) → Uuid → CreateWorkspaceDto → Exec Workspace
unfolding slugify
create lower stamp member_stamp owner_id dto = do
  let slug = slugify lower (or_else dto.slug dto.name)
  taken ← gets (λ w. exists (λ x. same_text x.slug slug) w.workspaces)
  throw_if taken (conflict "Workspace slug already taken")
  let workspace : Workspace = record {
    id = stamp.id;
    name = dto.name;
    slug = slug;
    owner_id = owner_id;
    created_at = stamp.at;
    updated_at = stamp.at;
  }
  let owner : WorkspaceMember = record {
    id = member_stamp.id;
    workspace_id = workspace.id;
    user_id = owner_id;
    role = admin;
    joined_at = member_stamp.at;
  }
  modify (λ w. record w {
    workspaces = w.workspaces ++ workspace ∷ [];
    members = w.members ++ owner ∷ [];
  })
  pure workspace

unfoldable pub find_by_id_or_fail : Uuid → Exec Workspace
find_by_id_or_fail id = do
  found ← gets (λ w. find_one (λ x. x.id == id) w.workspaces)
  or_throw (not_found "Workspace not found") found

-- The workspaces of a user, newest first: the join with the user's memberships.
unfoldable pub list_for_user : Uuid → World → List Workspace
unfolding order_by
list_for_user user_id w =
    order_by (λ x. x.created_at) (λ x. x.id)
      (find (λ x. exists (is_member x.id user_id) w.members) w.workspaces)

-- The members of a workspace, those who joined first before the others.
unfoldable pub list_members : Uuid → World → List WorkspaceMember
unfolding order_by
list_members workspace_id w =
    reverse (
      order_by (λ m. m.joined_at) (λ m. m.id)
        (find (λ m. m.workspace_id == workspace_id) w.members))

module _ (cache : CacheManager) where
  abbrev remember : Instant → Uuid → Uuid → Option WorkspaceMember → Exec (Option WorkspaceMember)
  remember now workspace_id user_id none = pure none
  remember now workspace_id user_id (some m) = do
    modify
        (λ w. record w { cache = cache.set now workspace_id user_id m membership_ttl_ms w.cache })
    pure (some m)

  abbrev from_database :
      Instant → Uuid → Uuid → Option WorkspaceMember → Exec (Option WorkspaceMember)
  from_database now workspace_id user_id (some cached) = pure (some cached)
  from_database now workspace_id user_id none = do
    membership ← gets (find_member workspace_id user_id)
    remember now workspace_id user_id membership

  unfoldable pub get_membership : Instant → Uuid → Uuid → Exec (Option WorkspaceMember)
  get_membership now workspace_id user_id = do
    cached ← gets (λ w. cache.get now workspace_id user_id w.cache)
    from_database now workspace_id user_id cached

  abbrev invalidate_membership : Uuid → Uuid → Exec (Unit {0})
  invalidate_membership workspace_id user_id =
      modify (λ w. record w { cache = cache.del workspace_id user_id w.cache })

  unfoldable pub update_member_role : Uuid → Uuid → WorkspaceRole → Exec WorkspaceMember
  unfolding find_by_id_or_fail
  update_member_role workspace_id target_user_id role = do
    workspace ← find_by_id_or_fail workspace_id
    throw_if (workspace.owner_id == target_user_id)
        (forbidden "The workspace owner role cannot be changed")
    found ← gets (find_member workspace_id target_user_id)
    membership ← or_throw (not_found "Member not found") found
    let saved : WorkspaceMember = record membership { role = role }
    modify (λ w. record w { members = save_row (λ m. m.id) saved w.members })
    invalidate_membership workspace_id target_user_id
    pure saved

  unfoldable pub remove_member : Uuid → Uuid → Exec (Unit {0})
  unfolding find_by_id_or_fail
  remove_member workspace_id target_user_id = do
    workspace ← find_by_id_or_fail workspace_id
    throw_if (workspace.owner_id == target_user_id)
        (forbidden "The workspace owner cannot be removed")
    found ← gets (find_member workspace_id target_user_id)
    membership ← or_throw (not_found "Member not found") found
    modify (λ w. record w { members = delete_where (λ m. m.id == membership.id) w.members })
    invalidate_membership workspace_id target_user_id
