-- ===== src/Api/Invariant.antt =====
-- What every sequence of calls keeps of the memberships: the unique keys of the tables, the owners,
-- and the cache.
pub mod Joining
pub mod Changing
use task_scheduling_platform.Base.{◌≡◌, ◌≢◌, In}
use task_scheduling_platform.World.{Uuid, Workspace, WorkspaceMember, World}
use task_scheduling_platform.Workspaces.Cache.{CacheManager}
use task_scheduling_platform.Workspaces.Coherence.{HasKeys, IsCoherent}
use task_scheduling_platform.Workspaces.Ownership.{AllOwned, HasWorkspaceKeys}
use task_scheduling_platform.Api.Context.{Moment}
use task_scheduling_platform.Api.Frames.{IsFrame}

pub record IsSound (cache : CacheManager) (w : World) : Type 0 where
  pub keys : HasKeys w
  pub unique : HasWorkspaceKeys w
  pub owned : AllOwned w
  pub coherent : IsCoherent cache w

-- The ids that `gen_random_uuid()` draws are in no row yet.
pub record IsFresh (moment : Moment) (w : World) : Type 0 where
  pub workspace : (x : Workspace) → In x w.workspaces → x.id ≢ (moment.stamp).id
  pub of_workspace : (m : WorkspaceMember) → In m w.members → m.workspace_id ≢ (moment.stamp).id
  pub member : (m : WorkspaceMember) → In m w.members → m.id ≢ (moment.member_stamp).id

pub frame-IsSound :
    (cache : CacheManager) (w w' : World) → IsFrame w w' → IsSound cache w → IsSound cache w'
frame-IsSound cache w w' (same, same_members, same_cache) sound = record {
  keys = rw same_members sound.keys;
  unique = rw same sound.unique;
  owned = rw (same, same_members) sound.owned;
  coherent = rw (same_members, same_cache) sound.coherent;
}
