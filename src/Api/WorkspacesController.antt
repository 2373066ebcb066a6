-- ===== src/Api/WorkspacesController.antt =====
-- modules/workspaces/workspaces.controller.ts
use task_scheduling_platform.Base.{[], ◌∷◌}
use task_scheduling_platform.World.{Uuid}
use task_scheduling_platform.World.Membership.{WorkspaceRole, admin}
use task_scheduling_platform.Exec.{Exec, gets}
use task_scheduling_platform.Workspaces.{CreateWorkspaceDto}
use task_scheduling_platform.Workspaces
use task_scheduling_platform.Api.Context.{
  Platform, Moment, Reply, nothing, workspace, workspaces, member, members, replies, Access,
  signed_in, in_workspace,
}

pub data Call : Type 0 where
  create : CreateWorkspaceDto → Call
  list_mine : Call
  get : (workspace_id : Uuid) → Call
  list_members : (workspace_id : Uuid) → Call
  update_role : (workspace_id user_id : Uuid) → WorkspaceRole → Call
  remove_member : (workspace_id user_id : Uuid) → Call

abbrev pub access : Call → Access
access (create dto) = signed_in
access list_mine = signed_in
access (get workspace_id) = in_workspace workspace_id []
access (list_members workspace_id) = in_workspace workspace_id []
access (update_role workspace_id user_id role) = in_workspace workspace_id (admin ∷ [])
access (remove_member workspace_id user_id) = in_workspace workspace_id (admin ∷ [])

unfoldable pub handle : Platform → Moment → Uuid → Call → Exec Reply
handle platform moment user_id (create dto) =
    replies workspace
      (Workspaces.create platform.lower moment.stamp moment.member_stamp user_id dto)
handle platform moment user_id list_mine =
    replies workspaces (gets (Workspaces.list_for_user user_id))
handle platform moment user_id (get workspace_id) =
    replies workspace (Workspaces.find_by_id_or_fail workspace_id)
handle platform moment user_id (list_members workspace_id) =
    replies members (gets (Workspaces.list_members workspace_id))
handle platform moment user_id (update_role workspace_id target_user_id role) =
    replies member (Workspaces.update_member_role platform.cache workspace_id target_user_id role)
handle platform moment user_id (remove_member workspace_id target_user_id) =
    replies (λ _. nothing) (Workspaces.remove_member platform.cache workspace_id target_user_id)
