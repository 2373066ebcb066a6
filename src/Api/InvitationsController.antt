-- ===== src/Api/InvitationsController.antt =====
-- modules/workspaces/invitations.controller.ts
use task_scheduling_platform.Base.{ℕ, [], ◌∷◌}
use task_scheduling_platform.World.{Uuid}
use task_scheduling_platform.World.Membership.{admin}
use task_scheduling_platform.Exec.{Exec, gets}
use task_scheduling_platform.Workspaces.Guards.{AuthUser}
use task_scheduling_platform.Invitations.{CreateInvitationDto}
use task_scheduling_platform.Invitations
use task_scheduling_platform.Api.Context.{
  Platform, Moment, Reply, nothing, member, invitation, invitations, replies, Access, signed_in,
  in_workspace,
}

pub data Call : Type 0 where
  invite : (workspace_id : Uuid) → CreateInvitationDto → Call
  list : (workspace_id : Uuid) → Call
  revoke : (workspace_id invitation_id : Uuid) → Call
  accept : (token : ℕ) → Call

abbrev pub access : Call → Access
access (invite workspace_id dto) = in_workspace workspace_id (admin ∷ [])
access (list workspace_id) = in_workspace workspace_id (admin ∷ [])
access (revoke workspace_id invitation_id) = in_workspace workspace_id (admin ∷ [])
access (accept token) = signed_in

unfoldable pub handle : Platform → Moment → AuthUser → Call → Exec Reply
handle platform moment user (invite workspace_id dto) = replies invitation (
    Invitations.invite (platform.crypto).fold moment.stamp moment.now moment.invite_token
      workspace_id user.user_id dto)
handle platform moment user (list workspace_id) =
    replies invitations (gets (Invitations.list_for_workspace workspace_id))
handle platform moment user (revoke workspace_id invitation_id) =
    replies (λ _. nothing) (Invitations.revoke workspace_id invitation_id)
handle platform moment user (accept token) = replies member (
    Invitations.accept (platform.crypto).fold moment.member_stamp moment.now user.user_id user.email
      token)
