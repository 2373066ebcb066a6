-- ===== src/Invitations.antt =====
-- modules/workspaces/invitations.service.ts. `fold` is `toLowerCase`, and how the `citext` columns
-- compare addresses; the tokens are what `randomBytes` returns.
pub mod Lifecycle
pub mod Openings
mod Tests
use task_scheduling_platform.Base.{
  ℕ, ◌+◌, ◌*◌, Bool, false, not, ◌&&◌, Option, none, some, List, [], ◌∷◌, ◌++◌, ◌==◌, ltb, is_some,
  or_else, if◌then◌else◌, find, find_one, save_row,
}
use task_scheduling_platform.Http.{conflict, forbidden, gone, not_found}
use task_scheduling_platform.World.{
  Uuid, Instant, Stamp, Email, User, WorkspaceMember, WorkspaceInvitation, World,
}
use task_scheduling_platform.World.Membership.{
  WorkspaceRole, member, InvitationStatus, pending, accepted, expired, revoked, is_pending,
}
use task_scheduling_platform.Exec.{Exec, ◌>>=◌, ◌>>◌, pure, throw, gets, modify, or_throw, throw_if}
use task_scheduling_platform.Pagination.Order.{order_by}
use task_scheduling_platform.Users
use task_scheduling_platform.Workspaces.{find_member}

abbrev pub invite_ttl_ms : ℕ
invite_ttl_ms = 7 * 24 * 60 * 60 * 1000

pub record CreateInvitationDto : Type 0 where
  pub email : Email
  pub role : Option WorkspaceRole

-- `save` of an invitation that was read before
abbrev save_invitation : WorkspaceInvitation → Exec (Unit {0})
save_invitation i = modify (λ w. record w { invitations = save_row (λ x. x.id) i w.invitations })

abbrev with_status : InvitationStatus → WorkspaceInvitation → WorkspaceInvitation
with_status s i = record i { status = s }

module _ (fold : Email → Email) where
  -- `membership` of the user with this address, if there is such a user
  abbrev already_member : Uuid → Email → World → Bool
  already_member workspace_id email w = elim (Users.find_by_email fold email w) [
    | none ↦ false
    | some user ↦ is_some (find_member workspace_id user.id w)
  ]

  -- `where: { workspaceId, email, status: PENDING }`
  abbrev pub is_pending_for : Uuid → Email → WorkspaceInvitation → Bool
  is_pending_for workspace_id email i =
      i.workspace_id == workspace_id && fold i.email == fold email && is_pending i.status

  abbrev pub new_invitation :
      Stamp → Instant → ℕ → Uuid → Uuid → CreateInvitationDto → WorkspaceInvitation
  new_invitation stamp now token workspace_id inviter_id dto = record {
    id = stamp.id;
    workspace_id = workspace_id;
    email = dto.email;
    role = or_else dto.role member;
    token = token;
    status = pending;
    invited_by = inviter_id;
    expires_at = now + invite_ttl_ms;
    created_at = stamp.at;
  }

  unfoldable pub invite :
      Stamp → Instant → ℕ → Uuid → Uuid → CreateInvitationDto → Exec WorkspaceInvitation
  unfolding Users.find_by_email
  invite stamp now token workspace_id inviter_id dto = do
    joined ← gets (already_member workspace_id dto.email)
    throw_if joined (conflict "User is already a member of this workspace")
    open_one ← gets (λ w. find_one (is_pending_for workspace_id dto.email) w.invitations)
    throw_if (is_some open_one) (conflict "A pending invitation already exists for this email")
    let invitation = new_invitation stamp now token workspace_id inviter_id dto
    modify (λ w. record w { invitations = w.invitations ++ invitation ∷ [] })
    pure invitation

  -- The member who joins by `i`.
  abbrev pub joining : Stamp → Uuid → WorkspaceInvitation → WorkspaceMember
  joining stamp user_id i = record {
    id = stamp.id;
    workspace_id = i.workspace_id;
    user_id = user_id;
    role = i.role;
    joined_at = stamp.at;
  }

  abbrev join : Stamp → Uuid → WorkspaceInvitation → Option WorkspaceMember → Exec WorkspaceMember
  join stamp user_id i (some m) = pure m
  join stamp user_id i none = do
    modify (λ w. record w { members = w.members ++ joining stamp user_id i ∷ [] })
    pure (joining stamp user_id i)

  abbrev expire : WorkspaceInvitation → Exec WorkspaceMember
  expire i = do save_invitation (with_status expired i); throw (gone "Invitation has expired")

  -- The checks on the address, and the transaction.
  abbrev accept_current : Stamp → Uuid → Email → WorkspaceInvitation → Exec WorkspaceMember
  accept_current stamp user_id user_email i = do
    throw_if (not (fold i.email == fold user_email))
        (forbidden "This invitation was issued to a different email address")
    found ← gets (find_member i.workspace_id user_id)
    membership ← join stamp user_id i found
    save_invitation (with_status accepted i)
    pure membership

  unfoldable pub accept : Stamp → Instant → Uuid → Email → ℕ → Exec WorkspaceMember
  accept stamp now user_id user_email token = do
    found ← gets (λ w. find_one (λ i. i.token == token) w.invitations)
    invitation ← or_throw (not_found "Invitation not found or no longer pending") found
    throw_if (not (is_pending invitation.status))
        (not_found "Invitation not found or no longer pending")
    if ltb invitation.expires_at now
        then expire invitation
        else accept_current stamp user_id user_email invitation

-- The invitations of a workspace, newest first.
unfoldable pub list_for_workspace : Uuid → World → List WorkspaceInvitation
unfolding order_by
list_for_workspace workspace_id w =
    order_by (λ i. i.created_at) (λ i. i.id)
      (find (λ i. i.workspace_id == workspace_id) w.invitations)

unfoldable pub revoke : Uuid → Uuid → Exec (Unit {0})
revoke workspace_id invitation_id = do
  found ←
      gets
        (λ w. find_one (λ i. i.id == invitation_id && i.workspace_id == workspace_id) w.invitations)
  invitation ← or_throw (not_found "Invitation not found") found
  throw_if (not (is_pending invitation.status)) (conflict "Only pending invitations can be revoked")
  save_invitation (with_status revoked invitation)
