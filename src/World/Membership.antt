-- ===== src/World/Membership.antt =====
-- Rows of `workspaces`, `workspace_members` and `workspace_invitations`
-- (modules/workspaces/entities, modules/workspaces/enums).
use task_scheduling_platform.Base.{ℕ, Bool, true, false, List}
use task_scheduling_platform.World.Accounts.{Uuid, Instant, Micros, Email}

pub data WorkspaceRole : Type 0 where
  admin member : WorkspaceRole

abbrev pub is_admin : WorkspaceRole → Bool
is_admin admin = true
is_admin member = false

pub data InvitationStatus : Type 0 where
  pending accepted expired revoked : InvitationStatus

abbrev pub is_pending : InvitationStatus → Bool
is_pending pending = true
is_pending accepted = false
is_pending expired = false
is_pending revoked = false

pub record Workspace : Type 0 where
  pub id : Uuid
  pub name : List ℕ
  pub slug : List ℕ
  pub owner_id : Uuid
  pub created_at : Micros
  pub updated_at : Micros

pub record WorkspaceMember : Type 0 where
  pub id : Uuid
  pub workspace_id : Uuid
  pub user_id : Uuid
  pub role : WorkspaceRole
  pub joined_at : Instant

pub record WorkspaceInvitation : Type 0 where
  pub id : Uuid
  pub workspace_id : Uuid
  pub email : Email
  pub role : WorkspaceRole
  pub token : ℕ
  pub status : InvitationStatus
  pub invited_by : Uuid
  pub expires_at : Instant
  pub created_at : Micros
