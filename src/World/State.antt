-- ===== src/World/State.antt =====
-- The whole state: the tables, the cache of WorkspacesService, the emitted events, and the jobs.
use task_scheduling_platform.Base.{List}
use task_scheduling_platform.World.Accounts.{Uuid, Instant, User, RefreshToken}
use task_scheduling_platform.World.Membership.{Workspace, WorkspaceMember, WorkspaceInvitation}
use task_scheduling_platform.World.Work.{Project, Task, Comment}
use task_scheduling_platform.World.Delivery.{TaskActivity, Notification, Reminder}
use task_scheduling_platform.World.Events.{Event, Job}

-- A cached membership, under the key `membership:<workspaceId>:<userId>`, until `expires_at`.
pub record CacheEntry : Type 0 where
  pub workspace_id : Uuid
  pub user_id : Uuid
  pub membership : WorkspaceMember
  pub expires_at : Instant

pub record World : Type 0 where
  pub users : List User
  pub tokens : List RefreshToken
  pub workspaces : List Workspace
  pub members : List WorkspaceMember
  pub invitations : List WorkspaceInvitation
  pub projects : List Project
  pub tasks : List Task
  pub comments : List Comment
  pub activity : List TaskActivity
  pub notifications : List Notification
  pub reminders : List Reminder
  pub cache : List CacheEntry
  pub events : List Event
  pub jobs : List Job
