-- ===== src/Api/Context.antt =====
-- What a request brings to a controller, what the platform is built on, and what a route answers:
-- common/guards, common/decorators and modules/auth/strategies/jwt.strategy.ts. A bearer token is
-- only handed to `verify`, which is passport-jwt's check of signature and expiry.
use task_scheduling_platform.Base.{ℕ, String, Bool, Option, none, some, List}
use task_scheduling_platform.Http.{unauthorized}
use task_scheduling_platform.World.{
  Uuid, Instant, Micros, Stamp, Email, Workspace, WorkspaceMember, WorkspaceInvitation, Project,
  Task, Comment, TaskActivity, Notification,
}
use task_scheduling_platform.World.Membership.{WorkspaceRole}
use task_scheduling_platform.Exec.{Exec, ◌>>=◌, pure, throw}
use task_scheduling_platform.Pagination.{Page}
use task_scheduling_platform.Pagination.Cursor.{Codec}
use task_scheduling_platform.Auth.{Crypto, Draw, JwtPayload, AuthResponseDto}
use task_scheduling_platform.Auth.RefreshTokens.{SessionContext}
use task_scheduling_platform.Reminders.{Queue, ScanResult}
use task_scheduling_platform.Workspaces.Cache.{CacheManager}
use task_scheduling_platform.Workspaces.Guards.{AuthUser}
use task_scheduling_platform.Tasks.Subtree.{SubtreeNode}

-- The third-party parts and the configuration.
pub record Platform : Type 0 where
  pub codec : Codec
  pub cache : CacheManager
  pub crypto : Crypto
  pub lower : List ℕ → List ℕ
  pub queue : Option Queue
  pub refresh_ttl_ms : ℕ
  pub verify : Instant → ℕ → Option JwtPayload

-- What the clock, the database and the random sources return in one request.
pub record Moment : Type 0 where
  pub now : Instant
  pub at : Micros
  pub stamp : Stamp
  pub member_stamp : Stamp
  pub draw : Draw
  pub invite_token : ℕ
  pub reminder_stamps : ℕ → Stamp
  pub note_stamps : ℕ → Stamp

-- The parts of an HTTP request besides its path and its body.
pub record Headers : Type 0 where
  pub bearer : Option ℕ
  pub session : SessionContext

-- `UserProfileDto`, the answer of `GET users/me`
pub record Profile : Type 0 where
  pub id : Uuid
  pub email : Email
  pub name : String
  pub is_active : Bool
  pub created_at : Micros

-- The bodies of the answers.
pub data Reply : Type 0 where
  nothing : Reply
  session : AuthResponseDto → Reply
  profile : Profile → Reply
  workspace : Workspace → Reply
  workspaces : List Workspace → Reply
  member : WorkspaceMember → Reply
  members : List WorkspaceMember → Reply
  invitation : WorkspaceInvitation → Reply
  invitations : List WorkspaceInvitation → Reply
  project : Project → Reply
  projects : Page Project → Reply
  task : Task → Reply
  tasks : Page Task → Reply
  subtree : Option SubtreeNode → Reply
  comment : Comment → Reply
  comments : Page Comment → Reply
  activity : Page TaskActivity → Reply
  notification : Notification → Reply
  notifications : Page Notification → Reply
  count : ℕ → Reply
  updated : ℕ → Reply
  scan_result : ScanResult → Reply

abbrev pub replies : {A : Type 0} → (A → Reply) → Exec A → Exec Reply
replies body m = m >>= λ a. pure (body a)

-- `@UseGuards(…)` of a route: JwtAuthGuard alone, or WorkspaceMemberGuard after it with the
-- workspace of the path and the roles that `@Roles` asks RolesGuard for, if any.
pub data Access : Type 0 where
  signed_in : Access
  in_workspace : Uuid → List WorkspaceRole → Access

-- JwtStrategy.validate
abbrev pub validate : JwtPayload → AuthUser
validate payload = record { user_id = payload.sub; email = payload.email }

abbrev pub validated : Option JwtPayload → Exec AuthUser
validated none = throw (unauthorized "Unauthorized")
validated (some payload) = pure (validate payload)

-- JwtAuthGuard
abbrev pub jwt_guard : Platform → Instant → Option ℕ → Exec AuthUser
jwt_guard platform now none = throw (unauthorized "Unauthorized")
jwt_guard platform now (some token) = validated (platform.verify now token)
