-- ===== src/Workspaces/Guards.antt =====
-- modules/workspaces/guards: WorkspaceMemberGuard and RolesGuard.
use task_scheduling_platform.Base.{
  ℕ, Bool, true, Option, none, some, List, [], ◌∷◌, false, ◌==◌, exists, or_some,
}
use task_scheduling_platform.Http.{Result, ok, err, bad_request, unauthorized, forbidden}
use task_scheduling_platform.World.{Uuid, Instant, Email}
use task_scheduling_platform.World.Membership.{WorkspaceRole, admin, member}
use task_scheduling_platform.Exec.{Exec, ◌>>=◌, pure, or_throw}
use task_scheduling_platform.Workspaces
use task_scheduling_platform.Workspaces.Cache.{CacheManager}

-- `request.user`, set by JwtStrategy.validate
pub record AuthUser : Type 0 where
  pub user_id : Uuid
  pub email : Email

pub record Request : Type 0 where
  pub user : Option AuthUser
  pub param_workspace_id : Option Uuid
  pub body_workspace_id : Option Uuid
  pub workspace_role : Option WorkspaceRole

-- `request.params?.workspaceId ?? request.body?.workspaceId`
abbrev pub workspace_of : Request → Option Uuid
workspace_of request = or_some request.param_workspace_id request.body_workspace_id

unfoldable pub member_guard : CacheManager → Instant → Request → Exec Request
member_guard cache now request = do
  user ← or_throw (unauthorized "Unauthorized") request.user
  workspace_id ← or_throw (bad_request "workspaceId is required") (workspace_of request)
  found ← Workspaces.get_membership cache now workspace_id user.user_id
  membership ← or_throw (forbidden "You are not a member of this workspace") found
  pure (record request { workspace_role = some membership.role })

abbrev pub ordinal : WorkspaceRole → ℕ
ordinal admin = 0
ordinal member = 1

abbrev pub includes : List WorkspaceRole → WorkspaceRole → Bool
includes required role = exists (λ r. ordinal r == ordinal role) required

-- `required` is what `@Roles(...)` gave the handler or its class.
unfoldable pub roles_guard : List WorkspaceRole → Request → Result (Unit {0})
roles_guard [] request = ok tt
roles_guard (r ∷ required) request = elim request.workspace_role [
  | none ↦ err (forbidden "Insufficient workspace role")
  | some role ↦ elim (includes (r ∷ required) role) [
    | true ↦ ok tt
    | false ↦ err (forbidden "Insufficient workspace role")
  ]
]
