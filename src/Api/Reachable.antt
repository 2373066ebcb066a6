-- ===== src/Api/Reachable.antt =====
-- The memberships over every sequence of API calls.
use task_scheduling_platform.Base.{ℕ, ◌≡◌, sym, subst, Option, List, arith}
use task_scheduling_platform.World.{Uuid, World}
use task_scheduling_platform.World.Membership.{WorkspaceRole}
use task_scheduling_platform.Exec.{Exec, >>=-pure, >>=-world}
use task_scheduling_platform.Workspaces.{get_membership}
use task_scheduling_platform.Workspaces
use task_scheduling_platform.Workspaces.Cache.{IsCache}
use task_scheduling_platform.Workspaces.Guards.{AuthUser, member_guard}
use task_scheduling_platform.Invitations
use task_scheduling_platform.Api.Context.{
  Platform, Moment, Headers, Reply, replies, Access, signed_in, in_workspace, jwt_guard,
}
use task_scheduling_platform.Activity
use task_scheduling_platform.Reminders
use task_scheduling_platform.Api.WorkspacesController
use task_scheduling_platform.Api.AuthController
use task_scheduling_platform.Api.TasksController
use task_scheduling_platform.Api.CommentsController
use task_scheduling_platform.Api.ProjectsController
use task_scheduling_platform.Api.NotificationsController
use task_scheduling_platform.Api.InvitationsController
use task_scheduling_platform.Api.{
  Call, Route, auth, guarded, tasks, comments, projects, workspaces, invitations, notifications,
  get_activity, get_me, scan_reminders, access, admit, handle, serve, me,
}
use task_scheduling_platform.Api.Frames.{KeepsFrame}
use task_scheduling_platform.Api.Frames.Work.{
  TasksController-KeepsFrame, ProjectsController-KeepsFrame, CommentsController-KeepsFrame,
}
use task_scheduling_platform.Api.Frames.Rest.{
  AuthController-KeepsFrame, NotificationsController-KeepsFrame, list_for_task-KeepsFrame,
  invite-KeepsFrame, revoke-KeepsFrame, scan-KeepsFrame,
}
use task_scheduling_platform.Api.Invariant.{IsSound, IsFresh, frame-IsSound}
use task_scheduling_platform.Api.Invariant.Joining.{create-IsSound, accept-IsSound}
use task_scheduling_platform.Api.Invariant.Changing.{
  get_membership-IsSound, get_membership_frame, update_member_role-IsSound, remove_member-IsSound,
}

-- One call of the API, at a moment whose ids are new.
pub data Step (platform : Platform) : World → World → Type 0 where
  step :
      (moment : Moment) (headers : Headers) (call : Call) (w : World)
      → IsFresh moment w
      → Step platform w (serve platform moment headers call w).1

pub data Reach (platform : Platform) : World → World → Type 0 where
  start : (w : World) → Reach platform w w
  next : {w v u : World} → Reach platform w v → Step platform v u → Reach platform w u

me-KeepsFrame : (user_id : Uuid) → KeepsFrame (me user_id)
unfolding me
me-KeepsFrame user_id w = ground arith

find_workspace-KeepsFrame : (id : Uuid) → KeepsFrame (Workspaces.find_by_id_or_fail id)
unfolding Workspaces.find_by_id_or_fail
find_workspace-KeepsFrame id w = ground arith

pub admit_world :
    (platform : Platform) (moment : Moment) (user : AuthUser) (workspace_id : Uuid)
    (required : List WorkspaceRole) (w : World)
    → (admit platform moment user (in_workspace workspace_id required) w).1
      ≡ (get_membership platform.cache moment.now workspace_id user.user_id w).1
unfolding member_guard
admit_world platform moment user workspace_id required w = ground arith

pub jwt_guard_world :
    (platform : Platform) (moment : Moment) (bearer : Option ℕ) (w : World)
    → (jwt_guard platform moment.now bearer w).1 ≡ w
jwt_guard_world platform moment bearer w = ground arith

module _ (platform : Platform) (laws : IsCache platform.cache) (moment : Moment) where
  abbrev Sound : World → Type 0
  Sound w = IsSound platform.cache w

  framed : {A : Type 0} (m : Exec A) (w : World) → KeepsFrame m → Sound w → Sound (m w).1
  framed m w keeps sound = frame-IsSound platform.cache w (m w).1 (keeps w) sound

  replied :
      {A : Type 0} (body : A → Reply) (m : Exec A) (w : World)
      → Sound (m w).1
      → Sound (replies body m w).1
  replied body m w sound = subst Sound (sym (>>=-pure m body w)) sound

  kept :
      {A : Type 0} (body : A → Reply) (m : Exec A) (w : World)
      → KeepsFrame m
      → Sound w
      → Sound (replies body m w).1
  kept body m w keeps sound = replied body m w (framed m w keeps sound)

  workspaces-IsSound :
      (user_id : Uuid) (call : WorkspacesController.Call) (w : World)
      → IsFresh moment w
      → Sound w
      → Sound (WorkspacesController.handle platform moment user_id call w).1
  unfolding WorkspacesController.handle
  workspaces-IsSound user_id (WorkspacesController.create dto) w fresh sound =
      replied _ (Workspaces.create platform.lower moment.stamp moment.member_stamp user_id dto) w (
        create-IsSound platform.cache platform.lower moment.stamp moment.member_stamp user_id dto w
          fresh.workspace fresh.of_workspace fresh.member sound)
  workspaces-IsSound user_id WorkspacesController.list_mine w fresh sound = sound
  workspaces-IsSound user_id (WorkspacesController.get id) w fresh sound =
      kept _ (Workspaces.find_by_id_or_fail id) w (find_workspace-KeepsFrame id) sound
  workspaces-IsSound user_id (WorkspacesController.list_members id) w fresh sound = sound
  workspaces-IsSound user_id (WorkspacesController.update_role id target role) w fresh sound =
      replied _ (Workspaces.update_member_role platform.cache id target role) w
        (update_member_role-IsSound platform.cache laws id target role w sound)
  workspaces-IsSound user_id (WorkspacesController.remove_member id target) w fresh sound =
      replied _ (Workspaces.remove_member platform.cache id target) w
        (remove_member-IsSound platform.cache laws id target w sound)

  invitations-IsSound :
      (user : AuthUser) (call : InvitationsController.Call) (w : World)
      → IsFresh moment w
      → Sound w
      → Sound (InvitationsController.handle platform moment user call w).1
  unfolding InvitationsController.handle
  invitations-IsSound user (InvitationsController.invite id dto) w fresh sound =
      kept _
        (Invitations.invite (platform.crypto).fold moment.stamp moment.now moment.invite_token id
          user.user_id dto)
        w
        (invite-KeepsFrame (platform.crypto).fold moment.stamp moment.now moment.invite_token id
          user.user_id dto)
        sound
  invitations-IsSound user (InvitationsController.list id) w fresh sound = sound
  invitations-IsSound user (InvitationsController.revoke id i) w fresh sound =
      kept _ (Invitations.revoke id i) w (revoke-KeepsFrame id i) sound
  invitations-IsSound user (InvitationsController.accept token) w fresh sound =
      replied _
        (Invitations.accept (platform.crypto).fold moment.member_stamp moment.now user.user_id
          user.email token)
        w
        (accept-IsSound platform.cache (platform.crypto).fold moment.member_stamp moment.now
          user.user_id user.email token w fresh.member sound)

  handle-IsSound :
      (user : AuthUser) (role : Option WorkspaceRole) (route : Route) (w : World)
      → IsFresh moment w
      → Sound w
      → Sound (handle platform moment user role route w).1
  unfolding handle
  handle-IsSound user role (tasks call) w fresh sound =
      framed (TasksController.handle platform moment user.user_id call) w
        (TasksController-KeepsFrame platform moment user.user_id call) sound
  handle-IsSound user role (comments call) w fresh sound =
      framed (CommentsController.handle platform moment user.user_id role call) w
        (CommentsController-KeepsFrame platform moment user.user_id role call) sound
  handle-IsSound user role (projects call) w fresh sound =
      framed (ProjectsController.handle platform moment user.user_id call) w
        (ProjectsController-KeepsFrame platform moment user.user_id call) sound
  handle-IsSound user role (workspaces call) w fresh sound =
      workspaces-IsSound user.user_id call w fresh sound
  handle-IsSound user role (invitations call) w fresh sound =
      invitations-IsSound user call w fresh sound
  handle-IsSound user role (notifications call) w fresh sound =
      framed (NotificationsController.handle platform moment user.user_id call) w
        (NotificationsController-KeepsFrame platform moment user.user_id call) sound
  handle-IsSound user role (get_activity x p t query) w fresh sound =
      kept _ (Activity.list_for_task platform.codec x p t query) w
        (list_for_task-KeepsFrame platform.codec x p t query) sound
  handle-IsSound user role get_me w fresh sound =
      kept _ (me user.user_id) w (me-KeepsFrame user.user_id) sound
  handle-IsSound user role scan_reminders w fresh sound =
      kept _ (Reminders.scan platform.queue moment.reminder_stamps moment.note_stamps moment.now) w
        (scan-KeepsFrame platform.queue moment.reminder_stamps moment.note_stamps moment.now) sound

  abbrev Ready : World → Type 0
  Ready w = IsFresh moment w × Sound w

  admit-Ready :
      (user : AuthUser) (access : Access) (w : World)
      → Ready w
      → Ready (admit platform moment user access w).1
  admit-Ready user signed_in w ready = ready
  admit-Ready user (in_workspace id required) w (fresh, sound) =
      let (same, same_members) =
        get_membership_frame platform.cache laws moment.now id user.user_id w in
      subst Ready (sym (admit_world platform moment user id required w)) (
        record {
          workspace = rw same fresh.workspace;
          of_workspace = rw same_members fresh.of_workspace;
          member = rw same_members fresh.member;
        },
        get_membership-IsSound platform.cache laws moment.now id user.user_id w sound,
      )

  serve-IsSound :
      (headers : Headers) (call : Call) (w : World)
      → IsFresh moment w
      → Sound w
      → Sound (serve platform moment headers call w).1
  unfolding serve
  serve-IsSound headers (auth call) w fresh sound =
      framed (AuthController.handle platform moment headers.session call) w
        (AuthController-KeepsFrame platform moment headers.session call) sound
  serve-IsSound headers (guarded route) w fresh sound =
      >>=-world Ready Sound (jwt_guard platform moment.now headers.bearer) _ w
        (subst Ready (sym (jwt_guard_world platform moment headers.bearer w)) (fresh, sound))
        (λ v r. r.1)
        (λ user v r.
          >>=-world Ready Sound (admit platform moment user (access route)) _ v
            (admit-Ready user (access route) v r) (λ u s. s.1)
            (λ role u s. handle-IsSound user role route u s.0 s.1))

-- Over every sequence of API calls these stay true: the memberships have unique ids and at most one
-- of them is for a workspace and a user, the workspaces have unique ids, the owner of every workspace
-- is in it as an ADMIN, and what the cache would answer about a membership is what the table holds.
-- Each call draws ids that no row has.
pub Reach-IsSound :
    (platform : Platform) (w w' : World)
    → IsCache platform.cache
    → IsSound platform.cache w
    → Reach platform w w'
    → IsSound platform.cache w'
Reach-IsSound platform w w' laws sound (start _) = sound
Reach-IsSound platform w w' laws sound (next {v = v} before (step moment headers call _ fresh)) =
    serve-IsSound platform laws moment headers call v fresh
      (Reach-IsSound platform w v laws sound before)
