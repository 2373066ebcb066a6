-- ===== src/Api/Tenancy.antt =====
-- The tasks that a request may touch: those of the workspaces of its user.
use task_scheduling_platform.Base.{
  ◌≡◌, refl, sym, ◌∙◌, ap, subst, ◌↔◌, Option, none, some, arith, In, inl, inr, Option-cases,
}
use task_scheduling_platform.Http.{Result, ok}
use task_scheduling_platform.World.{Uuid, Task, WorkspaceMember, World}
use task_scheduling_platform.World.Membership.{WorkspaceRole}
use task_scheduling_platform.Exec.{Exec, >>=-pure, >>=-world}
use task_scheduling_platform.Tasks
use task_scheduling_platform.Tasks.Subtree
use task_scheduling_platform.Projects
use task_scheduling_platform.Activity
use task_scheduling_platform.Reminders
use task_scheduling_platform.Workspaces.{find_member, get_membership}
use task_scheduling_platform.Workspaces.Cache.{IsCache}
use task_scheduling_platform.Workspaces.Coherence.{IsCoherent}
use task_scheduling_platform.Workspaces.Guards.{AuthUser}
use task_scheduling_platform.Tasks.Invariant.{IsWell}
use task_scheduling_platform.Tasks.Tenancy.{IsTaskOf, Isolates, same-Isolates}
use task_scheduling_platform.Tasks.Tenancy.Requests.{
  create-Isolates, update-Isolates, move_task-Isolates, remove-Isolates, remove_project-Isolates,
}
use task_scheduling_platform.Api.Context.{
  Platform, Moment, Headers, Reply, replies, Access, signed_in, in_workspace, jwt_guard,
}
use task_scheduling_platform.Api.TasksController
use task_scheduling_platform.Api.ProjectsController
use task_scheduling_platform.Api.{
  Route, guarded, tasks, comments, projects, workspaces, invitations, notifications, get_activity,
  get_me, scan_reminders, access, admit, handle, serve, me,
}
use task_scheduling_platform.Api.Routes.{workspace_in_path, task_workspace, project_workspace}
use task_scheduling_platform.Api.Authorization.{serve-outsider}
use task_scheduling_platform.Api.Reachable.{admit_world, jwt_guard_world}
use task_scheduling_platform.Api.Frames.Tables.{
  KeepsTasks, replies-KeepsTasks, list_tasks-KeepsTasks, find_task-KeepsTasks,
  get_subtree-KeepsTasks, create_project-KeepsTasks, list_projects-KeepsTasks,
  find_project-KeepsTasks, update_project-KeepsTasks, list_for_task-KeepsTasks, me-KeepsTasks,
  scan-KeepsTasks, CommentsController-KeepsTasks, WorkspacesController-KeepsTasks,
  InvitationsController-KeepsTasks, NotificationsController-KeepsTasks,
}

module _ (platform : Platform) (moment : Moment) where
  replied :
      {A : Type 0} (body : A → Reply) (m : Exec A) (id : Uuid) (w : World)
      → Isolates id w (m w).1
      → Isolates id w (replies body m w).1
  replied body m id w h = subst (Isolates id w) (sym (>>=-pure m body w)) h

  kept :
      {A : Type 0} (body : A → Reply) (m : Exec A) (id : Uuid) (w : World)
      → KeepsTasks m
      → Isolates id w (replies body m w).1
  kept body m id w h = replied body m id w (same-Isolates id w (m w).1 (h w))

  tasks-Isolates :
      (user_id : Uuid) (call : TasksController.Call) (w : World)
      → IsWell w.tasks
      → Isolates (task_workspace call) w (TasksController.handle platform moment user_id call w).1
  unfolding TasksController.handle
  tasks-Isolates user_id (TasksController.create i p dto) w well =
      replied _ (Tasks.create moment.stamp i p user_id dto) i w
        (create-Isolates i p w well moment.stamp user_id dto)
  tasks-Isolates user_id (TasksController.list i p query) w well =
      kept _ (Tasks.list platform.codec i p query) i w
        (list_tasks-KeepsTasks i p 0 0 platform.codec query)
  tasks-Isolates user_id (TasksController.get i p t) w well =
      kept _ (Tasks.find_one_or_fail i p t) i w (find_task-KeepsTasks i p t 0)
  tasks-Isolates user_id (TasksController.get_subtree i p t) w well =
      kept _ (Subtree.get_subtree i p t) i w (get_subtree-KeepsTasks i p t 0)
  tasks-Isolates user_id (TasksController.move i p t parent) w well =
      replied _ (Tasks.move_task moment.at i p t parent) i w
        (move_task-Isolates i p w well t moment.at parent)
  tasks-Isolates user_id (TasksController.update i p t dto) w well =
      replied _ (Tasks.update moment.now moment.at i p t user_id dto) i w
        (update-Isolates i p w well t moment.now moment.at user_id dto)
  tasks-Isolates user_id (TasksController.remove i p t) w well =
      replied _ (Tasks.remove i p t) i w (remove-Isolates i p w well t)

  projects-Isolates :
      (user_id : Uuid) (call : ProjectsController.Call) (w : World)
      → IsWell w.tasks
      → Isolates
          (project_workspace call)
          w
          (ProjectsController.handle platform moment user_id call w).1
  unfolding ProjectsController.handle
  projects-Isolates user_id (ProjectsController.create i dto) w well =
      kept _ (Projects.create moment.stamp i user_id dto) i w
        (create_project-KeepsTasks i 0 0 user_id moment.stamp dto)
  projects-Isolates user_id (ProjectsController.list i query) w well =
      kept _ (Projects.list platform.codec i query) i w
        (list_projects-KeepsTasks i 0 0 0 platform.codec query)
  projects-Isolates user_id (ProjectsController.get i p) w well =
      kept _ (Projects.find_one_or_fail i p) i w (find_project-KeepsTasks i p 0 0)
  projects-Isolates user_id (ProjectsController.update i p dto) w well =
      kept _ (Projects.update moment.at i p dto) i w
        (update_project-KeepsTasks i p 0 0 moment.at dto)
  projects-Isolates user_id (ProjectsController.remove i p) w well =
      replied _ (Projects.remove i p) i w (remove_project-Isolates i p w well)

  -- The handlers of the routes whose path names a workspace, and of the others.
  handle-Isolates :
      (user : AuthUser) (role : Option WorkspaceRole) (route : Route) (id : Uuid) (w : World)
      → IsWell w.tasks
      → workspace_in_path route ≡ some id
      → Isolates id w (handle platform moment user role route w).1
  unfolding handle
  handle-Isolates user role (tasks call) id w well h =
      subst (λ i. Isolates i w (TasksController.handle platform moment user.user_id call w).1)
        (ground arith) (tasks-Isolates user.user_id call w well)
  handle-Isolates user role (comments call) id w well h =
      same-Isolates id w _ (CommentsController-KeepsTasks platform moment user.user_id role call w)
  handle-Isolates user role (projects call) id w well h =
      subst (λ i. Isolates i w (ProjectsController.handle platform moment user.user_id call w).1)
        (ground arith) (projects-Isolates user.user_id call w well)
  handle-Isolates user role (workspaces call) id w well h =
      same-Isolates id w _ (WorkspacesController-KeepsTasks platform moment user.user_id call w)
  handle-Isolates user role (invitations call) id w well h =
      same-Isolates id w _ (InvitationsController-KeepsTasks platform moment user call w)
  handle-Isolates user role (notifications call) id w well h = cc
  handle-Isolates user role (get_activity i p t query) id w well h =
      kept _ (Activity.list_for_task platform.codec i p t query) id w
        (list_for_task-KeepsTasks i p t 0 platform.codec query)
  handle-Isolates user role get_me id w well h = cc
  handle-Isolates user role scan_reminders id w well h = cc

  handle_elsewhere :
      (user : AuthUser) (role : Option WorkspaceRole) (route : Route)
      → workspace_in_path route ≡ none
      → KeepsTasks (handle platform moment user role route)
  unfolding handle
  handle_elsewhere user role (tasks call) h = cc
  handle_elsewhere user role (comments call) h = cc
  handle_elsewhere user role (projects call) h = cc
  handle_elsewhere user role (workspaces call) h =
      WorkspacesController-KeepsTasks platform moment user.user_id call
  handle_elsewhere user role (invitations call) h =
      InvitationsController-KeepsTasks platform moment user call
  handle_elsewhere user role (notifications call) h =
      NotificationsController-KeepsTasks platform moment user.user_id call
  handle_elsewhere user role (get_activity i p t query) h = cc
  handle_elsewhere user role get_me h =
      replies-KeepsTasks _ (me user.user_id) (me-KeepsTasks 0 0 0 user.user_id)
  handle_elsewhere user role scan_reminders h =
      replies-KeepsTasks _
        (Reminders.scan platform.queue moment.reminder_stamps moment.note_stamps moment.now)
        (scan-KeepsTasks platform.queue moment.reminder_stamps moment.note_stamps moment.now)

abbrev SameTables : World → World → Type 0
SameTables w v = (v.tasks ≡ w.tasks) × (v.projects ≡ w.projects)

same-Isolates_before :
    (id : Uuid) (w v u : World) → SameTables w v → Isolates id v u → Isolates id w u
same-Isolates_before id w v u (same, same_projects) isolates = record {
  kept = λ t m other. isolates.kept t (rw same m) (λ mine. other (rw same_projects at mine));
  origin = λ t m. elim (isolates.origin t m) [
    | inl k ↦ inl (rw same at k)
    | inr mine ↦ inr (rw same_projects at mine)
  ];
}

get_membership_tables :
    (platform : Platform) (moment : Moment) (id user_id : Uuid) (w : World)
    → SameTables w (get_membership platform.cache moment.now id user_id w).1
unfolding get_membership
get_membership_tables platform moment id user_id w = ground arith

admit_tables :
    (platform : Platform) (moment : Moment) (user : AuthUser) (access : Access) (w : World)
    → SameTables w (admit platform moment user access w).1
admit_tables platform moment user signed_in w = (refl, refl)
admit_tables platform moment user (in_workspace id required) w =
    subst (SameTables w) (sym (admit_world platform moment user id required w))
      (get_membership_tables platform moment id user.user_id w)

module _ (platform : Platform) (moment : Moment) (headers : Headers) (route : Route)
    (w : World) where
  -- What holds after the handler holds after the request, whatever the guards do.
  serve_handled :
      (Q : World → Type 0)
      → ((v : World) → SameTables w v → Q v)
      → ((user : AuthUser) (role : Option WorkspaceRole) (v : World)
          → SameTables w v
          → Q (handle platform moment user role route v).1)
      → Q (serve platform moment headers (guarded route) w).1
  unfolding serve
  serve_handled Q thrown handled =
      >>=-world (SameTables w) Q (jwt_guard platform moment.now headers.bearer) _ w
        (subst (SameTables w) (sym (jwt_guard_world platform moment headers.bearer w)) (refl, refl))
        thrown
        (λ user v (s, p).
          >>=-world (SameTables w) Q (admit platform moment user (access route)) _ v
            (let (s', p') = admit_tables platform moment user (access route) v in (s' ∙ s, p' ∙ p))
            thrown (λ role u same. handled user role u same))

  serve-Isolates :
      (id : Uuid)
      → IsWell w.tasks
      → workspace_in_path route ≡ some id
      → Isolates id w (serve platform moment headers (guarded route) w).1
  serve-Isolates id well named =
      serve_handled (λ u. Isolates id w u) (λ v same. same-Isolates id w v same.0)
        (λ user role v same.
          same-Isolates_before id w v _ same
            (handle-Isolates platform moment user role route id v (rw same.0 well) named))

  serve_elsewhere :
      workspace_in_path route ≡ none
      → (serve platform moment headers (guarded route) w).1.tasks ≡ w.tasks
  serve_elsewhere unnamed =
      serve_handled (λ u. u.tasks ≡ w.tasks) (λ v same. same.0)
        (λ user role v same. handle_elsewhere platform moment user role route unnamed v ∙ same.0)

-- No request changes, adds or removes a task of a workspace of which its user is not a member: a task
-- in a project of none of the user's workspaces is in the table after the request exactly if it was
-- before, on every route but those of the AuthController. The table of tasks is well formed and the
-- cache of memberships coherent.
pub serve-In :
    (platform : Platform) (moment : Moment) (headers : Headers) (route : Route) (user : AuthUser)
    (w : World) (t : Task)
    → IsCache platform.cache
    → IsCoherent platform.cache w
    → IsWell w.tasks
    → jwt_guard platform moment.now headers.bearer w ≡ (ok user, w)
    → ((id : Uuid) (m : WorkspaceMember)
        → find_member id user.user_id w ≡ some m
        → ¬ IsTaskOf id w t)
    → In t (serve platform moment headers (guarded route) w).1.tasks ↔ In t w.tasks
serve-In platform moment headers route user w t laws coherent well signed_in_as foreign =
    elim (Option-cases (workspace_in_path route)) [
      | inl unnamed ↦
          let same = serve_elsewhere platform moment headers route w unnamed in
          (λ m. rw same at m, λ m. rw same m)
      | inr (id, named) ↦ elim (Option-cases (find_member id user.user_id w)) [
        | inl absent ↦
            let refused =
              serve-outsider platform moment headers route user id w laws coherent signed_in_as
                named absent in
            let same : (serve platform moment headers (guarded route) w).1.tasks ≡ w.tasks =
              ap (λ (x : Result Reply × World). x.1.tasks) refused in
            (λ m. rw same at m, λ m. rw same m)
        | inr (m, found) ↦
            let isolates = serve-Isolates platform moment headers route w id well named in
            (
              λ k. elim (isolates.origin t k) [
                | inl before ↦ before
                | inr mine ↦ absurd (foreign id m found mine)
              ],
              λ k. isolates.kept t k (foreign id m found),
            )
      ]
    ]
