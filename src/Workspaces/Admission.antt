-- ===== src/Workspaces/Admission.antt =====
-- modules/workspaces/guards: whom WorkspaceMemberGuard and RolesGuard let through together.
use task_scheduling_platform.Base.{
  ◌≡◌, ap, ◌∙◌, true, Option, some, List, [], ◌∷◌, arith, In, inl, inr, ◌==◌, Bool-cases,
  Option-cases,
}
use task_scheduling_platform.Http.{Result, ok}
use task_scheduling_platform.World.{Uuid, Instant, WorkspaceMember, World}
use task_scheduling_platform.World.Membership.{WorkspaceRole}
use task_scheduling_platform.Exec.{Exec, ◌>>=◌, lift, >>=-eq-ok}
use task_scheduling_platform.Workspaces.{find_member, get_membership}
use task_scheduling_platform.Workspaces.Cache.{CacheManager, IsCache}
use task_scheduling_platform.Workspaces.Coherence.{IsCoherent, get_membership_lem}
use task_scheduling_platform.Workspaces.Guards.{
  AuthUser, Request, workspace_of, member_guard, ordinal, includes, roles_guard,
}

-- `@UseGuards(JwtAuthGuard, WorkspaceMemberGuard, RolesGuard)`, with the roles that `@Roles` names.
unfoldable pub guards : CacheManager → List WorkspaceRole → Instant → Request → Exec (Unit {0})
unfolding member_guard roles_guard
guards cache required now request = do
  admitted ← member_guard cache now request
  lift (roles_guard required admitted)

answered :
    (x : Result (Option WorkspaceMember) × World) (found : Option WorkspaceMember) (v : World)
    (m : WorkspaceMember)
    → x ≡ (ok found, v)
    → found ≡ some m
    → x.0 ≡ ok (some m)
answered x found v m h e = ap (λ (y : Result (Option WorkspaceMember) × World). y.0) h ∙ ap ok e

member_guard-ok :
    (cache : CacheManager) (now : Instant) (request admitted : Request) (w w' : World)
    → member_guard cache now request w ≡ (ok admitted, w')
    → (user : AuthUser) × (workspace_id : Uuid) × (m : WorkspaceMember) × (request.user ≡ some user)
      × (workspace_of request ≡ some workspace_id)
      × ((get_membership cache now workspace_id user.user_id w).0 ≡ ok (some m))
      × (admitted.workspace_role ≡ some m.role)
unfolding member_guard
member_guard-ok cache now request admitted w w' h = elim (Option-cases request.user) [
  | inl absent ↦ absurd (ground arith)
  | inr (user, given) ↦ elim (Option-cases (workspace_of request)) [
    | inl unnamed ↦ absurd (ground arith)
    | inr (workspace_id, named) ↦
        let h' = rw (given, named) at h in
        let (found, v, read, h'') =
          >>=-eq-ok (get_membership cache now workspace_id user.user_id) _ w w' h' in
        elim (Option-cases found) [
          | inl nobody ↦ absurd (ground arith)
          | inr (m, is_m) ↦ (
            user,
            workspace_id,
            m,
            given,
            named,
            answered (get_membership cache now workspace_id user.user_id w) found v m read is_m,
            ground arith,
          )
        ]
  ]
]

ordinal_same : (a b : WorkspaceRole) → (ordinal a == ordinal b) ≡ true → b ≡ a
ordinal_same a b h = ground arith

includes-In :
    (required : List WorkspaceRole) (actual : WorkspaceRole)
    → includes required actual ≡ true
    → In actual required
includes-In [] actual h = ground arith
includes-In (r ∷ required) actual h = elim (Bool-cases (ordinal r == ordinal actual)) [
  | inl same ↦ inl (ordinal_same r actual same)
  | inr other ↦ inr (includes-In required actual (ground arith))
]

roles_guard-ok :
    (role : WorkspaceRole) (required : List WorkspaceRole) (request : Request)
    (actual : WorkspaceRole)
    → request.workspace_role ≡ some actual
    → roles_guard (role ∷ required) request ≡ ok tt
    → In actual (role ∷ required)
unfolding roles_guard
roles_guard-ok role required request actual given h =
    includes-In (role ∷ required) actual (ground arith)

-- A request that the guards let through a route with `@Roles` comes from a signed-in user who is,
-- by the table of members, in the workspace that the request names, with one of those roles. The
-- cache must be coherent.
pub guards-find_member :
    (cache : CacheManager)
    → IsCache cache
    → (role : WorkspaceRole) (required : List WorkspaceRole) (now : Instant) (request : Request)
      (w w' : World)
    → IsCoherent cache w
    → guards cache (role ∷ required) now request w ≡ (ok tt, w')
    → (user : AuthUser) × (workspace_id : Uuid) × (m : WorkspaceMember) × (request.user ≡ some user)
      × (workspace_of request ≡ some workspace_id)
      × (find_member workspace_id user.user_id w ≡ some m)
      × In m.role (role ∷ required)
unfolding guards
guards-find_member cache laws role required now request w w' coherent h =
    let (admitted, v, read, h') = >>=-eq-ok (member_guard cache now request) _ w w' h in
    let (user, workspace_id, m, given, named, found, is_role) =
      member_guard-ok cache now request admitted w v read in
    let answer = (get_membership_lem cache laws now workspace_id user.user_id w coherent).0 in
    (
      user,
      workspace_id,
      m,
      given,
      named,
      ground arith,
      roles_guard-ok role required admitted m.role is_role
          (ap (λ (x : Result (Unit {0}) × World). x.0) h'),
    )
