-- ===== src/Api/Authorization.antt =====
-- Whom the guards of the routes turn away.
use task_scheduling_platform.Base.{
  ℕ, ◌≡◌, refl, none, some, List, [], ◌∷◌, arith, Option-cases, inl, inr,
}
use task_scheduling_platform.Http.{ok, err, unauthorized, forbidden}
use task_scheduling_platform.World.{Uuid, WorkspaceMember, World, CacheEntry}
use task_scheduling_platform.World.Membership.{WorkspaceRole, admin, member}
use task_scheduling_platform.Workspaces.{find_member, get_membership, membership_ttl_ms}
use task_scheduling_platform.Workspaces.Cache.{IsCache}
use task_scheduling_platform.Workspaces.Coherence.{IsCoherent}
use task_scheduling_platform.Workspaces.Guards.{AuthUser, member_guard, roles_guard}
use task_scheduling_platform.Api.Context.{Platform, Moment, Headers, in_workspace, jwt_guard}
use task_scheduling_platform.Api.Routes.{
  workspace_in_path, Manages, access-in_workspace, Manages-access,
}
use task_scheduling_platform.Api.{Route, guarded, access, serve, request_of}

-- `get_membership` on a coherent cache: the answer of the table, and at most the cache has changed.
get_membership-answer :
    (platform : Platform) (laws : IsCache platform.cache) (moment : Moment) (id user_id : Uuid)
    (w : World)
    → IsCoherent platform.cache w
    → (entries : List CacheEntry) × (get_membership platform.cache moment.now id user_id w
        ≡ (ok (find_member id user_id w), record w { cache = entries }))
      × (find_member id user_id w ≡ none → entries ≡ w.cache)
unfolding get_membership
get_membership-answer platform laws moment id user_id w coherent =
    elim (Option-cases (platform.cache.get moment.now id user_id w.cache)) [
      | inr (m, hit) ↦ rw (hit, coherent moment.now id user_id m hit) (w.cache, refl, λ h. refl)
      | inl miss ↦ elim (Option-cases (find_member id user_id w)) [
        | inl absent ↦ rw (miss, absent) (w.cache, refl, λ h. refl)
        | inr (m, found) ↦
            rw (miss, found)
              (
                platform.cache.set moment.now id user_id m membership_ttl_ms w.cache,
                refl,
                λ h. absurd (ground arith),
              )
      ]
    ]

roles_guard-member :
    (user : AuthUser) (id : Uuid)
    → roles_guard (admin ∷ []) (record (request_of user id) { workspace_role = some member })
      ≡ err (forbidden "Insufficient workspace role")
unfolding roles_guard
roles_guard-member user id = refl

module _ (platform : Platform) (laws : IsCache platform.cache) (moment : Moment) (headers : Headers)
    (route : Route) (user : AuthUser) (id : Uuid) (required : List WorkspaceRole) (w : World)
    (signed_in_as : jwt_guard platform moment.now headers.bearer w ≡ (ok user, w))
    (behind : access route ≡ in_workspace id required)
    (coherent : IsCoherent platform.cache w) where
  refuse_outsider :
      find_member id user.user_id w ≡ none
      → serve platform moment headers (guarded route) w
        ≡ (err (forbidden "You are not a member of this workspace"), w)
  unfolding serve member_guard roles_guard
  refuse_outsider absent =
      let (entries, e, same) =
        get_membership-answer platform laws moment id user.user_id w coherent in
      rw (signed_in_as, behind, e, absent, same absent) refl

  refuse_member :
      (m : WorkspaceMember)
      → required ≡ admin ∷ []
      → find_member id user.user_id w ≡ some m
      → m.role ≡ member
      → (entries : List CacheEntry) × (serve platform moment headers (guarded route) w
          ≡ (err (forbidden "Insufficient workspace role"), record w { cache = entries }))
  unfolding serve member_guard
  refuse_member m for_admins found ordinary =
      let (entries, e, same) =
        get_membership-answer platform laws moment id user.user_id w coherent in
      let refused : roles_guard required
            (record (request_of user id) { workspace_role = some m.role })
          ≡ err (forbidden "Insufficient workspace role") =
        rw (for_admins, ordinary) (roles_guard-member user id) in
      (entries, rw (signed_in_as, behind, e, found) (rw refused refl))

-- A signed-in user who is not in the workspace that the path of a route names gets a 403, on every
-- such route of the API, and nothing changes. The cache of memberships is coherent.
pub serve-outsider :
    (platform : Platform) (moment : Moment) (headers : Headers) (route : Route) (user : AuthUser)
    (id : Uuid) (w : World)
    → IsCache platform.cache
    → IsCoherent platform.cache w
    → jwt_guard platform moment.now headers.bearer w ≡ (ok user, w)
    → workspace_in_path route ≡ some id
    → find_member id user.user_id w ≡ none
    → serve platform moment headers (guarded route) w
      ≡ (err (forbidden "You are not a member of this workspace"), w)
serve-outsider platform moment headers route user id w laws coherent signed_in_as named absent =
    let (required, behind) = access-in_workspace route id named in
    refuse_outsider platform laws moment headers route user id required w signed_in_as behind
      coherent absent

-- A MEMBER of the workspace gets a 403 on every route that manages it: a change of a role, the removal
-- of a member or of a project, and those for the invitations. Of the whole state at most the cache of
-- memberships changes. That cache is coherent before.
pub serve-insufficient :
    (platform : Platform) (moment : Moment) (headers : Headers) (route : Route) (user : AuthUser)
    (id : Uuid) (w : World) (m : WorkspaceMember)
    → IsCache platform.cache
    → IsCoherent platform.cache w
    → jwt_guard platform moment.now headers.bearer w ≡ (ok user, w)
    → Manages route id
    → find_member id user.user_id w ≡ some m
    → m.role ≡ member
    → (entries : List CacheEntry) × (serve platform moment headers (guarded route) w
        ≡ (err (forbidden "Insufficient workspace role"), record w { cache = entries }))
serve-insufficient platform moment headers route user id w m laws coherent signed_in_as manages
      found ordinary =
    refuse_member platform laws moment headers route user id (admin ∷ []) w signed_in_as
      (Manages-access route id manages) coherent m refl found ordinary

-- Without a bearer token, or with one that `verify` refuses, every route but those of the
-- AuthController answers 401, and nothing changes.
pub serve-unauthenticated :
    (platform : Platform) (moment : Moment) (headers : Headers) (route : Route) (w : World)
    → ((token : ℕ) → headers.bearer ≡ some token → platform.verify moment.now token ≡ none)
    → serve platform moment headers (guarded route) w ≡ (err (unauthorized "Unauthorized"), w)
unfolding serve
serve-unauthenticated platform moment headers route w refused = elim (Option-cases headers.bearer) [
  | inl missing ↦ rw missing refl
  | inr (token, given) ↦ rw (given, refused token given) refl
]
