-- ===== src/Api/Tests.antt =====
-- Requests to the API on the sample workspace, and the theorems at concrete inputs.
use task_scheduling_platform.Base.{
  ℕ, String, Bool, false, ◌+◌, ◌++◌, ◌↔◌, In, true, ◌≡◌, refl, sym, subst, none, some, List, [],
  ◌∷◌, arith, inl, inr,
}
use task_scheduling_platform.Http.{ok, err, unauthorized, forbidden}
use task_scheduling_platform.World.{Uuid, Task, WorkspaceMember, World, CacheEntry}
use task_scheduling_platform.World.Membership.{admin, member}
use task_scheduling_platform.Samples.{membership, task, workspace, project, world}
use task_scheduling_platform.Projects
use task_scheduling_platform.Tasks
use task_scheduling_platform.Workspaces
use task_scheduling_platform.Workspaces.{find_member, membership_ttl_ms}
use task_scheduling_platform.Workspaces.Cache.{in_memory}
use task_scheduling_platform.Workspaces.Cache.InMemory.{in_memory-IsCache}
use task_scheduling_platform.Workspaces.Ownership.{HasOwner}
use task_scheduling_platform.Workspaces.Guards.{member_guard, roles_guard}
use task_scheduling_platform.Api.Samples.{verify, platform, moment, headers}
use task_scheduling_platform.Api.Context.{Reply}
use task_scheduling_platform.Api.TasksController
use task_scheduling_platform.Api.WorkspacesController
use task_scheduling_platform.Api.{Route, guarded, tasks, workspaces, get_me, handle, serve}
use task_scheduling_platform.Api.Errors.{
  Exception, http_exception, other_exception, object, Envelope, catch_all,
}
use task_scheduling_platform.Api.Tenancy.{serve-In}
use task_scheduling_platform.Tasks.Tenancy.{IsTaskOf}
use task_scheduling_platform.Tasks.Invariant.{IsWell}
use task_scheduling_platform.Api.Routes.{updates_role}
use task_scheduling_platform.Api.Authorization.{
  serve-outsider, serve-insufficient, serve-unauthenticated,
}
use task_scheduling_platform.Api.Invariant.{IsSound, IsFresh}
use task_scheduling_platform.Api.Reachable.{Reach, step, start, next, Reach-IsSound}

service : Unit {0}
unfolding serve handle member_guard roles_guard Workspaces.get_membership
    Workspaces.update_member_role Workspaces.find_by_id_or_fail TasksController.handle
    WorkspacesController.handle Tasks.find_one_or_fail Projects.find_one_or_fail
service = tt

abbrev get_task : Route
get_task = tasks (TasksController.get 10 20 31)

-- User 2 reads a task, and the membership is cached for 30 seconds.
abbrev cached : World
cached = record world {
  cache =
      record {
        workspace_id = 10;
        user_id = 2;
        membership = membership 12 2 member;
        expires_at = 5 + membership_ttl_ms;
      }
      ∷ [];
}

member_reads :
    serve platform moment (headers 2) (guarded get_task) world
    ≡ (ok (Reply.task (task 31 none)), cached)
unfolding service
member_reads = refl

world-IsSound : IsSound in_memory world
world-IsSound = record {
  keys = (λ m n k l e. ground arith, λ m n k l e f. ground arith);
  unique = λ x y k l e. ground arith;
  owned = λ x k. elim k [
    | inl e ↦ subst (HasOwner world) (sym e) (membership 11 1 admin, refl, refl)
    | inr nothing ↦ absurd nothing
  ];
  coherent = λ now w u m h. ground arith;
}

moment-IsFresh : IsFresh moment world
moment-IsFresh = record {
  workspace = λ x k. ground arith;
  of_workspace = λ m k. ground arith;
  member = λ m k. ground arith;
}

serve-outsider_example :
    serve platform moment (headers 3) (guarded get_task) world
    ≡ (err (forbidden "You are not a member of this workspace"), world)
serve-outsider_example =
    serve-outsider platform moment (headers 3) get_task (record { user_id = 3; email = 103 }) 10
      world in_memory-IsCache (world-IsSound.coherent) refl refl refl

abbrev promote : Route
promote = workspaces (WorkspacesController.update_role 10 2 admin)

serve-insufficient_example :
    (entries : List CacheEntry) × (serve platform moment (headers 2) (guarded promote) world
      ≡ (err (forbidden "Insufficient workspace role"), record world { cache = entries }))
serve-insufficient_example =
    serve-insufficient platform moment (headers 2) promote (record { user_id = 2; email = 102 }) 10
      world (membership 12 2 member) in_memory-IsCache world-IsSound.coherent refl
      (updates_role 10 2 admin) refl refl

token_refused : (token : ℕ) → (headers 0).bearer ≡ some token → verify 5 token ≡ none
token_refused token h = ground arith

no_token :
    serve platform moment (headers 0) (guarded get_me) world
    ≡ (err (unauthorized "Unauthorized"), world)
no_token = serve-unauthenticated platform moment (headers 0) get_me world token_refused

-- User 1, the owner, makes user 2 an ADMIN.
abbrev promoted : World
promoted = (serve platform moment (headers 1) (guarded promote) world).1

promoted_members : promoted.members ≡ membership 11 1 admin ∷ membership 12 2 admin ∷ []
unfolding service
promoted_members = refl

promoted-Reach : Reach platform world promoted
promoted-Reach = next (start world) (step moment (headers 1) (guarded promote) world moment-IsFresh)

Reach-IsSound_example : IsSound in_memory promoted
Reach-IsSound_example =
    Reach-IsSound platform world promoted in_memory-IsCache world-IsSound promoted-Reach

-- A value of JSON: a text or a list of texts.
abbrev answer : Exception (List String) → Envelope (List String) × Bool
answer =
    catch_all (List String) (λ t. t ∷ []) (λ status. none) 701 9
      (record { correlation_id = none; url = "/health" })

abbrev not_answered : ℕ → List String → Envelope (List String)
not_answered status message = record {
  status_code = status;
  error = none;
  message = message;
  correlation_id = 701;
  path = "/health";
  timestamp = 9;
}

-- The messages of a failed validation are passed on.
invalid :
    answer (http_exception 400 (object (some ("a" ∷ "b" ∷ [])) none))
    ≡ (not_answered 400 ("a" ∷ "b" ∷ []), false)
invalid = refl

-- A failed health check is an HttpException and logged.
unavailable :
    answer (http_exception 503 (object none none)) ≡ (not_answered 503 ("Error" ∷ []), true)
unavailable = refl

-- Of another error nothing is told.
unexpected : answer other_exception ≡ (not_answered 500 ("Internal server error" ∷ []), true)
unexpected = refl

-- Workspace 13 of user 3, with project 23 and task 43; user 2 is not a member.
abbrev foreign_task : Task
foreign_task = record (task 43 none) { project_id = 23 }

abbrev two_tenants : World
two_tenants = record world {
  workspaces = world.workspaces ++ record workspace { id = 13; owner_id = 3 } ∷ [];
  members = world.members ++ record (membership 14 3 admin) { workspace_id = 13 } ∷ [];
  projects = world.projects ++ record project { id = 23; workspace_id = 13 } ∷ [];
  tasks = task 31 none ∷ foreign_task ∷ [];
}

two_tenants-IsWell : IsWell two_tenants.tasks
two_tenants-IsWell = record {
  forest = (λ x. x, λ t m p e. ground arith);
  keyed = λ x y mx my e. ground arith;
  rooted = λ t m p e. absurd (ground arith);
}

-- What user 2 asks for: the removal of a task of the other workspace, by way of the own one.
abbrev remove_foreign : Route
remove_foreign = tasks (TasksController.remove 10 20 43)

not_of_user :
    (id : Uuid) (m : WorkspaceMember)
    → find_member id 2 two_tenants ≡ some m
    → ¬ IsTaskOf id two_tenants foreign_task
not_of_user id m found (p, inl e, named, within) = ground arith
not_of_user id m found (p, inr (inl e), named, within) = ground arith
not_of_user id m found (p, inr (inr n), named, within) = n

serve-In_example :
    In foreign_task (serve platform moment (headers 2) (guarded remove_foreign) two_tenants).1.tasks
    ↔ In foreign_task two_tenants.tasks
serve-In_example =
    serve-In platform moment (headers 2) remove_foreign (record { user_id = 2; email = 102 })
      two_tenants foreign_task in_memory-IsCache (λ now w u m h. ground arith) two_tenants-IsWell
      refl not_of_user
