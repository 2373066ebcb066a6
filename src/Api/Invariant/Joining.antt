-- ===== src/Api/Invariant/Joining.antt =====
-- New memberships: WorkspacesService.create and InvitationsService.accept.
use task_scheduling_platform.Base.{
  ℕ, ◌≡◌, ◌≢◌, refl, sym, ap, ◌∙◌, Bool, true, none, some, List, [], ◌∷◌, ◌++◌, arith, ◌==◌, In,
  In-snoc, inl, inr, ◌⊎◌, Option-cases, Bool-cases, find_one, ltb, or_else, find_one-none,
  find_one-append, exists,
}
use task_scheduling_platform.World.{
  Uuid, Stamp, Instant, Email, Workspace, WorkspaceMember, WorkspaceInvitation, World,
}
use task_scheduling_platform.World.Membership.{admin, is_pending}
use task_scheduling_platform.Workspaces.{is_member, find_member, CreateWorkspaceDto}
use task_scheduling_platform.Workspaces
use task_scheduling_platform.Workspaces.Slugs.{slugify}
use task_scheduling_platform.Workspaces.Cache.{CacheManager}
use task_scheduling_platform.Workspaces.Coherence.{HasKeys}
use task_scheduling_platform.Invitations
use task_scheduling_platform.Api.Invariant.{IsSound, frame-IsSound}
use task_scheduling_platform.Api.Frames.{IsFrame}

find_one-snoc :
    {A : Type 0} (p : A → Bool) (xs : List A) (x : A)
    → find_one p xs ≡ none
    → p x ≡ true
    → find_one p (xs ++ x ∷ []) ≡ some x
find_one-snoc p [] x h k = ground arith
find_one-snoc p (y ∷ xs) x h k = ground (arith, find_one-snoc p xs x)

module _ (w : World) (new : WorkspaceMember)
    (fresh : (m : WorkspaceMember) → In m w.members → m.id ≢ new.id)
    (absent : find_member new.workspace_id new.user_id w ≡ none) where
  abbrev pub with_member : World
  with_member = record w { members = w.members ++ new ∷ [] }

  apart :
      (m : WorkspaceMember)
      → In m w.members
      → m.workspace_id ≡ new.workspace_id
      → m.user_id ≢ new.user_id
  apart m k e h =
      let none' = find_one-none (is_member new.workspace_id new.user_id) w.members absent k in
      ground arith

  member-HasKeys : HasKeys w → HasKeys with_member
  member-HasKeys keys = (
    λ x y mx my e. elim (In-snoc x new w.members mx) [
      | inl kx ↦ elim (In-snoc y new w.members my) [
        | inl ky ↦ keys.0 x y kx ky e
        | inr ey ↦ absurd (fresh x kx (e ∙ ap (λ (m : WorkspaceMember). m.id) ey))
      ]
      | inr ex ↦ elim (In-snoc y new w.members my) [
        | inl ky ↦ absurd (fresh y ky (sym e ∙ ap (λ (m : WorkspaceMember). m.id) ex))
        | inr ey ↦ ex ∙ sym ey
      ]
    ],
    λ x y mx my e u. elim (In-snoc x new w.members mx) [
      | inl kx ↦ elim (In-snoc y new w.members my) [
        | inl ky ↦ keys.1 x y kx ky e u
        | inr ey ↦ absurd (
            apart x kx (e ∙ ap (λ (m : WorkspaceMember). m.workspace_id) ey)
              (u ∙ ap (λ (m : WorkspaceMember). m.user_id) ey))
      ]
      | inr ex ↦ elim (In-snoc y new w.members my) [
        | inl ky ↦ absurd (
            apart y ky (sym e ∙ ap (λ (m : WorkspaceMember). m.workspace_id) ex)
              (sym u ∙ ap (λ (m : WorkspaceMember). m.user_id) ex))
        | inr ey ↦ ex ∙ sym ey
      ]
    ],
  )

  pub member-IsSound : (cache : CacheManager) → IsSound cache w → IsSound cache with_member
  member-IsSound cache sound = record {
    keys = member-HasKeys sound.keys;
    unique = sound.unique;
    owned = λ x k.
        let (m, found, is_admin) = sound.owned x k in
        (m, find_one-append (is_member x.id x.owner_id) w.members (new ∷ []) found, is_admin);
    coherent = λ now v u m h.
        find_one-append (is_member v u) w.members (new ∷ []) (sound.coherent now v u m h);
  }

-- A new workspace with its owner as the first member.
module _ (w : World) (new : Workspace) (owner : WorkspaceMember)
    (fresh : (x : Workspace) → In x w.workspaces → x.id ≢ new.id)
    (fresh_member : (m : WorkspaceMember) → In m w.members → m.id ≢ owner.id)
    (unused : (m : WorkspaceMember) → In m w.members → m.workspace_id ≢ new.id)
    (of_workspace : owner.workspace_id ≡ new.id) (of_owner : owner.user_id ≡ new.owner_id)
    (is_admin : owner.role ≡ admin) where
  find_member-unused :
      (xs : List WorkspaceMember) (u : Uuid)
      → ((m : WorkspaceMember) → In m xs → m.workspace_id ≢ new.id)
      → find_one (is_member new.id u) xs ≡ none
  find_member-unused [] u h = refl
  find_member-unused (x ∷ xs) u h =
      ground (arith, h x (inl refl), find_member-unused xs u (λ m k. h m (inr k)))

  pub workspace-IsSound :
      (cache : CacheManager)
      → IsSound cache w
      → IsSound cache
          (record w { workspaces = w.workspaces ++ new ∷ []; members = w.members ++ owner ∷ [] })
  workspace-IsSound cache sound =
      let absent : find_member owner.workspace_id owner.user_id w ≡ none =
        rw of_workspace (find_member-unused w.members owner.user_id unused) in
      let joined = member-IsSound w owner fresh_member absent cache sound in
      record {
        keys = joined.keys;
        unique = λ x y mx my e. elim (In-snoc x new w.workspaces mx) [
          | inl kx ↦ elim (In-snoc y new w.workspaces my) [
            | inl ky ↦ sound.unique x y kx ky e
            | inr ey ↦ absurd (fresh x kx (e ∙ ap (λ (z : Workspace). z.id) ey))
          ]
          | inr ex ↦ elim (In-snoc y new w.workspaces my) [
            | inl ky ↦ absurd (fresh y ky (sym e ∙ ap (λ (z : Workspace). z.id) ex))
            | inr ey ↦ ex ∙ sym ey
          ]
        ];
        owned = λ x m. elim (In-snoc x new w.workspaces m) [
          | inl k ↦ joined.owned x k
          | inr e ↦ rw e (
            owner,
            find_one-snoc (is_member new.id new.owner_id) w.members owner
                (find_member-unused w.members new.owner_id unused) (ground arith),
            is_admin,
          )
        ];
        coherent = joined.coherent;
      }

pub create-IsSound :
    (cache : CacheManager) (lower : List ℕ → List ℕ) (stamp member_stamp : Stamp) (owner_id : Uuid)
    (dto : CreateWorkspaceDto) (w : World)
    → ((x : Workspace) → In x w.workspaces → x.id ≢ stamp.id)
    → ((m : WorkspaceMember) → In m w.members → m.workspace_id ≢ stamp.id)
    → ((m : WorkspaceMember) → In m w.members → m.id ≢ member_stamp.id)
    → IsSound cache w
    → IsSound cache (Workspaces.create lower stamp member_stamp owner_id dto w).1
unfolding Workspaces.create
create-IsSound cache lower stamp member_stamp owner_id dto w fresh unused fresh_member sound =
    let slug = slugify lower (or_else dto.slug dto.name) in
    elim (Bool-cases (exists (λ x. Workspaces.same_text x.slug slug) w.workspaces)) [
      | inl taken ↦ rw taken sound
      | inr untaken ↦ rw untaken (
          workspace-IsSound w
            (record {
              id = stamp.id;
              name = dto.name;
              slug = slug;
              owner_id = owner_id;
              created_at = stamp.at;
              updated_at = stamp.at;
            })
            (record {
              id = member_stamp.id;
              workspace_id = stamp.id;
              user_id = owner_id;
              role = admin;
              joined_at = member_stamp.at;
            })
            fresh fresh_member unused refl refl refl cache sound)
    ]

-- What `accept` does to the members: nothing, or one more by an invitation.
abbrev IsJoin : (Email → Email) → Stamp → Uuid → World → World → WorkspaceInvitation → Type 0
IsJoin fold stamp user_id w w' i =
    (find_member i.workspace_id user_id w ≡ none)
    × IsFrame (record w { members = w.members ++ Invitations.joining fold stamp user_id i ∷ [] }) w'

accept-cases :
    (fold : Email → Email) (stamp : Stamp) (now : Instant) (user_id : Uuid) (email : Email)
    (token : ℕ) (w : World)
    → let w' : World = (Invitations.accept fold stamp now user_id email token w).1 in
      IsFrame w w' ⊎ ((i : WorkspaceInvitation) × IsJoin fold stamp user_id w w' i)
unfolding Invitations.accept
accept-cases fold stamp now user_id email token w =
    elim (Option-cases (find_one (λ i. i.token == token) w.invitations)) [
      | inl unknown ↦ inl (ground arith)
      | inr (i, found) ↦ elim (Option-cases (find_member i.workspace_id user_id w)) [
        | inr (m, there) ↦ inl (ground arith)
        | inl absent ↦ elim (Bool-cases (is_pending i.status)) [
          | inr closed ↦ inl (ground arith)
          | inl waiting ↦ elim (Bool-cases (ltb i.expires_at now)) [
            | inl late ↦ inl (ground arith)
            | inr in_time ↦ elim (Bool-cases (fold i.email == fold email)) [
              | inr other ↦ inl (ground arith)
              | inl same ↦
                  inr (i, (absent, rw (found, waiting, in_time, same, absent) (refl, refl, refl)))
            ]
          ]
        ]
      ]
    ]

pub accept-IsSound :
    (cache : CacheManager) (fold : Email → Email) (stamp : Stamp) (now : Instant) (user_id : Uuid)
    (email : Email) (token : ℕ) (w : World)
    → ((m : WorkspaceMember) → In m w.members → m.id ≢ stamp.id)
    → IsSound cache w
    → IsSound cache (Invitations.accept fold stamp now user_id email token w).1
accept-IsSound cache fold stamp now user_id email token w fresh sound =
    let w' : World = (Invitations.accept fold stamp now user_id email token w).1 in
    elim (accept-cases fold stamp now user_id email token w) [
      | inl same ↦ frame-IsSound cache w w' same sound
      | inr (i, (absent, joined)) ↦
          frame-IsSound cache _ w' joined
            (member-IsSound w (Invitations.joining fold stamp user_id i) fresh absent cache sound)
    ]
