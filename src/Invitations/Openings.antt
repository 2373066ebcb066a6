-- ===== src/Invitations/Openings.antt =====
-- modules/workspaces/invitations.service.ts: how many invitations are open.
use task_scheduling_platform.Base.{
  ℕ, ◌≡◌, ◌⊎◌, refl, sym, subst, true, false, ◌&&◌, none, some, List, [], ◌∷◌, ◌++◌, arith, In,
  In-snoc, inl, inr, ◌==◌, Option-cases, find_one, save_row, In-save_row, find_one-none,
}
use task_scheduling_platform.World.{Uuid, Instant, Stamp, Email, WorkspaceInvitation, World}
use task_scheduling_platform.World.Membership.{accepted, expired, revoked, is_pending}
use task_scheduling_platform.Users
use task_scheduling_platform.Invitations.{
  CreateInvitationDto, with_status, is_pending_for, new_invitation, invite, accept, revoke,
}
use task_scheduling_platform.Invitations.Lifecycle.{find_invitation}

-- At most one invitation of a workspace is pending for an address.
abbrev pub HasOnePending : (Email → Email) → List WorkspaceInvitation → Type 0
HasOnePending fold rows =
    (i j : WorkspaceInvitation)
    → In i rows
    → In j rows
    → i.workspace_id ≡ j.workspace_id
    → fold i.email ≡ fold j.email
    → is_pending i.status ≡ true
    → is_pending j.status ≡ true
    → i ≡ j

close-HasOnePending :
    (fold : Email → Email) (row : WorkspaceInvitation) (rows : List WorkspaceInvitation)
    → is_pending row.status ≡ false
    → HasOnePending fold rows
    → HasOnePending fold (save_row (λ x. x.id) row rows)
close-HasOnePending fold row rows closed one i j m k e f p q =
    let m' = In-save_row (λ x. x.id) row rows i m in
    let k' = In-save_row (λ x. x.id) row rows j k in ground (arith, one i j)

add-HasOnePending :
    (fold : Email → Email) (row : WorkspaceInvitation) (rows : List WorkspaceInvitation)
    → ((i : WorkspaceInvitation)
        → In i rows
        → is_pending_for fold row.workspace_id row.email i ≡ false)
    → HasOnePending fold rows
    → HasOnePending fold (rows ++ row ∷ [])
add-HasOnePending fold row rows free one i j m k e f p q =
    let m' = In-snoc i row rows m in
    let k' = In-snoc j row rows k in ground (arith, one i j, free i, free j)

-- The requests on invitations.
pub data Command : Type 0 where
  invite_one : (token : ℕ) → (workspace_id inviter_id : Uuid) → CreateInvitationDto → Command
  accept_one : (user_id : Uuid) → (email : Email) → (token : ℕ) → Command
  revoke_one : (workspace_id invitation_id : Uuid) → Command

module _ (fold : Email → Email) where
  unfoldable pub execute : Stamp → Instant → Command → World → World
  execute stamp now (invite_one token workspace_id inviter_id dto) w =
      (invite fold stamp now token workspace_id inviter_id dto w).1
  execute stamp now (accept_one user_id email token) w =
      (accept fold stamp now user_id email token w).1
  execute stamp now (revoke_one workspace_id invitation_id) w =
      (revoke workspace_id invitation_id w).1

  pub data Reach (w : World) : World → Type 0 where
    start : Reach w w
    next :
        {v : World} (stamp : Stamp) (now : Instant) (command : Command)
        → Reach w v
        → Reach w (execute stamp now command v)

  invite_rows :
      (stamp : Stamp) (now : Instant) (token : ℕ) (workspace_id inviter_id : Uuid)
      (dto : CreateInvitationDto) (w : World)
      → ((invite fold stamp now token workspace_id inviter_id dto w).1.invitations ≡ w.invitations)
        ⊎ ((invite fold stamp now token workspace_id inviter_id dto w).1.invitations
            ≡ w.invitations ++ new_invitation fold stamp now token workspace_id inviter_id dto ∷ [])
          × (find_one (is_pending_for fold workspace_id dto.email) w.invitations ≡ none)
  unfolding invite Users.find_by_email
  invite_rows stamp now token workspace_id inviter_id dto w = ground arith

  accept_rows :
      (stamp : Stamp) (now : Instant) (user_id : Uuid) (email : Email) (token : ℕ) (w : World)
      (i : WorkspaceInvitation)
      → find_invitation token w ≡ some i
      → ((accept fold stamp now user_id email token w).1.invitations ≡ w.invitations)
        ⊎ ((accept fold stamp now user_id email token w).1.invitations
            ≡ save_row (λ x. x.id) (with_status expired i) w.invitations)
        ⊎ ((accept fold stamp now user_id email token w).1.invitations
            ≡ save_row (λ x. x.id) (with_status accepted i) w.invitations)
  unfolding accept
  accept_rows stamp now user_id email token w i named = ground arith

  revoke_rows :
      (workspace_id invitation_id : Uuid) (w : World) (i : WorkspaceInvitation)
      → find_one (λ x. x.id == invitation_id && x.workspace_id == workspace_id) w.invitations
        ≡ some i
      → ((revoke workspace_id invitation_id w).1.invitations ≡ w.invitations)
        ⊎ ((revoke workspace_id invitation_id w).1.invitations
            ≡ save_row (λ x. x.id) (with_status revoked i) w.invitations)
  unfolding revoke
  revoke_rows workspace_id invitation_id w i named = ground arith

  invite-HasOnePending :
      (stamp : Stamp) (now : Instant) (token : ℕ) (workspace_id inviter_id : Uuid)
      (dto : CreateInvitationDto) (w : World)
      → HasOnePending fold w.invitations
      → HasOnePending fold (invite fold stamp now token workspace_id inviter_id dto w).1.invitations
  invite-HasOnePending stamp now token workspace_id inviter_id dto w one =
      elim (invite_rows stamp now token workspace_id inviter_id dto w) [
        | inl same ↦ subst (HasOnePending fold) (sym same) one
        | inr (written, free) ↦ subst (HasOnePending fold) (sym written) (
            add-HasOnePending fold (new_invitation fold stamp now token workspace_id inviter_id dto)
              w.invitations
              (λ i. find_one-none (is_pending_for fold workspace_id dto.email) w.invitations free)
              one)
      ]

  accept-HasOnePending :
      (stamp : Stamp) (now : Instant) (user_id : Uuid) (email : Email) (token : ℕ) (w : World)
      → HasOnePending fold w.invitations
      → HasOnePending fold (accept fold stamp now user_id email token w).1.invitations
  unfolding accept
  accept-HasOnePending stamp now user_id email token w one =
      elim (Option-cases (find_invitation token w)) [
        | inl missing ↦ rw missing one
        | inr (i, named) ↦ elim (accept_rows stamp now user_id email token w i named) [
          | inl same ↦ subst (HasOnePending fold) (sym same) one
          | inr (inl written) ↦
              subst (HasOnePending fold) (sym written)
                (close-HasOnePending fold (with_status expired i) w.invitations refl one)
          | inr (inr written) ↦
              subst (HasOnePending fold) (sym written)
                (close-HasOnePending fold (with_status accepted i) w.invitations refl one)
        ]
      ]

  revoke-HasOnePending :
      (workspace_id invitation_id : Uuid) (w : World)
      → HasOnePending fold w.invitations
      → HasOnePending fold (revoke workspace_id invitation_id w).1.invitations
  unfolding revoke
  revoke-HasOnePending workspace_id invitation_id w one =
      elim (Option-cases
        (find_one (λ x. x.id == invitation_id && x.workspace_id == workspace_id) w.invitations)) [
          | inl missing ↦ rw missing one
          | inr (i, named) ↦ elim (revoke_rows workspace_id invitation_id w i named) [
            | inl same ↦ subst (HasOnePending fold) (sym same) one
            | inr written ↦
                subst (HasOnePending fold) (sym written)
                  (close-HasOnePending fold (with_status revoked i) w.invitations refl one)
          ]
        ]

  -- However addresses are invited and invitations accepted and revoked, in any order, a workspace
  -- has at most one pending invitation for an address, letter case aside, if it was so at the start.
  pub Reach-HasOnePending :
      (w v : World)
      → HasOnePending fold w.invitations
      → Reach w v
      → HasOnePending fold v.invitations
  unfolding execute
  Reach-HasOnePending w v one start = one
  Reach-HasOnePending w v one
        (next {v = u} stamp now (invite_one token workspace_id inviter_id dto) reached) =
      invite-HasOnePending stamp now token workspace_id inviter_id dto u
        (Reach-HasOnePending w u one reached)
  Reach-HasOnePending w v one (next {v = u} stamp now (accept_one user_id email token) reached) =
      accept-HasOnePending stamp now user_id email token u (Reach-HasOnePending w u one reached)
  Reach-HasOnePending w v one
        (next {v = u} stamp now (revoke_one workspace_id invitation_id) reached) =
      revoke-HasOnePending workspace_id invitation_id u (Reach-HasOnePending w u one reached)
