-- ===== src/Invitations/Tests.antt =====
-- Runs of InvitationsService.
use task_scheduling_platform.Base.{ℕ, ◌≡◌, refl, none, [], ◌∷◌}
use task_scheduling_platform.Http.{ok, err, not_found}
use task_scheduling_platform.World.{WorkspaceInvitation, WorkspaceMember, World}
use task_scheduling_platform.World.Membership.{member, admin, accepted}
use task_scheduling_platform.Samples.{membership, world, stamp}
use task_scheduling_platform.Invitations.{CreateInvitationDto, accept, new_invitation}
use task_scheduling_platform.Invitations.Lifecycle.{IsAccepted, accept-IsAccepted, accept-accept}
use task_scheduling_platform.Invitations.Openings.{
  HasOnePending, start, next, execute, invite_one, Reach-HasOnePending,
}

abbrev fold : ℕ → ℕ
fold email = email

abbrev dto : CreateInvitationDto
dto = record { email = 103; role = none }

abbrev invitation : WorkspaceInvitation
invitation = new_invitation fold (stamp 81) 1 601 10 1 dto

abbrev invited : World
invited = record world { invitations = invitation ∷ [] }

abbrev newcomer : WorkspaceMember
newcomer = record { id = 83; workspace_id = 10; user_id = 3; role = member; joined_at = 5000 }

abbrev joined : World
joined = record world {
  invitations = record invitation { status = accepted } ∷ [];
  members = membership 11 1 admin ∷ membership 12 2 member ∷ newcomer ∷ [];
}

acceptance : accept fold (stamp 83) 2 3 103 601 invited ≡ (ok newcomer, joined)
unfolding accept
acceptance = refl

accept-IsAccepted_example :
    (i : WorkspaceInvitation) × IsAccepted fold (stamp 83) 2 3 103 601 invited joined newcomer i
accept-IsAccepted_example =
    accept-IsAccepted fold (stamp 83) 2 3 103 601 invited joined newcomer acceptance

accept-accept_example :
    accept fold (stamp 84) 3 4 103 601 joined
    ≡ (err (not_found "Invitation not found or no longer pending"), joined)
accept-accept_example =
    accept-accept fold (stamp 83) 2 3 103 601 invited joined newcomer acceptance (stamp 84) 3 4 103

nothing-HasOnePending : HasOnePending fold []
nothing-HasOnePending i j m = absurd m

abbrev twice_invited : World
twice_invited =
    execute fold (stamp 82) 2 (invite_one 602 10 1 dto)
      (execute fold (stamp 81) 1 (invite_one 601 10 1 dto) world)

Reach-HasOnePending_example : HasOnePending fold twice_invited.invitations
Reach-HasOnePending_example = Reach-HasOnePending fold world twice_invited nothing-HasOnePending (
    next (stamp 82) 2 (invite_one 602 10 1 dto) (next (stamp 81) 1 (invite_one 601 10 1 dto) start))
