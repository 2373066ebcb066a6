-- ===== src/Invitations/Lifecycle.antt =====
-- modules/workspaces/invitations.service.ts: who joins by an invitation, and how often.
use task_scheduling_platform.Base.{
  ℕ, ◌≡◌, ◌⊎◌, refl, ap, ◌∙◌, Bool, true, false, Option, none, some, List, [], ◌∷◌, ◌++◌, arith,
  inl, inr, ◌==◌, ltb, Option-cases, find_one, save_row, In-find_one, find_one-save_row,
}
use task_scheduling_platform.Http.{ok, err, not_found}
use task_scheduling_platform.World.{
  Uuid, Instant, Stamp, Email, WorkspaceMember, WorkspaceInvitation, World,
}
use task_scheduling_platform.World.Membership.{accepted, is_pending}
use task_scheduling_platform.Workspaces.{is_member, find_member}
use task_scheduling_platform.Invitations.{with_status, joining, accept}

-- The invitation that a token names.
abbrev pub find_invitation : ℕ → World → Option WorkspaceInvitation
find_invitation token w = find_one (λ i. i.token == token) w.invitations

find_one-snoc :
    {A : Type 0} (p : A → Bool) (xs : List A) (x : A)
    → find_one p xs ≡ none
    → p x ≡ true
    → find_one p (xs ++ x ∷ []) ≡ some x
find_one-snoc p [] x h k = rw k refl
find_one-snoc p (y ∷ xs) x h k = ground (arith, find_one-snoc p xs x)

module _ (fold : Email → Email) (stamp : Stamp) (now : Instant) (user_id : Uuid) (email : Email)
    (token : ℕ) where
  -- The rows that an acceptance of `i` leaves.
  pub record IsAccepted (w w' : World) (m : WorkspaceMember) (i : WorkspaceInvitation)
      : Type 0 where
    pub named : find_invitation token w ≡ some i
    pub was_pending : is_pending i.status ≡ true
    pub in_time : ltb i.expires_at now ≡ false
    pub addressed : (fold i.email == fold email) ≡ true
    pub closed : w'.invitations ≡ save_row (λ x. x.id) (with_status accepted i) w.invitations
    pub joined : find_member i.workspace_id user_id w' ≡ some m
    pub role :
        (find_member i.workspace_id user_id w ≡ some m)
        ⊎ ((find_member i.workspace_id user_id w ≡ none) × (m.role ≡ i.role))

  -- An acceptance that succeeds was of a pending invitation, in time, by the address it was issued
  -- to; it closes the invitation, and the user is then a member, with the role that the user had
  -- before or else with the invitation's.
  pub accept-IsAccepted :
      (w w' : World) (m : WorkspaceMember)
      → accept fold stamp now user_id email token w ≡ (ok m, w')
      → (i : WorkspaceInvitation) × IsAccepted w w' m i
  unfolding accept
  accept-IsAccepted w w' m h = elim (Option-cases (find_invitation token w)) [
    | inl missing ↦ absurd (ground arith)
    | inr (i, named) ↦ elim (Option-cases (find_member i.workspace_id user_id w)) [
      | inr (n, there) ↦ (
        i,
        record {
          named = named;
          was_pending = ground arith;
          in_time = ground arith;
          addressed = ground arith;
          closed = ground arith;
          joined =
              let rows : w'.members ≡ w.members = ground arith in
              let same : m ≡ n = ground arith in rw (rows, there, same) refl;
          role = inl (ground arith);
        },
      )
      | inl new ↦ (
        i,
        record {
          named = named;
          was_pending = ground arith;
          in_time = ground arith;
          addressed = ground arith;
          closed = ground arith;
          joined =
              let rows : w'.members ≡ w.members ++ joining fold stamp user_id i ∷ [] =
                ground arith in
              let same : m ≡ joining fold stamp user_id i = ground arith in
              rw (rows, same)
                (find_one-snoc (is_member i.workspace_id user_id) w.members
                  (joining fold stamp user_id i) new (ground arith));
          role = inr (new, ground arith);
        },
      )
    ]
  ]

  -- An accepted invitation is spent: whoever presents its token again gets the 404, and nothing
  -- changes.
  pub accept-accept :
      (w w' : World) (m : WorkspaceMember)
      → accept fold stamp now user_id email token w ≡ (ok m, w')
      → (stamp' : Stamp) (now' : Instant) (user_id' : Uuid) (email' : Email)
      → accept fold stamp' now' user_id' email' token w'
        ≡ (err (not_found "Invitation not found or no longer pending"), w')
  unfolding accept
  accept-accept w w' m h stamp' now' user_id' email' =
      let (i, done) = accept-IsAccepted w w' m h in
      let again : find_invitation token w' ≡ some (with_status accepted i) =
        ap (λ rows. find_one (λ (x : WorkspaceInvitation). x.token == token) rows) done.closed
        ∙ find_one-save_row (λ x. x.token == token) (λ x. x.id) (with_status accepted i)
            w.invitations done.named refl
            (In-find_one (λ x. x.token == token) w.invitations done.named).1 in
      rw again refl
