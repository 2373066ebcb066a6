-- ===== src/Auth/Families.antt =====
-- modules/auth/refresh-token.service.ts: the live tokens of a family, over requests.
use task_scheduling_platform.Base.{
  ℕ, ◌≡◌, ◌≢◌, Bool, true, false, ◌&&◌, List, [], ◌∷◌, ◌++◌, arith, In, inl, inr, ◌==◌, ltb,
  Bool-cases, Option-cases, save_row, update_where, In-find_one, In-update_where, In-save_row,
  In-snoc,
}
use task_scheduling_platform.World.{Uuid, Instant, Stamp, RefreshToken, World}
use task_scheduling_platform.Auth.RefreshTokens.{
  SessionContext, live, revoked, new_token, find_token, create_token, issue_for_new_session,
  revoke_family, rotate, revoke,
}

-- Two live tokens of one family are one row.
abbrev pub HasOneLive : List RefreshToken → Type 0
HasOneLive ts =
    (t u : RefreshToken)
    → In t ts
    → In u ts
    → t.family_id ≡ u.family_id
    → live t ≡ true
    → live u ≡ true
    → t ≡ u

-- `revoked_at` is only ever set.
revoke_where-HasOneLive :
    (p : RefreshToken → Bool) (now : Instant) (ts : List RefreshToken)
    → HasOneLive ts
    → HasOneLive (update_where p (revoked now) ts)
revoke_where-HasOneLive p now ts one t u m k e l l' =
    let (a, m', h) = In-update_where p (revoked now) ts m in
    let (b, k', h') = In-update_where p (revoked now) ts k in ground (arith, one a b m' k')

-- The requests on sessions: sign in, refresh, log out.
pub data Command : Type 0 where
  open_session : (raw : ℕ) → (family_id user_id : Uuid) → SessionContext → Command
  refresh : (next_raw raw : ℕ) → SessionContext → Command
  log_out : (raw : ℕ) → Command

module _ (hash : ℕ → ℕ) (ttl_ms : ℕ) where
  unfoldable pub execute : Stamp → Instant → Command → World → World
  execute stamp now (open_session raw family_id user_id ctx) w =
      (issue_for_new_session hash ttl_ms stamp now raw family_id user_id ctx w).1
  execute stamp now (refresh next_raw raw ctx) w =
      (rotate hash ttl_ms stamp now next_raw raw ctx w).1
  execute stamp now (log_out raw) w = (revoke hash ttl_ms now raw w).1

  -- `randomUUID` gives a family that no token has.
  abbrev pub IsFresh : Command → World → Type 0
  IsFresh (open_session raw family_id user_id ctx) w =
      (t : RefreshToken) → In t w.tokens → t.family_id ≢ family_id
  IsFresh (refresh next_raw raw ctx) w = Unit {0}
  IsFresh (log_out raw) w = Unit {0}

  pub data Reach (w : World) : World → Type 0 where
    start : Reach w w
    next :
        {v : World} (stamp : Stamp) (now : Instant) (command : Command)
        → Reach w v
        → IsFresh command v
        → Reach w (execute stamp now command v)

  add-HasOneLive :
      (ts : List RefreshToken) (x : RefreshToken)
      → ((t : RefreshToken) → In t ts → t.family_id ≡ x.family_id → live t ≡ false)
      → HasOneLive ts
      → HasOneLive (ts ++ x ∷ [])
  add-HasOneLive ts x dead one t u m k e l l' =
      let m' = In-snoc t x ts m in
      let k' = In-snoc u x ts k in ground (arith, one t u, dead t, dead u)

  save_revoked :
      (now : Instant) (ts : List RefreshToken) (c : RefreshToken)
      → HasOneLive ts
      → In c ts
      → live c ≡ true
      → (HasOneLive (save_row (λ t. t.id) (revoked now c) ts))
        × ((t : RefreshToken)
            → In t (save_row (λ t. t.id) (revoked now c) ts)
            → t.family_id ≡ c.family_id
            → live t ≡ false)
  save_revoked now ts c one m l = (
    (λ t u k k' e h h'.
        let q = In-save_row (λ t. t.id) (revoked now c) ts t k in
        let q' = In-save_row (λ t. t.id) (revoked now c) ts u k' in ground (arith, one t u)),
    (λ t k e.
        let q = In-save_row (λ t. t.id) (revoked now c) ts t k in
        elim (Bool-cases (live t)) [ inl h ↦ ground (arith, one t c) | inr h ↦ h ]),
  )

  rotate-HasOneLive :
      (stamp : Stamp) (now : Instant) (next_raw raw : ℕ) (ctx : SessionContext) (w : World)
      → HasOneLive w.tokens
      → HasOneLive (rotate hash ttl_ms stamp now next_raw raw ctx w).1.tokens
  unfolding rotate revoke_family create_token
  rotate-HasOneLive stamp now next_raw raw ctx w one =
      elim (Option-cases (find_token hash ttl_ms raw w)) [
        | inl missing ↦ rw missing one
        | inr (c, found) ↦ elim (Bool-cases (live c)) [
          | inr dead ↦
              rw (found, dead)
                (revoke_where-HasOneLive (λ t. t.family_id == c.family_id && live t) now w.tokens
                  one)
          | inl alive ↦ elim (Bool-cases (ltb c.expires_at now)) [
            | inl late ↦ rw (found, alive, late) one
            | inr valid ↦
                let m = (In-find_one (λ t. t.token_hash == hash raw) w.tokens found).0 in
                let (kept, dead) = save_revoked now w.tokens c one m alive in
                rw (found, alive, valid)
                  (add-HasOneLive (save_row (λ t. t.id) (revoked now c) w.tokens)
                    (new_token hash ttl_ms stamp now next_raw c.user_id c.family_id ctx) dead kept)
          ]
        ]
      ]

  execute-HasOneLive :
      (stamp : Stamp) (now : Instant) (command : Command) (w : World)
      → IsFresh command w
      → HasOneLive w.tokens
      → HasOneLive (execute stamp now command w).tokens
  unfolding execute issue_for_new_session create_token revoke
  execute-HasOneLive stamp now (open_session raw family_id user_id ctx) w fresh one =
      add-HasOneLive w.tokens (new_token hash ttl_ms stamp now raw user_id family_id ctx)
        (λ t m e. absurd (fresh t m e)) one
  execute-HasOneLive stamp now (refresh next_raw raw ctx) w fresh one =
      rotate-HasOneLive stamp now next_raw raw ctx w one
  execute-HasOneLive stamp now (log_out raw) w fresh one =
      revoke_where-HasOneLive (λ t. t.token_hash == hash raw && live t) now w.tokens one

  -- However sessions are opened, refreshed and closed, in any order and with any raw tokens, a
  -- token family has at most one live token, provided that it was so at the start and that a new
  -- session gets a family of its own.
  pub Reach-HasOneLive : (w v : World) → HasOneLive w.tokens → Reach w v → HasOneLive v.tokens
  Reach-HasOneLive w v one start = one
  Reach-HasOneLive w v one (next {v = u} stamp now command reached fresh) =
      execute-HasOneLive stamp now command u fresh (Reach-HasOneLive w u one reached)
