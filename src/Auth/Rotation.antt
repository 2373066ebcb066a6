-- ===== src/Auth/Rotation.antt =====
-- modules/auth/refresh-token.service.ts: a token family over its rotations.
use task_scheduling_platform.Base.{
  ℕ, ◌≡◌, refl, sym, ap, ◌∙◌, subst, true, false, ◌&&◌, some, List, [], ◌∷◌, ◌++◌, arith, In, inl,
  inr, ◌==◌, ltb, save_row, update_where, In-find_one, In-update_where, find_one-save_row,
  find_one-append, Option-cases,
}
use task_scheduling_platform.Http.{Result, ok, err, unauthorized}
use task_scheduling_platform.World.{Uuid, Instant, Stamp, RefreshToken, World}
use task_scheduling_platform.Auth.RefreshTokens.{
  SessionContext, Rotated, live, revoked, new_token, find_token, create_token, revoke_family,
  rotate,
}

-- No token of the family is live.
abbrev pub IsRevoked : Uuid → World → Type 0
IsRevoked family_id w =
    (t : RefreshToken) → In t w.tokens → t.family_id ≡ family_id → live t ≡ false

update_where-revoked :
    (now : Instant) (family_id : Uuid) (ts : List RefreshToken) (t : RefreshToken)
    → In t (update_where (λ t. t.family_id == family_id && live t) (revoked now) ts)
    → t.family_id ≡ family_id
    → live t ≡ false
update_where-revoked now family_id ts t m e =
    let (a, k, h) = In-update_where (λ t. t.family_id == family_id && live t) (revoked now) ts m in
    ground arith

module _ (hash : ℕ → ℕ) (ttl_ms : ℕ) (raw : ℕ) where
  -- What `rotate` does, by the token that it finds.
  pub rotate_reused :
      (stamp : Stamp) (now : Instant) (next_raw : ℕ) (ctx : SessionContext) (w : World)
      (c : RefreshToken)
      → find_token hash ttl_ms raw w ≡ some c
      → live c ≡ false
      → rotate hash ttl_ms stamp now next_raw raw ctx w ≡ (
        err (unauthorized "Refresh token reuse detected"),
        record w {
          tokens = update_where (λ t. t.family_id == c.family_id && live t) (revoked now) w.tokens;
        },
      )
  unfolding rotate revoke_family
  rotate_reused stamp now next_raw ctx w c found dead = rw (found, dead) refl

  pub rotate_fresh :
      (stamp : Stamp) (now : Instant) (next_raw : ℕ) (ctx : SessionContext) (w : World)
      (c : RefreshToken)
      → find_token hash ttl_ms raw w ≡ some c
      → live c ≡ true
      → ltb c.expires_at now ≡ false
      → rotate hash ttl_ms stamp now next_raw raw ctx w ≡ (
        ok (record { user_id = c.user_id; raw_token = next_raw }),
        record w {
          tokens =
              save_row (λ t. t.id) (revoked now c) w.tokens
              ++ new_token hash ttl_ms stamp now next_raw c.user_id c.family_id ctx ∷ [];
        },
      )
  unfolding rotate create_token
  rotate_fresh stamp now next_raw ctx w c found alive valid = rw (found, alive, valid) refl

  rotate-ok :
      (stamp : Stamp) (now : Instant) (next_raw : ℕ) (ctx : SessionContext) (w w' : World)
      (r : Rotated)
      → rotate hash ttl_ms stamp now next_raw raw ctx w ≡ (ok r, w')
      → (c : RefreshToken) × (find_token hash ttl_ms raw w ≡ some c)
        × (live c ≡ true)
        × (ltb c.expires_at now ≡ false)
  unfolding rotate
  rotate-ok stamp now next_raw ctx w w' r h = elim (Option-cases (find_token hash ttl_ms raw w)) [
    | inl none_found ↦ ground arith
    | inr (c, found) ↦ (c, found, ground arith, ground arith)
  ]

  -- The tokens after a rotation of `c`.
  rotated :
      (stamp : Stamp) (now : Instant) (next_raw : ℕ) (ctx : SessionContext) (w w' : World)
      (r : Rotated) (c : RefreshToken)
      → rotate hash ttl_ms stamp now next_raw raw ctx w ≡ (ok r, w')
      → find_token hash ttl_ms raw w ≡ some c
      → w'.tokens
        ≡ save_row (λ t. t.id) (revoked now c) w.tokens
          ++ new_token hash ttl_ms stamp now next_raw c.user_id c.family_id ctx ∷ []
  rotated stamp now next_raw ctx w w' r c h found =
      let (c', f, l, v) = rotate-ok stamp now next_raw ctx w w' r h in
      let same : c ≡ c' = cc in
      ap (λ (x : Result Rotated × World). x.1.tokens)
        (sym h ∙ rotate_fresh stamp now next_raw ctx w c found (rw same l) (rw same v))

  find_token_rotated :
      (stamp : Stamp) (now : Instant) (next_raw : ℕ) (ctx : SessionContext) (w w' : World)
      (r : Rotated) (c : RefreshToken)
      → rotate hash ttl_ms stamp now next_raw raw ctx w ≡ (ok r, w')
      → find_token hash ttl_ms raw w ≡ some c
      → find_token hash ttl_ms raw w' ≡ some (revoked now c)
  find_token_rotated stamp now next_raw ctx w w' r c h found =
      rw (rotated stamp now next_raw ctx w w' r c h found) (
        find_one-append (λ t. t.token_hash == hash raw)
          (save_row (λ t. t.id) (revoked now c) w.tokens)
          (new_token hash ttl_ms stamp now next_raw c.user_id c.family_id ctx ∷ [])
          (find_one-save_row (λ t. t.token_hash == hash raw) (λ t. t.id) (revoked now c) w.tokens
            found refl (In-find_one (λ t. t.token_hash == hash raw) w.tokens found).1))

  -- A raw token works once: after a rotation, whoever presents the old token again, at any later
  -- time, gets the 401, and no token of its family is live any more, the one that the rotation
  -- handed out included.
  pub rotate-rotate :
      (stamp stamp' : Stamp) (now now' : Instant) (next_raw next_raw' : ℕ)
      (ctx ctx' : SessionContext) (w w' : World) (r : Rotated) (c : RefreshToken)
      → rotate hash ttl_ms stamp now next_raw raw ctx w ≡ (ok r, w')
      → find_token hash ttl_ms raw w ≡ some c
      → ((rotate hash ttl_ms stamp' now' next_raw' raw ctx' w').0
          ≡ err (unauthorized "Refresh token reuse detected"))
        × IsRevoked c.family_id (rotate hash ttl_ms stamp' now' next_raw' raw ctx' w').1
  rotate-rotate stamp stamp' now now' next_raw next_raw' ctx ctx' w w' r c h found =
      let again = find_token_rotated stamp now next_raw ctx w w' r c h found in
      let replay = rotate_reused stamp' now' next_raw' ctx' w' (revoked now c) again refl in
      (
        ap (λ (x : Result Rotated × World). x.0) replay,
        subst (λ (x : Result Rotated × World). IsRevoked c.family_id x.1) (sym replay)
            (update_where-revoked now' c.family_id w'.tokens),
      )
