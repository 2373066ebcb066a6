-- ===== src/Auth/SignIn.antt =====
-- modules/auth/auth.service.ts: who gets tokens.
use task_scheduling_platform.Base.{
  ℕ, ◌≡◌, true, [], ◌∷◌, ◌++◌, arith, In, In-find_one, inl, inr, ◌==◌, Option-cases, find_one,
}
use task_scheduling_platform.Http.{ok}
use task_scheduling_platform.World.{User, World}
use task_scheduling_platform.Exec.{>>=-eq-ok}
use task_scheduling_platform.Users
use task_scheduling_platform.Users.{has_email}
use task_scheduling_platform.Auth.{LoginDto, AuthResponseDto, Crypto, Draw, login, refresh}
use task_scheduling_platform.Auth.RefreshTokens
use task_scheduling_platform.Auth.RefreshTokens.{SessionContext, live, new_token}

module _ (crypto : Crypto) (ttl_ms : ℕ) (draw : Draw) where
  -- A login that succeeds was of an active user with this address, whose stored hash accepts the
  -- password; it opens one new session, whose live token is the one of the response, and changes
  -- nothing else.
  pub login-ok :
      (dto : LoginDto) (ctx : SessionContext) (w w' : World) (response : AuthResponseDto)
      → login crypto ttl_ms draw dto ctx w ≡ (ok response, w')
      → (user : User) × In user w.users
        × (crypto.fold user.email ≡ crypto.fold dto.email)
        × (user.is_active ≡ true)
        × (crypto.argon_verify user.password_hash dto.password ≡ true)
        × (response.user.id ≡ user.id)
        × (response.refresh_token ≡ draw.raw)
        × (w' ≡ record w {
          tokens =
              w.tokens
              ++ new_token crypto.sha256 ttl_ms draw.token_stamp draw.now draw.raw user.id
                  draw.family_id ctx
                ∷ [];
        })
  unfolding login Users.find_by_email RefreshTokens.issue_for_new_session RefreshTokens.create_token
  login-ok dto ctx w w' response h =
      elim (Option-cases (Users.find_by_email crypto.fold dto.email w)) [
        | inl missing ↦ absurd (ground arith)
        | inr (user, found) ↦
            let (m, e) = In-find_one (has_email crypto.fold dto.email) w.users found in
            (
              user,
              m,
              ground arith,
              ground arith,
              ground arith,
              ground arith,
              ground arith,
              ground arith,
            )
      ]

  -- A refresh that succeeds hands out tokens for an active user only.
  pub refresh-is_active :
      (raw : ℕ) (ctx : SessionContext) (w w' : World) (response : AuthResponseDto)
      → refresh crypto ttl_ms draw raw ctx w ≡ (ok response, w')
      → (user : User) × In user w'.users × (user.id ≡ response.user.id) × (user.is_active ≡ true)
  unfolding refresh Users.find_by_id
  refresh-is_active raw ctx w w' response h =
      let (rotated, v, read, h') =
        >>=-eq-ok
          (RefreshTokens.rotate crypto.sha256 ttl_ms draw.token_stamp draw.now draw.raw raw ctx) _ w
          w' h in
      elim (Option-cases (find_one (λ (u : User). u.id == rotated.user_id) v.users)) [
        | inl missing ↦ absurd (ground arith)
        | inr (user, found) ↦
            let (m, e) = In-find_one (λ (u : User). u.id == rotated.user_id) v.users found in
            let same : w' ≡ v = ground arith in (user, rw same m, ground arith, ground arith)
      ]
