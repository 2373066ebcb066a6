-- ===== src/Auth/RefreshTokens.antt =====
-- modules/auth/refresh-token.service.ts. `hash` is SHA-256; the raw tokens and the family ids are
-- what `randomBytes` and `randomUUID` return.
use task_scheduling_platform.Base.{
  ℕ, ◌+◌, String, Bool, not, ◌&&◌, Option, none, some, [], ◌∷◌, ◌++◌, ◌==◌, ltb, is_some,
  if◌then◌else◌, find_one, save_row, update_where,
}
use task_scheduling_platform.Http.{unauthorized}
use task_scheduling_platform.World.{Uuid, Instant, Stamp, RefreshToken, World}
use task_scheduling_platform.Exec.{Exec, ◌>>=◌, ◌>>◌, pure, throw, gets, modify, or_throw, throw_if}

pub record SessionContext : Type 0 where
  pub user_agent : Option String
  pub ip : Option String

-- The user of a rotated token, and the next raw token.
pub record Rotated : Type 0 where
  pub user_id : Uuid
  pub raw_token : ℕ

abbrev pub live : RefreshToken → Bool
live t = not (is_some t.revoked_at)

abbrev pub revoked : Instant → RefreshToken → RefreshToken
revoked now t = record t { revoked_at = some now }

module _ (hash : ℕ → ℕ) (ttl_ms : ℕ) where
  abbrev pub new_token : Stamp → Instant → ℕ → Uuid → Uuid → SessionContext → RefreshToken
  new_token stamp now raw user_id family_id ctx = record {
    id = stamp.id;
    user_id = user_id;
    token_hash = hash raw;
    family_id = family_id;
    expires_at = now + ttl_ms;
    revoked_at = none;
    user_agent = ctx.user_agent;
    ip = ctx.ip;
    created_at = stamp.at;
  }

  unfoldable pub create_token : Stamp → Instant → ℕ → Uuid → Uuid → SessionContext → Exec ℕ
  create_token stamp now raw user_id family_id ctx = do
    modify
        (λ w. record w { tokens = w.tokens ++ new_token stamp now raw user_id family_id ctx ∷ [] })
    pure raw

  unfoldable pub issue_for_new_session : Stamp → Instant → ℕ → Uuid → Uuid → SessionContext → Exec ℕ
  unfolding create_token
  issue_for_new_session stamp now raw family_id user_id ctx =
      create_token stamp now raw user_id family_id ctx

  abbrev pub find_token : ℕ → World → Option RefreshToken
  find_token raw w = find_one (λ t. t.token_hash == hash raw) w.tokens

  unfoldable pub revoke_family : Instant → Uuid → Exec (Unit {0})
  revoke_family now family_id = modify (λ w. record w {
    tokens = update_where (λ t. t.family_id == family_id && live t) (revoked now) w.tokens;
  })

  -- An already-revoked token: the whole family is revoked before the 401.
  abbrev detect_reuse : Instant → RefreshToken → Exec Rotated
  detect_reuse now current = do
    revoke_family now current.family_id
    throw (unauthorized "Refresh token reuse detected")

  abbrev rotate_live : Stamp → Instant → ℕ → SessionContext → RefreshToken → Exec Rotated
  rotate_live stamp now next_raw ctx current = do
    throw_if (ltb current.expires_at now) (unauthorized "Refresh token expired")
    modify (λ w. record w { tokens = save_row (λ t. t.id) (revoked now current) w.tokens })
    next ← create_token stamp now next_raw current.user_id current.family_id ctx
    pure (record { user_id = current.user_id; raw_token = next })

  unfoldable pub rotate : Stamp → Instant → ℕ → ℕ → SessionContext → Exec Rotated
  unfolding create_token revoke_family
  rotate stamp now next_raw raw ctx = do
    found ← gets (find_token raw)
    current ← or_throw (unauthorized "Invalid refresh token") found
    if live current then rotate_live stamp now next_raw ctx current else detect_reuse now current

  unfoldable pub revoke : Instant → ℕ → Exec (Unit {0})
  revoke now raw = modify (λ w. record w {
    tokens = update_where (λ t. t.token_hash == hash raw && live t) (revoked now) w.tokens;
  })
