-- ===== src/Api/AuthController.antt =====
-- modules/auth/auth.controller.ts
use task_scheduling_platform.Base.{ℕ}
use task_scheduling_platform.Exec.{Exec}
use task_scheduling_platform.Auth.{SignupDto, LoginDto}
use task_scheduling_platform.Auth.RefreshTokens.{SessionContext}
use task_scheduling_platform.Auth
use task_scheduling_platform.Api.Context.{Platform, Moment, Reply, nothing, session, replies}

-- Every route is public.
pub data Call : Type 0 where
  signup : SignupDto → Call
  login : LoginDto → Call
  refresh : (refresh_token : ℕ) → Call
  logout : (refresh_token : ℕ) → Call

-- `ctx` is what `context` takes from the request.
unfoldable pub handle : Platform → Moment → SessionContext → Call → Exec Reply
handle platform moment ctx (signup dto) =
    replies session (Auth.signup platform.crypto platform.refresh_ttl_ms moment.draw dto ctx)
handle platform moment ctx (login dto) =
    replies session (Auth.login platform.crypto platform.refresh_ttl_ms moment.draw dto ctx)
handle platform moment ctx (refresh refresh_token) =
    replies session
      (Auth.refresh platform.crypto platform.refresh_ttl_ms moment.draw refresh_token ctx)
handle platform moment ctx (logout refresh_token) =
    replies (λ _. nothing)
      (Auth.logout platform.crypto platform.refresh_ttl_ms moment.now refresh_token)
