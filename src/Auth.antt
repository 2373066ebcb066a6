-- ===== src/Auth.antt =====
-- modules/auth/auth.service.ts, password.service.ts and strategies/jwt.strategy.ts. Argon2 and the
-- signing of access tokens are parameters; `verify` covers PasswordService, which turns an
-- exception of Argon2 into false.
pub mod RefreshTokens
pub mod Rotation
pub mod Families
pub mod SignIn
pub mod Accounts
mod Tests
use task_scheduling_platform.Base.{ℕ, String, Bool, not, ◌||◌, Option, none, some}
use task_scheduling_platform.Http.{conflict, unauthorized}
use task_scheduling_platform.World.{Uuid, Instant, Stamp, Email, User, World}
use task_scheduling_platform.Exec.{Exec, ◌>>=◌, ◌>>◌, pure, gets, or_throw, throw_if}
use task_scheduling_platform.Users
use RefreshTokens.{SessionContext}

pub record SignupDto : Type 0 where
  pub email : Email
  pub name : String
  pub password : String

pub record LoginDto : Type 0 where
  pub email : Email
  pub password : String

pub record JwtPayload : Type 0 where
  pub sub : Uuid
  pub email : Email

pub record AuthUserDto : Type 0 where
  pub id : Uuid
  pub email : Email
  pub name : String

pub record AuthResponseDto : Type 0 where
  pub token_type : String
  pub access_token : String
  pub refresh_token : ℕ
  pub user : AuthUserDto

-- What the service calls and does not implement.
pub record Crypto : Type 0 where
  pub sha256 : ℕ → ℕ
  pub argon_hash : String → String
  pub argon_verify : String → String → Bool
  pub sign : JwtPayload → String
  -- how `citext` folds the case of an address
  pub fold : Email → Email

-- What the random sources and the clock return in one call.
pub record Draw : Type 0 where
  pub user_stamp : Stamp
  pub token_stamp : Stamp
  pub family_id : Uuid
  pub raw : ℕ
  pub now : Instant

module _ (crypto : Crypto) (refresh_ttl_ms : ℕ) where
  abbrev sign_access_token : User → String
  sign_access_token user = crypto.sign (record { sub = user.id; email = user.email })

  abbrev to_response : User → String → ℕ → AuthResponseDto
  to_response user access_token refresh_token = record {
    token_type = "Bearer";
    access_token = access_token;
    refresh_token = refresh_token;
    user = record { id = user.id; email = user.email; name = user.name };
  }

  abbrev issue_tokens : Draw → User → SessionContext → Exec AuthResponseDto
  issue_tokens draw user ctx = do
    refresh_token ←
        RefreshTokens.issue_for_new_session crypto.sha256 refresh_ttl_ms draw.token_stamp draw.now
          draw.raw draw.family_id user.id ctx
    pure (to_response user (sign_access_token user) refresh_token)

  unfoldable pub signup : Draw → SignupDto → SessionContext → Exec AuthResponseDto
  unfolding Users.exists_by_email Users.create RefreshTokens.issue_for_new_session
  signup draw dto ctx = do
    taken ← gets (Users.exists_by_email crypto.fold dto.email)
    throw_if taken (conflict "Email already registered")
    user ← Users.create draw.user_stamp (record {
      email = dto.email;
      name = dto.name;
      password_hash = crypto.argon_hash dto.password;
    })
    issue_tokens draw user ctx

  unfoldable pub login : Draw → LoginDto → SessionContext → Exec AuthResponseDto
  unfolding Users.find_by_email RefreshTokens.issue_for_new_session
  login draw dto ctx = do
    found ← gets (Users.find_by_email crypto.fold dto.email)
    user ← or_throw (unauthorized "Invalid credentials") found
    throw_if (not user.is_active) (unauthorized "Invalid credentials")
    throw_if (not (crypto.argon_verify user.password_hash dto.password))
        (unauthorized "Invalid credentials")
    issue_tokens draw user ctx

  unfoldable pub refresh : Draw → ℕ → SessionContext → Exec AuthResponseDto
  unfolding Users.find_by_id RefreshTokens.rotate
  refresh draw raw_refresh_token ctx = do
    rotated ←
        RefreshTokens.rotate crypto.sha256 refresh_ttl_ms draw.token_stamp draw.now draw.raw
          raw_refresh_token ctx
    found ← gets (Users.find_by_id rotated.user_id)
    user ← or_throw (unauthorized "Invalid session") found
    throw_if (not user.is_active) (unauthorized "Invalid session")
    pure (to_response user (sign_access_token user) rotated.raw_token)

  unfoldable pub logout : Instant → ℕ → Exec (Unit {0})
  unfolding RefreshTokens.revoke
  logout now raw_refresh_token =
      RefreshTokens.revoke crypto.sha256 refresh_ttl_ms now raw_refresh_token
