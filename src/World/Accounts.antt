-- ===== src/World/Accounts.antt =====
-- Rows of `users` and `refresh_tokens` (modules/users/entities, modules/auth/entities).
-- Identifiers, hashes, tokens and email addresses are only compared, so numbers stand for them;
-- an instant is its number of milliseconds.
use task_scheduling_platform.Base.{ℕ, String, Bool, Option}

abbrev pub Uuid : Type 0
Uuid = ℕ

abbrev pub Instant : Type 0
Instant = ℕ

-- A `created_at` or `updated_at` that the database fills in, in microseconds.
abbrev pub Micros : Type 0
Micros = ℕ

abbrev pub Email : Type 0
Email = ℕ

pub record User : Type 0 where
  pub id : Uuid
  pub email : Email
  pub password_hash : String
  pub name : String
  pub is_active : Bool
  pub created_at : Micros
  pub updated_at : Micros

pub record RefreshToken : Type 0 where
  pub id : Uuid
  pub user_id : Uuid
  pub token_hash : ℕ
  pub family_id : Uuid
  pub expires_at : Instant
  pub revoked_at : Option Instant
  pub user_agent : Option String
  pub ip : Option String
  pub created_at : Micros

-- What the database fills in for a new row: `gen_random_uuid()` and `now()`.
pub record Stamp : Type 0 where
  pub id : Uuid
  pub at : Micros
