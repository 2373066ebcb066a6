-- ===== src/Http.antt =====
-- The exceptions of @nestjs/common that the services throw, with the message each carries, and the
-- result of a service call. `internal` is an error that is no HttpException, such as a constraint
-- of the database that a write violates.
use task_scheduling_platform.Base.{ℕ, String, ◌≡◌, refl, ◌⊎◌, inl, inr}

pub data HttpException : Type 0 where
  bad_request unauthorized forbidden not_found conflict gone internal : String → HttpException

pub data Result {ℓ} (A : Type ℓ) : Type ℓ where
  ok : A → Result A
  err : HttpException → Result A

-- `exception.getStatus()`
abbrev pub status : HttpException → ℕ
status (bad_request m) = 400
status (unauthorized m) = 401
status (forbidden m) = 403
status (not_found m) = 404
status (conflict m) = 409
status (gone m) = 410
status (internal m) = 500

pub Result-cases {ℓ} :
    {A : Type ℓ} (r : Result A) → ((a : A) × (r ≡ ok a)) ⊎ ((e : HttpException) × (r ≡ err e))
Result-cases (ok a) = inl (a, refl)
Result-cases (err e) = inr (e, refl)
