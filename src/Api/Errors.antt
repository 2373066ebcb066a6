-- ===== src/Api/Errors.antt =====
-- common/filters/all-exceptions.filter.ts: what a client is told of an exception.
use task_scheduling_platform.Base.{ℕ, String, Bool, Option, none, some, leb, or_else}
use task_scheduling_platform.World.{Instant}

-- What `exception.getResponse()` returns: a text, or an object, of which the fields that are read
-- hold any JSON value, such as the list of the messages of a failed validation.
pub data Response (Value : Type 0) : Type 0 where
  text : String → Response Value
  object : (message error : Option Value) → Response Value

-- What a handler, a guard or a pipe may throw.
pub data Exception (Value : Type 0) : Type 0 where
  http_exception : (status : ℕ) → Response Value → Exception Value
  other_exception : Exception Value

-- Correlation ids are only passed on.
pub record Request : Type 0 where
  pub correlation_id : Option ℕ
  pub url : String

pub record Envelope (Value : Type 0) : Type 0 where
  pub status_code : ℕ
  pub error : Option Value
  pub message : Value
  pub correlation_id : ℕ
  pub path : String
  pub timestamp : Instant

-- JSON values, of which only the texts are named, and `HttpStatus[status]`.
module _ (Value : Type 0) (quote : String → Value) (status_name : ℕ → Option Value) where
  abbrev pub status_of : Exception Value → ℕ
  status_of (http_exception status response) = status
  status_of other_exception = 500

  abbrev pub raw_of : Exception Value → Response Value
  raw_of (http_exception status response) = response
  raw_of other_exception = text "Internal server error"

  abbrev pub message_in : Response Value → Value
  message_in (text t) = quote t
  message_in (object message error) = or_else message (quote "Error")

  abbrev pub error_in : Response Value → Option Value
  error_in (text t) = none
  error_in (object message error) = error

  abbrev or_name : Option Value → ℕ → Option Value
  or_name none status = status_name status
  or_name (some error) status = some error

  -- `status >= 500`: the stack is logged.
  abbrev pub is_logged : Exception Value → Bool
  is_logged e = leb 500 (status_of e)

  -- AllExceptionsFilter.catch: the body of the answer, and whether the stack is logged.
  abbrev pub catch_all :
      (random_uuid : ℕ) → Instant → Request → Exception Value → Envelope Value × Bool
  catch_all random_uuid now request e = (
    record {
      status_code = status_of e;
      error = or_name (error_in (raw_of e)) (status_of e);
      message = message_in (raw_of e);
      correlation_id = or_else request.correlation_id random_uuid;
      path = request.url;
      timestamp = now;
    },
    is_logged e,
  )
