-- ===== src/Api/Samples.antt =====
-- A platform for the tests of the API. A token is the id of its user; the token 0 is refused.
use task_scheduling_platform.Base.{ℕ, ◌+◌, true, none, some, Option, [], ◌∷◌, if◌then◌else◌, ◌==◌}
use task_scheduling_platform.World.{Instant}
use task_scheduling_platform.Samples.{stamp}
use task_scheduling_platform.Auth.{JwtPayload}
use task_scheduling_platform.Workspaces.Cache.{in_memory}
use task_scheduling_platform.Api.Context.{Platform, Moment, Headers}

abbrev pub verify : Instant → ℕ → Option JwtPayload
verify now token = if token == 0 then none else some (record { sub = token; email = 100 + token })

abbrev pub platform : Platform
platform = record {
  codec = record {
    to_base64url = λ t. t;
    from_base64url = λ t. t;
    to_iso_string = λ n. (n + 125) ∷ [];
    uuid_text = λ n. (n + 125) ∷ [];
    cast_timestamptz = λ t. none;
    cast_uuid = λ t. none;
  };
  cache = in_memory;
  crypto = record {
    sha256 = λ raw. raw + 1;
    argon_hash = λ password. password;
    argon_verify = λ stored password. true;
    sign = λ payload. "token";
    fold = λ email. email;
  };
  lower = λ cs. cs;
  queue = none;
  refresh_ttl_ms = 1000;
  verify = verify;
}

abbrev pub moment : Moment
moment = record {
  now = 5;
  at = 5000;
  stamp = stamp 80;
  member_stamp = stamp 81;
  draw = record {
    user_stamp = stamp 82;
    token_stamp = stamp 83;
    family_id = 84;
    raw = 501;
    now = 5;
  };
  invite_token = 601;
  reminder_stamps = λ k. stamp (1000 + k);
  note_stamps = λ k. stamp (2000 + k);
}

abbrev pub headers : ℕ → Headers
headers token = record { bearer = some token; session = record { user_agent = none; ip = none } }
