-- ===== src/Auth/Tests.antt =====
-- Runs of RefreshTokenService and AuthService on the sample workspace.
use task_scheduling_platform.Base.{ℕ, ◌+◌, ◌≡◌, refl, true, none, some, [], ◌∷◌, arith, In}
use task_scheduling_platform.Http.{ok, err, unauthorized}
use task_scheduling_platform.World.{RefreshToken, User, World}
use task_scheduling_platform.Samples.{world, stamp}
use task_scheduling_platform.Users
use task_scheduling_platform.Auth
use task_scheduling_platform.Auth.{
  SignupDto, signup, LoginDto, AuthResponseDto, Crypto, Draw, login,
}
use task_scheduling_platform.Auth.RefreshTokens
use task_scheduling_platform.Auth.RefreshTokens.{
  SessionContext, Rotated, live, new_token, rotate, create_token, revoke_family,
}
use task_scheduling_platform.Auth.Rotation.{IsRevoked, rotate-rotate}
use task_scheduling_platform.Auth.Families.{
  HasOneLive, start, next, execute, open_session, refresh, Reach-HasOneLive,
}
use task_scheduling_platform.Auth.Accounts.{HasUniqueEmails, signup-HasUniqueEmails}
use task_scheduling_platform.Auth.SignIn.{login-ok, refresh-is_active}

service : Unit {0}
unfolding rotate create_token revoke_family login Auth.refresh Users.find_by_email Users.find_by_id
    RefreshTokens.issue_for_new_session
service = tt

abbrev no_context : SessionContext
no_context = record { user_agent = none; ip = none }

abbrev hash : ℕ → ℕ
hash raw = raw + 1000

abbrev first_token : RefreshToken
first_token = new_token hash 60 (stamp 91) 1 501 1 77 no_context

abbrev signed_in : World
signed_in = record world { tokens = first_token ∷ [] }

abbrev second_token : RefreshToken
second_token = new_token hash 60 (stamp 92) 2 502 1 77 no_context

abbrev rotated_once : World
rotated_once = record world {
  tokens = record first_token { revoked_at = some 2 } ∷ second_token ∷ [];
}

first_rotation :
    rotate hash 60 (stamp 92) 2 502 501 no_context signed_in
    ≡ (ok (record { user_id = 1; raw_token = 502 }), rotated_once)
unfolding service
first_rotation = refl

rotate-rotate_example :
    ((rotate hash 60 (stamp 93) 3 503 501 no_context rotated_once).0
      ≡ err (unauthorized "Refresh token reuse detected"))
    × IsRevoked 77 (rotate hash 60 (stamp 93) 3 503 501 no_context rotated_once).1
rotate-rotate_example =
    rotate-rotate hash 60 501 (stamp 92) (stamp 93) 2 3 502 503 no_context no_context signed_in
      rotated_once (record { user_id = 1; raw_token = 502 }) first_token first_rotation refl

nobody-HasOneLive : HasOneLive []
nobody-HasOneLive t u m = absurd m

Reach-HasOneLive_example :
    HasOneLive
      (execute hash 60
        (stamp 92)
        2
        (refresh 502 501 no_context)
        (execute hash 60 (stamp 91) 1 (open_session 501 77 1 no_context) world)).tokens
Reach-HasOneLive_example =
    Reach-HasOneLive hash 60 world
      (execute hash 60 (stamp 92) 2 (refresh 502 501 no_context)
        (execute hash 60 (stamp 91) 1 (open_session 501 77 1 no_context) world))
      nobody-HasOneLive
      (next (stamp 92) 2 (refresh 502 501 no_context)
        (next (stamp 91) 1 (open_session 501 77 1 no_context) start (λ t m. absurd m)) tt)

abbrev crypto : Crypto
crypto = record {
  sha256 = hash;
  argon_hash = λ password. password;
  argon_verify = λ stored password. true;
  sign = λ payload. "token";
  fold = λ email. email;
}

abbrev draw : Draw
draw = record { user_stamp = stamp 90; token_stamp = stamp 91; family_id = 77; raw = 501; now = 1 }

abbrev response : ℕ → AuthResponseDto
response raw = record {
  token_type = "Bearer";
  access_token = "token";
  refresh_token = raw;
  user = record { id = 1; email = 101; name = "name" };
}

abbrev credentials : LoginDto
credentials = record { email = 101; password = "hash" }

logged_in : login crypto 60 draw credentials no_context world ≡ (ok (response 501), signed_in)
unfolding service
logged_in = refl

login-ok_example :
    (u : User) × In u world.users
    × (crypto.fold u.email ≡ crypto.fold 101)
    × (u.is_active ≡ true)
    × (crypto.argon_verify u.password_hash "hash" ≡ true)
    × ((response 501).user.id ≡ u.id)
    × ((response 501).refresh_token ≡ draw.raw)
    × (signed_in
        ≡ record world { tokens = new_token hash 60 (stamp 91) 1 501 u.id 77 no_context ∷ [] })
login-ok_example =
    login-ok crypto 60 draw credentials no_context world signed_in (response 501) logged_in

abbrev next_draw : Draw
next_draw = record {
  user_stamp = stamp 90;
  token_stamp = stamp 92;
  family_id = 78;
  raw = 502;
  now = 2;
}

refreshed :
    Auth.refresh crypto 60 next_draw 501 no_context signed_in ≡ (ok (response 502), rotated_once)
unfolding service
refreshed = refl

refresh-is_active_example : (u : User) × In u rotated_once.users × (u.id ≡ 1) × (u.is_active ≡ true)
refresh-is_active_example =
    refresh-is_active crypto 60 next_draw 501 no_context signed_in rotated_once (response 502)
      refreshed

abbrev registration : SignupDto
registration = record { email = 103; name = "name"; password = "secret" }

world-HasUniqueEmails : HasUniqueEmails crypto.fold world.users
world-HasUniqueEmails u v m k e = ground arith

signup-HasUniqueEmails_example :
    HasUniqueEmails crypto.fold (signup crypto 60 draw registration no_context world).1.users
signup-HasUniqueEmails_example =
    signup-HasUniqueEmails crypto 60 draw registration no_context world world-HasUniqueEmails
