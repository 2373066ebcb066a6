-- ===== src/Users.antt =====
-- modules/users/users.service.ts. The column `email` is `citext`: addresses are compared by what
-- `fold` makes of them.
use task_scheduling_platform.Base.{
  String, Bool, true, Option, [], ◌∷◌, ◌++◌, ◌==◌, ltb, find, find_one, length,
}
use task_scheduling_platform.World.{Uuid, Stamp, Email, User, World}
use task_scheduling_platform.Exec.{Exec, ◌>>◌, pure, modify}

pub record CreateUserInput : Type 0 where
  pub email : Email
  pub name : String
  pub password_hash : String

unfoldable pub create : Stamp → CreateUserInput → Exec User
create stamp i = do
  let user : User = record {
    id = stamp.id;
    email = i.email;
    password_hash = i.password_hash;
    name = i.name;
    is_active = true;
    created_at = stamp.at;
    updated_at = stamp.at;
  }
  modify (λ w. record w { users = w.users ++ user ∷ [] })
  pure user

unfoldable pub find_by_id : Uuid → World → Option User
find_by_id id w = find_one (λ u. u.id == id) w.users

abbrev pub has_email : (Email → Email) → Email → User → Bool
has_email fold email u = fold u.email == fold email

-- findByEmail, and findByEmailWithSecret, which selects the password hash too
unfoldable pub find_by_email : (Email → Email) → Email → World → Option User
find_by_email fold email w = find_one (has_email fold email) w.users

unfoldable pub exists_by_email : (Email → Email) → Email → World → Bool
exists_by_email fold email w = ltb 0 (length (find (has_email fold email) w.users))
