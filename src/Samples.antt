-- ===== src/Samples.antt =====
-- A small workspace for the tests: users 1 and 2, workspace 10 with project 20, and tasks 31, 32
-- (below 31) and 33.
use task_scheduling_platform.Base.{◌+◌, ◌*◌, ◌∷◌, [], List, Option, none, some, true}
use task_scheduling_platform.World.{
  Uuid, Stamp, User, Workspace, WorkspaceMember, Project, Task, World,
}
use task_scheduling_platform.World.Membership.{admin, member, WorkspaceRole}
use task_scheduling_platform.World.Work.{active, todo, medium}

abbrev pub user : Uuid → User
user id = record {
  id = id;
  email = 100 + id;
  password_hash = "hash";
  name = "name";
  is_active = true;
  created_at = 0;
  updated_at = 0;
}

abbrev pub membership : Uuid → Uuid → WorkspaceRole → WorkspaceMember
membership id user_id role = record {
  id = id;
  workspace_id = 10;
  user_id = user_id;
  role = role;
  joined_at = 0;
}

abbrev pub task : Uuid → Option Uuid → Task
task id parent = record {
  id = id;
  project_id = 20;
  parent_task_id = parent;
  title = "title";
  description = none;
  status = todo;
  priority = medium;
  assignee_id = none;
  created_by = 1;
  due_date = none;
  completed_at = none;
  created_at = id * 1000;
  updated_at = 0;
}

abbrev pub workspace : Workspace
workspace = record {
  id = 10;
  name = b'a' ∷ [];
  slug = b'a' ∷ [];
  owner_id = 1;
  created_at = 0;
  updated_at = 0;
}

abbrev pub project : Project
project = record {
  id = 20;
  workspace_id = 10;
  created_by = 1;
  name = "project";
  description = none;
  status = active;
  created_at = 0;
  updated_at = 0;
}

abbrev pub three_tasks : List Task
three_tasks = task 31 none ∷ task 32 (some 31) ∷ task 33 none ∷ []

abbrev pub with_tasks : List Task → World
with_tasks tasks = record {
  users = user 1 ∷ user 2 ∷ [];
  tokens = [];
  workspaces = workspace ∷ [];
  members = membership 11 1 admin ∷ membership 12 2 member ∷ [];
  invitations = [];
  projects = project ∷ [];
  tasks = tasks;
  comments = [];
  activity = [];
  notifications = [];
  reminders = [];
  cache = [];
  events = [];
  jobs = [];
}

abbrev pub world : World
world = with_tasks three_tasks

abbrev pub stamp : Uuid → Stamp
stamp id = record { id = id; at = 5000 }
