-- ===== src/World/Work.antt =====
-- Rows of `projects`, `tasks` and `comments` (modules/*/entities, modules/*/enums).
use task_scheduling_platform.Base.{ℕ, String, Bool, Option, ◌==◌}
use task_scheduling_platform.World.Accounts.{Uuid, Instant, Micros}

pub data ProjectStatus : Type 0 where
  active archived : ProjectStatus

pub data TaskStatus : Type 0 where
  todo in_progress blocked done cancelled : TaskStatus

pub data TaskPriority : Type 0 where
  low medium high urgent : TaskPriority

abbrev ordinal : TaskStatus → ℕ
ordinal todo = 0
ordinal in_progress = 1
ordinal blocked = 2
ordinal done = 3
ordinal cancelled = 4

abbrev project_ordinal : ProjectStatus → ℕ
project_ordinal active = 0
project_ordinal archived = 1

abbrev pub same_project_status : ProjectStatus → ProjectStatus → Bool
same_project_status a b = project_ordinal a == project_ordinal b

abbrev priority_ordinal : TaskPriority → ℕ
priority_ordinal low = 0
priority_ordinal medium = 1
priority_ordinal high = 2
priority_ordinal urgent = 3

abbrev pub same_priority : TaskPriority → TaskPriority → Bool
same_priority a b = priority_ordinal a == priority_ordinal b

-- `a === b` on the enum's strings, which differ from one another
abbrev pub same_status : TaskStatus → TaskStatus → Bool
same_status a b = ordinal a == ordinal b

abbrev pub is_done : TaskStatus → Bool
is_done s = same_status s done

pub record Project : Type 0 where
  pub id : Uuid
  pub workspace_id : Uuid
  pub created_by : Uuid
  pub name : String
  pub description : Option String
  pub status : ProjectStatus
  pub created_at : Micros
  pub updated_at : Micros

pub record Task : Type 0 where
  pub id : Uuid
  pub project_id : Uuid
  pub parent_task_id : Option Uuid
  pub title : String
  pub description : Option String
  pub status : TaskStatus
  pub priority : TaskPriority
  pub assignee_id : Option Uuid
  pub created_by : Uuid
  pub due_date : Option Instant
  pub completed_at : Option Instant
  pub created_at : Micros
  pub updated_at : Micros

pub record Comment : Type 0 where
  pub id : Uuid
  pub task_id : Uuid
  pub author_id : Uuid
  pub parent_comment_id : Option Uuid
  pub body : String
  pub edited_at : Option Instant
  pub created_at : Micros
  pub updated_at : Micros
