-- ===== src/Reminders.antt =====
-- modules/reminders: RemindersService and ReminderProcessor.
pub mod Dispatching
pub mod Scheduler
pub mod Rescans
pub mod Redelivery
pub mod Retries
mod Tests
use task_scheduling_platform.Base.{
  ℕ, suc, ◌+◌, ◌*◌, Bool, true, false, not, ◌&&◌, ◌||◌, Option, none, some, List, [], ◌∷◌, ◌++◌,
  ◌==◌, ltb, leb, if◌then◌else◌, find, find_one, exists, length, update_where,
}
use task_scheduling_platform.Http.{Result, ok, err, internal}
use task_scheduling_platform.World.{
  Uuid, Instant, Micros, Stamp, Task, Reminder, CreateNotificationInput, Job, World,
}
use task_scheduling_platform.World.Work.{TaskStatus, done, cancelled, same_status}
use task_scheduling_platform.World.Delivery.{
  ReminderType, due_soon, overdue, ReminderStatus, pending, sent, failed, NotificationType,
  task_due_soon, task_overdue,
}
use task_scheduling_platform.World.Events.{send_reminder}
use task_scheduling_platform.Exec.{Exec, ◌>>=◌, ◌>>◌, pure, gets, modify, throw_if}
use task_scheduling_platform.Notifications

abbrev pub due_soon_window_ms : ℕ
due_soon_window_ms = 24 * 60 * 60 * 1000

pub record ScanResult : Type 0 where
  pub scanned_due_soon : ℕ
  pub scanned_overdue : ℕ
  pub created : ℕ
  pub delivered : ℕ
  pub enqueued : ℕ

-- What became of one reminder.
pub record Outcome : Type 0 where
  pub created : Bool
  pub delivered : Bool
  pub enqueued : Bool

abbrev pub is_open : Task → Bool
is_open t = not (same_status t.status done || same_status t.status cancelled)

abbrev due_between : (Instant → Bool) → Option Instant → Bool
due_between test none = false
due_between test (some due) = test due

abbrev pub is_due_soon : Instant → Task → Bool
is_due_soon now t =
    is_open t && due_between (λ due. ltb now due && leb due (now + due_soon_window_ms)) t.due_date

abbrev pub is_overdue : Instant → Task → Bool
is_overdue now t = is_open t && due_between (λ due. leb due now) t.due_date

abbrev pub same_type : ReminderType → ReminderType → Bool
same_type due_soon due_soon = true
same_type due_soon overdue = false
same_type overdue due_soon = false
same_type overdue overdue = true

-- The key of UQ_reminders_task_type_scheduled.
abbrev pub same_key : Uuid → ReminderType → Instant → Reminder → Bool
same_key task_id type scheduled_for r =
    r.task_id == task_id && same_type r.type type && r.scheduled_for == scheduled_for

abbrev pub new_reminder : Stamp → Uuid → ReminderType → Instant → Reminder
new_reminder stamp task_id type scheduled_for = record {
  id = stamp.id;
  task_id = task_id;
  type = type;
  scheduled_for = scheduled_for;
  status = pending;
  attempts = 0;
  sent_at = none;
  created_at = stamp.at;
}

-- `INSERT … ON CONFLICT DO NOTHING RETURNING id`
unfoldable pub create_reminder : Stamp → Uuid → ReminderType → Instant → Exec (Option Uuid)
create_reminder stamp task_id type scheduled_for w =
    if exists (same_key task_id type scheduled_for) w.reminders then (ok none, w) else (
      ok (some stamp.id),
      record w { reminders = w.reminders ++ new_reminder stamp task_id type scheduled_for ∷ [] },
    )

abbrev notification_type : ReminderType → NotificationType
notification_type due_soon = task_due_soon
notification_type overdue = task_overdue

unfoldable pub reminder_input : Uuid → Uuid → ReminderType → CreateNotificationInput
reminder_input task_id assignee_id type = record {
  recipient_id = assignee_id;
  type = notification_type type;
  title = elim type [ due_soon ↦ "A task is due soon" | overdue ↦ "A task is overdue" ];
  body = none;
  entity_type = some "task";
  entity_id = some task_id;
  workspace_id = none;
}

-- `if (task.assigneeId) await this.notifyAssignee(…)`
abbrev notify_assignee : Stamp → Uuid → Option Uuid → ReminderType → Exec (Unit {0})
notify_assignee stamp task_id none type = pure tt
notify_assignee stamp task_id (some assignee_id) type = do
  Notifications.create stamp (reminder_input task_id assignee_id type)
  pure tt

abbrev update_reminder : Uuid → (Reminder → Reminder) → Exec (Unit {0})
update_reminder id f =
    modify (λ w. record w { reminders = update_where (λ r. r.id == id) f w.reminders })

-- The queue, where QUEUE_ENABLED registers one: its `add` drops a job whose id is there.
abbrev pub Queue : Type 0
Queue = Job → List Job → List Job

abbrev dispatch_created : Option Queue → Stamp → Instant → Task → ReminderType → Uuid → Exec Outcome
dispatch_created (some add) stamp now task type reminder_id = do
  modify (λ w. record w { jobs = add (send_reminder reminder_id) w.jobs })
  pure (record { created = true; delivered = false; enqueued = true })
dispatch_created none stamp now task type reminder_id = do
  notify_assignee stamp task.id task.assignee_id type
  update_reminder reminder_id (λ r. record r { status = sent; sent_at = some now })
  pure (record { created = true; delivered = true; enqueued = false })

abbrev dispatch_result :
    Option Queue → Stamp → Instant → Task → ReminderType → Option Uuid → Exec Outcome
dispatch_result queue stamp now task type none =
    pure (record { created = false; delivered = false; enqueued = false })
dispatch_result queue stamp now task type (some id) = dispatch_created queue stamp now task type id

-- A task without a due date is not scanned: `task.dueDate!`.
abbrev create_for : Stamp → Task → ReminderType → Option Instant → Exec (Option Uuid)
create_for stamp task type none = pure none
create_for stamp task type (some due) = create_reminder stamp task.id type due

-- `stamp` is for the reminder, `note` for its notification.
unfoldable pub dispatch :
    Option Queue → (stamp note : Stamp) → Instant → Task → ReminderType → Exec Outcome
unfolding create_reminder
dispatch queue stamp note now task type = do
  reminder_id ← create_for stamp task type task.due_date
  dispatch_result queue note now task type reminder_id

abbrev one_if : Bool → ℕ
one_if true = 1
one_if false = 0

abbrev tally : Outcome → ScanResult → ScanResult
tally o s = record s {
  created = s.created + one_if o.created;
  delivered = s.delivered + one_if o.delivered;
  enqueued = s.enqueued + one_if o.enqueued;
}

-- One of the two loops of `scan`, at the `k`-th pair of stamps.
unfoldable pub dispatch_all :
    Option Queue
    → (ℕ → Stamp)
    → (ℕ → Stamp)
    → Instant
    → ReminderType
    → ℕ
    → List Task
    → ScanResult
    → Exec ScanResult
dispatch_all queue stamps notes now type k [] s = pure s
dispatch_all queue stamps notes now type k (task ∷ tasks) s = do
  o ← dispatch queue (stamps k) (notes k) now task type
  dispatch_all queue stamps notes now type (suc k) tasks (tally o s)

unfoldable pub scan : Option Queue → (ℕ → Stamp) → (ℕ → Stamp) → Instant → Exec ScanResult
unfolding dispatch_all
scan queue stamps notes now = do
  due_soon_tasks ← gets (λ w. find (is_due_soon now) w.tasks)
  overdue_tasks ← gets (λ w. find (is_overdue now) w.tasks)
  let start : ScanResult = record {
    scanned_due_soon = length due_soon_tasks;
    scanned_overdue = length overdue_tasks;
    created = 0;
    delivered = 0;
    enqueued = 0;
  }
  s ← dispatch_all queue stamps notes now due_soon 0 due_soon_tasks start
  dispatch_all queue stamps notes now overdue (length due_soon_tasks) overdue_tasks s

abbrev is_sent : ReminderStatus → Bool
is_sent pending = false
is_sent sent = true
is_sent failed = false

abbrev assignee_of : Option Task → Option Uuid
assignee_of none = none
assignee_of (some t) = t.assignee_id

-- The calls of the database that `deliverReminder` makes, in their order.
pub data Call : Type 0 where
  find_reminder find_task save_notification update_status : Call

-- An answer of the database: `broken` says which calls fail.
abbrev pub reach : (broken : Call → Bool) → Call → Exec (Unit {0})
reach broken call = throw_if (broken call) (internal "Connection terminated")

abbrev deliver_notification :
    (broken : Call → Bool) → Stamp → Uuid → Option Uuid → ReminderType → Exec (Unit {0})
deliver_notification broken note task_id none type = pure tt
deliver_notification broken note task_id (some assignee_id) type = do
  reach broken save_notification
  notify_assignee note task_id (some assignee_id) type

abbrev deliver_found : (broken : Call → Bool) → Stamp → Instant → Option Reminder → Exec (Unit {0})
deliver_found broken note now none = pure tt
deliver_found broken note now (some r) = if is_sent r.status then pure tt else do
  reach broken find_task
  task ← gets (λ w. find_one (λ t. t.id == r.task_id) w.tasks)
  deliver_notification broken note r.task_id (assignee_of task) r.type
  reach broken update_status
  update_reminder r.id
      (λ x. record x { status = sent; sent_at = some now; attempts = r.attempts + 1 })

unfoldable pub deliver_reminder : (broken : Call → Bool) → Stamp → Instant → Uuid → Exec (Unit {0})
deliver_reminder broken note now reminder_id = do
  reach broken find_reminder
  found ← gets (λ w. find_one (λ r. r.id == reminder_id) w.reminders)
  deliver_found broken note now found

-- An attempt of the worker at a job.
pub record Attempt : Type 0 where
  pub broken : Call → Bool
  pub note : Stamp
  pub now : Instant

abbrev pub attempt : Attempt → Uuid → Exec (Unit {0})
attempt a reminder_id = deliver_reminder a.broken a.note a.now reminder_id

-- ReminderProcessor.process, which the queue calls again after a failure, for as many attempts as
-- are listed: the job throws what its last attempt throws.
unfoldable pub process : List Attempt → Uuid → Exec (Unit {0})
process [] reminder_id w = (ok tt, w)
process (a ∷ []) reminder_id w = attempt a reminder_id w
process (a ∷ b ∷ later) reminder_id w =
    let (r, w') = attempt a reminder_id w in
    let rest = process (b ∷ later) reminder_id w' in elim r [ ok u ↦ (ok u, w') | err e ↦ rest ]

unfoldable pub mark_failed : Uuid → ℕ → Exec (Unit {0})
mark_failed reminder_id attempts =
    update_reminder reminder_id (λ r. record r { status = failed; attempts = attempts })

-- ReminderProcessor.onFailed: only the last attempt marks the reminder.
unfoldable pub on_failed : Uuid → (attempts_made max_attempts : ℕ) → Exec (Unit {0})
unfolding mark_failed
on_failed reminder_id attempts_made max_attempts =
    if leb max_attempts attempts_made then mark_failed reminder_id attempts_made else pure tt
