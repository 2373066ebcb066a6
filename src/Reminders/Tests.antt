-- ===== src/Reminders/Tests.antt =====
-- Runs of RemindersService.
use task_scheduling_platform.Exec.{Exec, throw}
use task_scheduling_platform.Http.{internal}
use task_scheduling_platform.Reminders.Scheduler.{
  State, initial, tick, settle, Reach, start, next, ticked, ended, Reach-tick,
}
use task_scheduling_platform.Base.{
  ℕ, suc, ◌+◌, ◌≤◌, ◌≡◌, refl, Bool, true, false, List, none, some, [], ◌∷◌, arith, ltb,
  if◌then◌else◌,
}
use task_scheduling_platform.Http.{ok}
use task_scheduling_platform.World.{Stamp, Task, World}
use task_scheduling_platform.Samples.{task, with_tasks, world, stamp}
use task_scheduling_platform.Reminders.{
  ScanResult, scan, new_reminder, reminder_input, Call, find_reminder, find_task, save_notification,
  update_status, deliver_reminder, Attempt, process,
}
use task_scheduling_platform.Reminders.Rescans.{nothing_new, scan-scan}
use task_scheduling_platform.Reminders.Redelivery.{idle, deliver_reminder-deliver_reminder}
use task_scheduling_platform.Reminders.Retries.{process-saved_by}
use task_scheduling_platform.World.Delivery.{overdue}
use task_scheduling_platform.Notifications
use task_scheduling_platform.Notifications.{new_notification}

-- Task 31 is overdue at 1000, and task 32 due soon; both are assigned to user 2.
abbrev due : Task → ℕ → Task
due t at = record t { due_date = some at; assignee_id = some 2 }

abbrev dated : World
dated = with_tasks (due (task 31 none) 900 ∷ due (task 32 none) 2000 ∷ [])

abbrev stamps : ℕ → Stamp
stamps k = stamp (200 + k)

abbrev notes : ℕ → Stamp
notes k = stamp (300 + k)

scan-scan_example :
    scan none stamps notes 1000 (scan none stamps notes 1000 dated).1
    ≡ (ok (nothing_new 1000 dated.tasks), (scan none stamps notes 1000 dated).1)
scan-scan_example = scan-scan none stamps notes stamps notes 1000 dated

abbrev nothing : Call → Bool
nothing call = false

-- The connection is lost between the notification and the update of the reminder.
abbrev last : Call → Bool
last find_reminder = false
last find_task = false
last save_notification = false
last update_status = true

-- A scan with a queue has left the reminder 200 of task 31 pending.
abbrev owed : World
owed = record dated { reminders = new_reminder (stamp 200) 31 overdue 900 ∷ [] }

abbrev delivered : World
delivered = (deliver_reminder nothing (stamp 400) 1000 200 owed).1

deliver_reminder-deliver_reminder_example :
    deliver_reminder last (stamp 401) 1001 200 delivered ≡ (idle last, delivered)
unfolding deliver_reminder Notifications.create
deliver_reminder-deliver_reminder_example =
    deliver_reminder-deliver_reminder nothing last (stamp 400) (stamp 401) 1000 1001 200 owed
      delivered refl

abbrev attempts : List Attempt
attempts =
    record { broken = last; note = stamp 400; now = 1000 }
    ∷ record { broken = nothing; note = stamp 401; now = 3000 }
    ∷ []

-- The user is notified twice.
process-saved_by_example : (process attempts 200 owed).1.notifications ≡ (
    new_notification (stamp 400) (reminder_input 31 2 overdue)
    ∷ new_notification (stamp 401) (reminder_input 31 2 overdue)
    ∷ [])
process-saved_by_example =
    process-saved_by attempts 200 2 (new_reminder (stamp 200) 31 overdue 900)
      (due (task 31 none) 900) owed
      (record { there = refl; open_one = refl; task = refl; assigned = refl })

-- A scan that the database breaks off, between two ticks.
abbrev broken : Exec ScanResult
broken = throw (internal "connection terminated")

abbrev after_failure : State
after_failure = settle broken (tick (initial world))

after_failure-Reach : Reach broken (initial world) after_failure
unfolding tick
after_failure-Reach =
    next (next (start (initial world)) (ticked (initial world)))
      (ended (tick (initial world)) (omega arith))

Reach-tick_example :
    (after_failure.started ≤ suc after_failure.settled)
    × (after_failure.running ≡ ltb after_failure.settled after_failure.started)
    × ((tick after_failure).started ≡ (
        if ltb after_failure.settled after_failure.started
        then after_failure.started
        else suc after_failure.started))
    × ((tick (settle broken after_failure)).started ≡ suc after_failure.started)
Reach-tick_example = Reach-tick broken world after_failure after_failure-Reach
