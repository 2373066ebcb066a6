-- ===== src/Reminders/Retries.antt =====
-- modules/reminders: a job of the queue that fails and is tried again.
use task_scheduling_platform.Base.{
  ◌≡◌, sym, ◌∙◌, ap, Bool, true, false, not, ◌||◌, some, List, [], ◌∷◌, ◌++◌, arith, ◌==◌,
  if◌then◌else◌, Bool-cases, find_one, inl, inr, append_assoc, append-nil,
}
use task_scheduling_platform.Http.{HttpException, Result, ok, err, internal}
use task_scheduling_platform.World.{Uuid, Task, Reminder, Notification, World}
use task_scheduling_platform.Notifications
use task_scheduling_platform.Reminders.{
  is_sent, reminder_input, Call, find_reminder, find_task, save_notification, update_status,
  Attempt, attempt, process,
}
use task_scheduling_platform.Reminders

-- The attempt gets as far as to save the notification.
abbrev pub saves : Attempt → Bool
saves a = not (a.broken find_reminder || a.broken find_task || a.broken save_notification)

-- The notifications of a job: one of each attempt that saves it, up to the first attempt that also
-- updates the reminder.
abbrev pub saved_by : List Attempt → Uuid → Reminder → List Notification
saved_by [] assignee_id r = []
saved_by (a ∷ later) assignee_id r =
    let n = Notifications.new_notification a.note (reminder_input r.task_id assignee_id r.type) in
    let rest = saved_by later assignee_id r in
    if saves a then n ∷ (if a.broken update_status then rest else []) else rest

-- The reminder is not sent yet, and its task is assigned to the user.
pub record IsOwed (id assignee_id : Uuid) (r : Reminder) (t : Task) (w : World) : Type 0 where
  pub there : find_one (λ x. x.id == id) w.reminders ≡ some r
  pub open_one : is_sent r.status ≡ false
  pub task : find_one (λ x. x.id == r.task_id) w.tasks ≡ some t
  pub assigned : t.assignee_id ≡ some assignee_id

module _ (a : Attempt) (id assignee_id : Uuid) (r : Reminder) (t : Task) (w : World)
    (owed : IsOwed id assignee_id r t w) where
  abbrev broken_off : Result (Unit {0})
  broken_off = err (internal "Connection terminated")

  abbrev saved : Notification
  saved = Notifications.new_notification a.note (reminder_input r.task_id assignee_id r.type)

  attempt_early : saves a ≡ false → attempt a id w ≡ (broken_off, w)
  unfolding Reminders.deliver_reminder Notifications.create
  attempt_early h = ground (arith, owed.there, owed.open_one, owed.task, owed.assigned)

  attempt_late :
      saves a ≡ true
      → a.broken update_status ≡ true
      → ((attempt a id w).0 ≡ broken_off)
        × ((attempt a id w).1.notifications ≡ w.notifications ++ saved ∷ [])
        × IsOwed id assignee_id r t (attempt a id w).1
  unfolding Reminders.deliver_reminder Notifications.create
  attempt_late h k = (
    ground (arith, owed.there, owed.open_one, owed.task, owed.assigned),
    ground (arith, owed.there, owed.open_one, owed.task, owed.assigned),
    record {
      there = ground (arith, owed.there, owed.open_one, owed.task, owed.assigned);
      open_one = owed.open_one;
      task = ground (arith, owed.there, owed.open_one, owed.task, owed.assigned);
      assigned = owed.assigned;
    },
  )

  attempt_done :
      saves a ≡ true
      → a.broken update_status ≡ false
      → ((attempt a id w).0 ≡ ok tt)
        × ((attempt a id w).1.notifications ≡ w.notifications ++ saved ∷ [])
  unfolding Reminders.deliver_reminder Notifications.create
  attempt_done h k = ground (arith, owed.there, owed.open_one, owed.task, owed.assigned)

-- After a success the job is done, and after a failure it goes on where an attempt is left.
module _ (a b : Attempt) (later : List Attempt) (id : Uuid) (w : World) where
  process_done :
      (attempt a id w).0 ≡ ok tt
      → (process (a ∷ b ∷ later) id w).1.notifications ≡ (attempt a id w).1.notifications
  unfolding process
  process_done h = ground (arith, h)

  process_again :
      (e : HttpException)
      → (attempt a id w).0 ≡ err e
      → (process (a ∷ b ∷ later) id w).1.notifications
        ≡ (process (b ∷ later) id (attempt a id w).1).1.notifications
  unfolding process
  process_again e h = ground (arith, h)

module _ (a : Attempt) (later : List Attempt) (assignee_id : Uuid) (r : Reminder) where
  abbrev saved_at : Notification
  saved_at = Notifications.new_notification a.note (reminder_input r.task_id assignee_id r.type)

  saved_by_early :
      saves a ≡ false → saved_by (a ∷ later) assignee_id r ≡ saved_by later assignee_id r
  saved_by_early h = ground (arith, h)

  saved_by_late :
      saves a ≡ true
      → a.broken update_status ≡ true
      → saved_by (a ∷ later) assignee_id r ≡ saved_at ∷ saved_by later assignee_id r
  saved_by_late h k = ground (arith, h, k)

  saved_by_done :
      saves a ≡ true
      → a.broken update_status ≡ false
      → saved_by (a ∷ later) assignee_id r ≡ saved_at ∷ []
  saved_by_done h k = ground (arith, h, k)

-- The notifications that the attempts at a job create, where the reminder is not sent yet and its task
-- has an assignee, for every pattern of failures of the database: one to the assignee for each attempt
-- that saves it, up to the first attempt that also updates the reminder. So a retry that follows a
-- failed update notifies again.
pub process-saved_by :
    (attempts : List Attempt) (id assignee_id : Uuid) (r : Reminder) (t : Task) (w : World)
    → IsOwed id assignee_id r t w
    → (process attempts id w).1.notifications ≡ w.notifications ++ saved_by attempts assignee_id r
unfolding process
process-saved_by [] id assignee_id r t w owed = sym (append-nil w.notifications)
process-saved_by (a ∷ []) id assignee_id r t w owed =
    let onto : List Notification → List Notification = λ ns. w.notifications ++ ns in
    elim (Bool-cases (saves a)) [
      | inl sent ↦ elim (Bool-cases (a.broken update_status)) [
        | inl late ↦
            (attempt_late a id assignee_id r t w owed sent late).1
            ∙ sym (ap onto (saved_by_late a [] assignee_id r sent late))
        | inr done ↦
            (attempt_done a id assignee_id r t w owed sent done).1
            ∙ sym (ap onto (saved_by_done a [] assignee_id r sent done))
      ]
      | inr early ↦
          ap (λ (p : Result (Unit {0}) × World). p.1.notifications)
            (attempt_early a id assignee_id r t w owed early)
          ∙ sym (append-nil w.notifications)
          ∙ sym (ap onto (saved_by_early a [] assignee_id r early))
    ]
process-saved_by (a ∷ b ∷ later) id assignee_id r t w owed =
    let onto : List Notification → List Notification = λ ns. w.notifications ++ ns in
    elim (Bool-cases (saves a)) [
      | inl sent ↦ elim (Bool-cases (a.broken update_status)) [
        | inl late ↦
            let (failed, written, owed') = attempt_late a id assignee_id r t w owed sent late in
            process_again a b later id w _ failed
            ∙ process-saved_by (b ∷ later) id assignee_id r t (attempt a id w).1 owed'
            ∙ ap (λ ns. ns ++ saved_by (b ∷ later) assignee_id r) written
            ∙ append_assoc w.notifications (saved_at a (b ∷ later) assignee_id r ∷ []) _
            ∙ sym (ap onto (saved_by_late a (b ∷ later) assignee_id r sent late))
        | inr done ↦
            let (succeeded, written) = attempt_done a id assignee_id r t w owed sent done in
            process_done a b later id w succeeded
            ∙ written
            ∙ sym (ap onto (saved_by_done a (b ∷ later) assignee_id r sent done))
      ]
      | inr early ↦
          let failed = attempt_early a id assignee_id r t w owed early in
          process_again a b later id w _ (ap (λ (p : Result (Unit {0}) × World). p.0) failed)
          ∙ ap (λ (p : Result (Unit {0}) × World). (process (b ∷ later) id p.1).1.notifications)
              failed
          ∙ process-saved_by (b ∷ later) id assignee_id r t w owed
          ∙ sym (ap onto (saved_by_early a (b ∷ later) assignee_id r early))
    ]
