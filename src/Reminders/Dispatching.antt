-- ===== src/Reminders/Dispatching.antt =====
-- modules/reminders/reminders.service.ts: what one reminder does to the table of reminders.
use task_scheduling_platform.Base.{
  ◌≡◌, ◌≢◌, ◌⊎◌, refl, Bool, true, false, Option, none, some, List, [], ◌∷◌, ◌++◌, arith, In, inl,
  inr, ◌==◌, Option-cases, exists, update_where,
}
use task_scheduling_platform.Http.{HttpException, ok, err, Result-cases}
use task_scheduling_platform.World.{Uuid, Instant, Stamp, Task, Reminder, World}
use task_scheduling_platform.World.Delivery.{ReminderType, due_soon, overdue, sent}
use task_scheduling_platform.Notifications
use task_scheduling_platform.Reminders.{
  ScanResult, Outcome, Queue, same_key, new_reminder, create_reminder, dispatch, tally,
}

exists-append :
    {A : Type 0} (p : A → Bool) (xs ys : List A) → exists p xs ≡ true → exists p (xs ++ ys) ≡ true
exists-append p [] ys h = ground arith
exists-append p (x ∷ xs) ys h = ground (arith, exists-append p xs ys)

exists-snoc :
    {A : Type 0} (p : A → Bool) (xs : List A) (x : A) → p x ≡ true → exists p (xs ++ x ∷ []) ≡ true
exists-snoc p [] x h = ground arith
exists-snoc p (y ∷ xs) x h = ground (arith, exists-snoc p xs x)

exists-update_where :
    {A : Type 0} (p q : A → Bool) (f : A → A) (xs : List A)
    → ((a : A) → p (f a) ≡ p a)
    → exists p (update_where q f xs) ≡ exists p xs
exists-update_where p q f [] h = refl
exists-update_where p q f (x ∷ xs) h = ground (arith, h x, exists-update_where p q f xs h)

-- A reminder of this type for the task's due date is in the table, or the task has none.
abbrev pub IsReminded : ReminderType → Task → World → Type 0
IsReminded type task w =
    (due : Instant)
    → task.due_date ≡ some due
    → exists (same_key task.id type due) w.reminders ≡ true

same_key-new_reminder :
    (stamp : Stamp) (task_id : Uuid) (type : ReminderType) (due : Instant)
    → same_key task_id type due (new_reminder stamp task_id type due) ≡ true
same_key-new_reminder stamp task_id due_soon due = ground arith
same_key-new_reminder stamp task_id overdue due = ground arith

module _ (queue : Option Queue) (stamp note : Stamp) (now : Instant) (task : Task)
    (type : ReminderType) where
  -- What `dispatch` does to the tasks and to the reminders.
  pub dispatch-tasks : (w : World) → (dispatch queue stamp note now task type w).1.tasks ≡ w.tasks
  unfolding dispatch create_reminder Notifications.create
  dispatch-tasks w = ground arith

  abbrev made : Instant → World → List Reminder
  made due w = w.reminders ++ new_reminder stamp task.id type due ∷ []

  -- The reminders are those before, with a new one where the key was free, sent or not.
  dispatch_rows :
      (w : World) (due : Instant)
      → task.due_date ≡ some due
      → ((exists (same_key task.id type due) w.reminders ≡ true)
          × ((dispatch queue stamp note now task type w).1.reminders ≡ w.reminders))
        ⊎ ((dispatch queue stamp note now task type w).1.reminders ≡ made due w)
        ⊎ ((dispatch queue stamp note now task type w).1.reminders
            ≡ update_where
                (λ r. r.id == stamp.id)
                (λ r. record r { status = sent; sent_at = some now })
                (made due w))
  unfolding dispatch create_reminder Notifications.create
  dispatch_rows w due e = ground arith

  -- A task that was reminded of is left alone.
  pub dispatch_again :
      (w : World)
      → IsReminded type task w
      → dispatch queue stamp note now task type w
        ≡ (ok (record { created = false; delivered = false; enqueued = false }), w)
  unfolding dispatch create_reminder
  dispatch_again w done = elim (Option-cases task.due_date) [
    | inl never ↦ rw never refl
    | inr (due, e) ↦ rw (e, done due e) refl
  ]

  dispatch_undated :
      (w : World)
      → task.due_date ≡ none
      → (dispatch queue stamp note now task type w).1.reminders ≡ w.reminders
  unfolding dispatch create_reminder
  dispatch_undated w never = rw never refl

  -- A reminder stays, under its key.
  pub dispatch-kept :
      (w : World) (id : Uuid) (kind : ReminderType) (at : Instant)
      → exists (same_key id kind at) w.reminders ≡ true
      → exists (same_key id kind at) (dispatch queue stamp note now task type w).1.reminders ≡ true
  dispatch-kept w id kind at here = elim (Option-cases task.due_date) [
    | inl never ↦ rw (dispatch_undated w never) here
    | inr (due, e) ↦
        let longer =
          exists-append (same_key id kind at) w.reminders (new_reminder stamp task.id type due ∷ [])
            here in
        elim (dispatch_rows w due e) [
          | inl (_, same) ↦ rw same here
          | inr (inl written) ↦ rw written longer
          | inr (inr written) ↦
              rw
                (
                  written,
                  exists-update_where (same_key id kind at) (λ r. r.id == stamp.id)
                      (λ r. record r { status = sent; sent_at = some now }) (made due w)
                      (λ a. refl),
                )
                longer
        ]
  ]

  pub dispatch-IsReminded :
      (w : World) → IsReminded type task (dispatch queue stamp note now task type w).1
  dispatch-IsReminded w due e =
      let new =
        exists-snoc (same_key task.id type due) w.reminders (new_reminder stamp task.id type due)
          (same_key-new_reminder stamp task.id type due) in
      elim (dispatch_rows w due e) [
        | inl (here, same) ↦ rw same here
        | inr (inl written) ↦ rw written new
        | inr (inr written) ↦
            rw
              (
                written,
                exists-update_where (same_key task.id type due) (λ r. r.id == stamp.id)
                    (λ r. record r { status = sent; sent_at = some now }) (made due w) (λ a. refl),
              )
              new
      ]

-- All tasks of the list are reminded of.
abbrev pub AllReminded : ReminderType → List Task → World → Type 0
AllReminded type tasks w = (t : Task) → In t tasks → IsReminded type t w

dispatch-err :
    (queue : Option Queue) (stamp note : Stamp) (now : Instant) (task : Task) (type : ReminderType)
    (w : World) (e : HttpException)
    → (dispatch queue stamp note now task type w).0 ≢ err e
unfolding dispatch create_reminder Notifications.create
dispatch-err queue stamp note now task type w e h = ground arith

pub dispatch-ok :
    (queue : Option Queue) (stamp note : Stamp) (now : Instant) (task : Task) (type : ReminderType)
    (w : World)
    → (o : Outcome) × ((dispatch queue stamp note now task type w).0 ≡ ok o)
dispatch-ok queue stamp note now task type w =
    elim (Result-cases (dispatch queue stamp note now task type w).0) [
      | inl found ↦ found
      | inr (e, h) ↦ absurd (dispatch-err queue stamp note now task type w e h)
    ]

pub nothing_tallied :
    (s : ScanResult) → tally (record { created = false; delivered = false; enqueued = false }) s ≡ s
nothing_tallied s = ground arith
