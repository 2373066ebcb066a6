-- ===== src/Notifications/Queueing.antt =====
-- modules/notifications with a queue: the listener adds a job for each notification, and the worker
-- creates it.
use task_scheduling_platform.Base.{
  ◌≡◌, ◌≢◌, refl, sym, ap, ◌∙◌, some, List, [], ◌∷◌, ◌++◌, arith, In, length, suc, ◌+◌,
}
use task_scheduling_platform.Http.{ok}
use task_scheduling_platform.World.{Uuid, Stamp, CreateNotificationInput, Event, Job, World}
use task_scheduling_platform.World.Events.{CommentCreatedEvent, comment_created, deliver, JobId}
use task_scheduling_platform.Notifications.{new_notification, create, on_event, on_event_queued}
use task_scheduling_platform.Notifications.Mapping.{
  map_event, notification_job_id, comment_input, map_comment_created-other,
}

-- The documented behaviour of the queue's `add`: a job under an id that the queue holds is not
-- added, and the queue then holds a job under the id.
pub record IsDeduplicating (add : Job → List Job → List Job) : Type 0 where
  pub add_again :
      (id : JobId) (i j : CreateNotificationInput) (jobs : List Job)
      → In (deliver id i) jobs
      → add (deliver id j) jobs ≡ jobs
  pub holds_added :
      (id : JobId) (j : CreateNotificationInput) (jobs : List Job)
      → (i : CreateNotificationInput) × In (deliver id i) (add (deliver id j) jobs)

on_event_queued-some :
    (add : Job → List Job → List Job) (e : Event) (i : CreateNotificationInput) (w : World)
    → map_event e ≡ some i
    → on_event_queued add e w
      ≡ (ok tt, record w { jobs = add (deliver (notification_job_id i) i) w.jobs })
unfolding on_event_queued
on_event_queued-some add e i w mapped = rw mapped refl

-- With a queue that drops a job whose id it holds, a second event that asks for the same kind of
-- notification to the same user about the same entity changes nothing while the first job is there.
pub on_event_queued-on_event_queued :
    (add : Job → List Job → List Job)
    → IsDeduplicating add
    → (e e' : Event) (i i' : CreateNotificationInput) (w : World) → map_event e ≡ some i
    → map_event e' ≡ some i'
    → notification_job_id i' ≡ notification_job_id i
    → on_event_queued add e' (on_event_queued add e w).1 ≡ (ok tt, (on_event_queued add e w).1)
on_event_queued-on_event_queued add laws e e' i i' w mapped mapped' same =
    let (j, held) = laws.holds_added (notification_job_id i) i w.jobs in
    rw (on_event_queued-some add e i w mapped, on_event_queued-some add e' i' _ mapped', same)
      (ap (λ jobs. (ok tt, record w { jobs = jobs }))
        (laws.add_again (notification_job_id i) j i'
          (add (deliver (notification_job_id i) i) w.jobs) held))

length-snoc : {A : Type 0} (xs : List A) (x : A) → length (xs ++ x ∷ []) ≡ suc (length xs)
length-snoc [] x = refl
length-snoc (y ∷ xs) x = ap suc (length-snoc xs x)

on_event-some :
    (stamp : Stamp) (e : Event) (i : CreateNotificationInput) (w : World)
    → map_event e ≡ some i
    → (on_event stamp e w).1.notifications ≡ w.notifications ++ new_notification stamp i ∷ []
unfolding on_event create
on_event-some stamp e i w mapped = rw mapped refl

on_event-length :
    (stamp : Stamp) (e : Event) (i : CreateNotificationInput) (w : World)
    → map_event e ≡ some i
    → length (on_event stamp e w).1.notifications ≡ suc (length w.notifications)
on_event-length stamp e i w mapped =
    ap length (on_event-some stamp e i w mapped)
    ∙ length-snoc w.notifications (new_notification stamp i)

module _ (add : Job → List Job → List Job) (laws : IsDeduplicating add) where
  -- Two comments by other people on one task: the in-process path creates a notification for each,
  -- but with the queue the assignee is told of the first only, while its job is held: the second
  -- comment's event changes nothing.
  pub comments_on_one_task :
      (stamp stamp' : Stamp) (e e' : CommentCreatedEvent) (assignee : Uuid) (w : World)
      → e.task_id ≡ e'.task_id
      → e.task_assignee_id ≡ some assignee
      → e'.task_assignee_id ≡ some assignee
      → assignee ≢ e.author_id
      → assignee ≢ e'.author_id
      → (length
            (on_event stamp'
              (comment_created e')
              (on_event stamp (comment_created e) w).1).1.notifications
          ≡ 2 + length w.notifications)
        × (on_event_queued add (comment_created e') (on_event_queued add (comment_created e) w).1
            ≡ (ok tt, (on_event_queued add (comment_created e) w).1))
  comments_on_one_task stamp stamp' e e' assignee w task told told' other other' =
      let i = comment_input e.task_id assignee in
      let first = map_comment_created-other e assignee told other in
      let second : map_event (comment_created e') ≡ some i =
        map_comment_created-other e' assignee told' other'
        ∙ ap (λ t. some (comment_input t assignee)) (sym task) in
      let once = on_event-length stamp (comment_created e) i w first in
      let twice =
        on_event-length stamp' (comment_created e') i (on_event stamp (comment_created e) w).1
          second in
      (
        omega arith,
        on_event_queued-on_event_queued add laws (comment_created e) (comment_created e') i i w
            first second refl,
      )
