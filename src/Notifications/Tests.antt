-- ===== src/Notifications/Tests.antt =====
-- Runs of NotificationsService and its listeners.
use task_scheduling_platform.Base.{
  ℕ, suc, ◌≡◌, ◌≢◌, refl, Bool, true, false, ◌&&◌, none, some, List, [], ◌∷◌, ◌++◌, ◌==◌, ◌=?◌,
  arith, In, inl, inr, length, if◌then◌else◌, exists, Bool-cases, exists-In, exists-witness,
  snoc-In, subst,
}
use task_scheduling_platform.Http.{ok}
use task_scheduling_platform.World.{CreateNotificationInput, Job, World}
use task_scheduling_platform.World.Delivery.{
  NotificationType, task_due_soon, task_overdue, task_completed, comment_added, comment_reply,
  workspace_invite,
}
use task_scheduling_platform.World.Events.{
  CommentCreatedEvent, comment_created, deliver, send_reminder, JobId,
}
use task_scheduling_platform.Samples.{world, stamp}
use task_scheduling_platform.Notifications.{
  new_notification, unread_count, mark_all_read, on_event, on_event_queued,
}
use task_scheduling_platform.Notifications.Mapping.{
  map_event, map_comment_created, comment_input, actor_of,
}
use task_scheduling_platform.Notifications.Recipients.{
  map_event-recipient_id, mark_all_read-unread_count,
}
use task_scheduling_platform.Notifications.Queueing.{IsDeduplicating, comments_on_one_task}

-- A queue that compares the recipient, the kind and the entity.
abbrev kind : JobId → ℕ
kind id = elim id.type [
  | NotificationType.task_assigned ↦ 0
  | task_due_soon ↦ 1
  | task_overdue ↦ 2
  | task_completed ↦ 3
  | comment_added ↦ 4
  | comment_reply ↦ 5
  | workspace_invite ↦ 6
]

abbrev same_id : JobId → JobId → Bool
same_id a b = a.recipient_id == b.recipient_id && kind a == kind b && a.entity_id =? b.entity_id

abbrev is_under : JobId → Job → Bool
is_under id (deliver other i) = same_id id other
is_under id (send_reminder r) = false

same_id_refl : (a : JobId) → same_id a a ≡ true
same_id_refl a = ground arith

same_id-eq : (a b : JobId) → same_id a b ≡ true → b ≡ a
same_id-eq a b h = ground arith

abbrev add : Job → List Job → List Job
add (deliver id i) jobs = if exists (is_under id) jobs then jobs else jobs ++ deliver id i ∷ []
add (send_reminder r) jobs = jobs ++ send_reminder r ∷ []

is_under-deliver :
    (id : JobId) (job : Job) (jobs : List Job)
    → In job jobs
    → is_under id job ≡ true
    → (i : CreateNotificationInput) × In (deliver id i) jobs
is_under-deliver id (deliver other i) jobs m h =
    (i, subst (λ d. In (deliver d i) jobs) (same_id-eq id other h) m)
is_under-deliver id (send_reminder r) jobs m h = ground arith

add-IsDeduplicating : IsDeduplicating add
add-IsDeduplicating = record {
  add_again = λ id i j jobs m. rw (exists-In (is_under id) jobs m (same_id_refl id)) refl;
  holds_added = λ id j jobs. elim (Bool-cases (exists (is_under id) jobs)) [
    | inl held ↦
        let (job, m, h) = exists-witness (is_under id) jobs held in
        rw held (is_under-deliver id job jobs m h)
    | inr free ↦ rw free (j, snoc-In (deliver id j) (deliver id j) jobs (inr refl))
  ];
}

-- Two comments of user 1 on task 32, which is assigned to user 2.
abbrev comment_event : ℕ → CommentCreatedEvent
comment_event id = record {
  comment_id = id;
  task_id = 32;
  author_id = 1;
  parent_comment_id = none;
  task_assignee_id = some 2;
}

service : Unit {0}
unfolding map_event map_comment_created comment_input
service = tt

told : map_event (comment_created (comment_event 61)) ≡ some (comment_input 32 2)
unfolding service
told = refl

map_event-recipient_id_example : actor_of (comment_created (comment_event 61)) ≢ some 2
unfolding comment_input
map_event-recipient_id_example =
    map_event-recipient_id (comment_created (comment_event 61)) (comment_input 32 2) told

comments_on_one_task_example :
    (length
        (on_event
          (stamp 2)
          (comment_created (comment_event 62))
          (on_event (stamp 1) (comment_created (comment_event 61)) world).1).1.notifications
      ≡ suc (suc (length world.notifications)))
    × (on_event_queued add
          (comment_created (comment_event 62))
          (on_event_queued add (comment_created (comment_event 61)) world).1
        ≡ (ok tt, (on_event_queued add (comment_created (comment_event 61)) world).1))
comments_on_one_task_example =
    comments_on_one_task add add-IsDeduplicating (stamp 1) (stamp 2) (comment_event 61)
      (comment_event 62) 2 world refl refl refl (λ h. ground arith) (λ h. ground arith)

abbrev two_unread : World
two_unread = record world {
  notifications =
      new_notification (stamp 71) (comment_input 32 2)
      ∷ new_notification (stamp 72) (comment_input 33 2)
      ∷ [];
}

mark_all_read-unread_count_example :
    ((mark_all_read 9 2 two_unread).0 ≡ (unread_count 2 two_unread).0)
    × ((unread_count 2 (mark_all_read 9 2 two_unread).1).0 ≡ ok 0)
mark_all_read-unread_count_example = mark_all_read-unread_count 9 2 two_unread
