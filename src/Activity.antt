-- ===== src/Activity.antt =====
-- modules/activity: ActivityService and ActivityListener.
use task_scheduling_platform.Base.{ℕ, Bool, Option, none, some, [], ◌∷◌, ◌++◌, ◌==◌, or_else}
use task_scheduling_platform.World.{Uuid, Stamp, TaskActivity, Event}
use task_scheduling_platform.World.Delivery.{
  ActivityAction, created, assigned, status_changed, completed, commented, replied, Metadata, empty,
  project, assignee, from_to, comment, reply,
}
use task_scheduling_platform.Exec.{Exec, ◌>>=◌, ◌>>◌, pure, gets, modify, lift}
use task_scheduling_platform.Pagination.{Page, list_page}
use task_scheduling_platform.Pagination.Cursor.{Text, Codec}
use task_scheduling_platform.Tasks

unfoldable pub record_activity :
    Stamp → Uuid → Option Uuid → ActivityAction → Metadata → Exec (Unit {0})
record_activity stamp task_id actor_id action metadata = modify (λ w. record w {
  activity =
      w.activity
      ++ record {
        id = stamp.id;
        task_id = task_id;
        actor_id = actor_id;
        action = action;
        metadata = metadata;
        created_at = stamp.at;
      }
        ∷ [];
})

-- Each event that the listener handles, and the row that it records.
unfoldable pub on_event : Stamp → Event → Exec (Unit {0})
unfolding record_activity
on_event stamp (Event.task_created e) =
    record_activity stamp e.task_id (some e.actor_id) created (project e.project_id)
on_event stamp (Event.task_assigned e) =
    record_activity stamp e.task_id (some e.actor_id) assigned (assignee e.assignee_id)
on_event stamp (Event.task_status_changed e) =
    record_activity stamp e.task_id (some e.actor_id) status_changed (from_to e.from e.to)
on_event stamp (Event.task_completed e) =
    record_activity stamp e.task_id (some e.actor_id) completed empty
on_event stamp (Event.comment_created e) = elim e.parent_comment_id [
  | none ↦ record_activity stamp e.task_id (some e.author_id) commented (comment e.comment_id)
  | some parent ↦
      record_activity stamp e.task_id (some e.author_id) replied (reply e.comment_id parent)
]
on_event stamp (Event.comment_replied e) = pure tt
on_event stamp (Event.notification_created n) = pure tt

pub record ListActivityQueryDto : Type 0 where
  pub limit : Option ℕ
  pub cursor : Option Text

abbrev pub listed : Uuid → TaskActivity → Bool
listed task_id a = a.task_id == task_id

unfoldable pub list_for_task :
    Codec → Uuid → Uuid → Uuid → ListActivityQueryDto → Exec (Page TaskActivity)
unfolding Tasks.find_one_or_fail
list_for_task codec workspace_id project_id task_id query = do
  Tasks.find_one_or_fail workspace_id project_id task_id
  page ← gets (λ w.
      list_page codec (λ a. a.created_at) (λ a. a.id) (listed task_id) (or_else query.limit 20)
        query.cursor w.activity)
  lift page
