-- ===== src/Comments/Tests.antt =====
-- Runs of CommentsService.
use task_scheduling_platform.Base.{◌≡◌, refl, none, some, [], ◌∷◌, In, save_row}
use task_scheduling_platform.Http.{ok}
use task_scheduling_platform.World.{Comment, World}
use task_scheduling_platform.World.Cascade.{delete_comment}
use task_scheduling_platform.Samples.{world, stamp}
use task_scheduling_platform.Projects
use task_scheduling_platform.Tasks
use task_scheduling_platform.Comments.{new_comment, find_one_or_fail, update, remove}
use task_scheduling_platform.Comments.Rights.{update-author_id}

abbrev said : Comment
said = new_comment (stamp 61) 32 2 (record { body = "one"; parent_comment_id = none })

abbrev with_comment : World
with_comment = record world { comments = said ∷ [] }

abbrev edited : Comment
edited = record said { body = "two"; edited_at = some 7; updated_at = 8 }

abbrev with_edited : World
with_edited = record world { comments = edited ∷ [] }

service : Unit {0}
unfolding find_one_or_fail update remove Tasks.find_one_or_fail Projects.find_one_or_fail
    delete_comment
service = tt

edit : update 7 8 10 20 32 61 2 "two" with_comment ≡ (ok edited, with_edited)
unfolding service
edit = refl

update-author_id_example :
    (old : Comment) × In old with_comment.comments
    × (old.id ≡ 61)
    × (old.author_id ≡ 2)
    × (edited ≡ record old { body = "two"; edited_at = some 7; updated_at = 8 })
    × (with_edited
        ≡ record with_comment { comments = save_row (λ c. c.id) edited with_comment.comments })
update-author_id_example =
    update-author_id 7 8 10 20 32 61 2 "two" with_comment with_edited edited edit
