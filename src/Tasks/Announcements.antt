-- ===== src/Tasks/Announcements.antt =====
-- modules/tasks/tasks.service.ts: the events that `update` emits.
use task_scheduling_platform.Base.{
  ℕ, ◌≡◌, refl, sym, ap, ◌∙◌, true, Option, none, some, List, [], ◌∷◌, ◌++◌, arith, append_assoc,
  In, inl, inr, ◌=?◌, Bool-cases, append-nil, if◌then◌else◌, or_else,
}
use task_scheduling_platform.Http.{Result, ok}
use task_scheduling_platform.World.{Uuid, Instant, Micros, Task, World, Event}
use task_scheduling_platform.World.Work.{TaskStatus, is_done, same_status}
use task_scheduling_platform.World.Events.{task_completed, task_assigned, task_status_changed}
use task_scheduling_platform.Exec.{continue, pure, ◌>>◌, >>=-eq-ok}
use task_scheduling_platform.Tasks.{
  UpdateTaskDto, edited, find_one_or_fail, update, emit_reassigned, emit_status, emit_completed,
  emit_assigned, save_task,
}
use task_scheduling_platform.Tasks.Moves.{find_one_or_fail-ok}

abbrev assignment : Uuid → Task → Option Uuid → List Event
assignment actor_id new none = []
assignment actor_id new (some assignee_id) =
    task_assigned (record { task_id = new.id; assignee_id = assignee_id; actor_id = actor_id }) ∷ []

abbrev completion : Uuid → Task → List Event
completion actor_id new =
    if is_done new.status
    then task_completed
        (record { task_id = new.id; actor_id = actor_id; creator_id = some new.created_by })
      ∷ []
    else []

-- What there is to tell of a change from `old` to `new` by the actor: a new assignee, a new status,
-- and a completion where the new status is DONE.
abbrev pub news : Uuid → Task → Task → List Event
news actor_id old new =
    (if new.assignee_id =? old.assignee_id then [] else assignment actor_id new new.assignee_id)
    ++ (if same_status new.status old.status
        then []
        else task_status_changed
            (record { task_id = new.id; from = old.status; to = new.status; actor_id = actor_id })
          ∷ completion actor_id new)

=?-refl : (a : Option ℕ) → (a =? a) ≡ true
=?-refl none = refl
=?-refl (some a) = ground arith

same_status_refl : (s : TaskStatus) → same_status s s ≡ true
same_status_refl s = ground arith

told : World → List Event → World
told w es = record w { events = w.events ++ es }

emit_assigned_lem :
    (task_id : Uuid) (assignee_id : Option Uuid) (actor_id : Uuid) (saved : Task) (w : World)
    → task_id ≡ saved.id
    → emit_assigned task_id assignee_id actor_id w
      ≡ (ok tt, told w (assignment actor_id saved assignee_id))
unfolding told
emit_assigned_lem task_id none actor_id saved w e =
    ap (λ es. (ok tt, record w { events = es })) (sym (append-nil w.events))
emit_assigned_lem task_id (some assignee_id) actor_id saved w e = rw e refl

emit_completed_lem :
    (saved : Task) (actor_id : Uuid) (w : World)
    → emit_completed saved actor_id w ≡ (ok tt, told w (completion actor_id saved))
unfolding told
emit_completed_lem saved actor_id w = elim (Bool-cases (is_done saved.status)) [
  | inl finished ↦ rw finished refl
  | inr unfinished ↦
      rw unfinished (ap (λ es. (ok tt, record w { events = es })) (sym (append-nil w.events)))
]

emit_reassigned_lem :
    (given : Option (Option Uuid)) (prev : Option Uuid) (saved : Task) (actor_id : Uuid) (w : World)
    → saved.assignee_id ≡ or_else given prev
    → emit_reassigned given prev saved actor_id w ≡ (
      ok tt,
      told w
          (if saved.assignee_id =? prev then [] else assignment actor_id saved saved.assignee_id),
    )
unfolding told
emit_reassigned_lem none prev saved actor_id w e =
    rw (e, =?-refl prev) (ap (λ es. (ok tt, record w { events = es })) (sym (append-nil w.events)))
emit_reassigned_lem (some given) prev saved actor_id w e = elim (Bool-cases (given =? prev)) [
  | inl same ↦
      rw (e, same) (ap (λ es. (ok tt, record w { events = es })) (sym (append-nil w.events)))
  | inr other ↦ rw (e, other) (emit_assigned_lem saved.id given actor_id saved w refl)
]

emit_status_lem :
    (given : Option TaskStatus) (prev : TaskStatus) (saved : Task) (actor_id : Uuid) (w : World)
    → saved.status ≡ or_else given prev
    → emit_status given prev saved actor_id w ≡ (
      ok tt,
      told w (
          if same_status saved.status prev
          then []
          else task_status_changed
              (record { task_id = saved.id; from = prev; to = saved.status; actor_id = actor_id })
            ∷ completion actor_id saved),
    )
unfolding told
emit_status_lem none prev saved actor_id w e =
    rw (e, same_status_refl prev)
      (ap (λ es. (ok tt, record w { events = es })) (sym (append-nil w.events)))
emit_status_lem (some given) prev saved actor_id w e = elim (Bool-cases (same_status given prev)) [
  | inl same ↦
      rw (e, same) (ap (λ es. (ok tt, record w { events = es })) (sym (append-nil w.events)))
  | inr other ↦ elim (Bool-cases (is_done given)) [
    | inl finished ↦
        rw (e, other, finished)
          (ap (λ es. (ok tt, record w { events = es }))
            (append_assoc w.events
              (task_status_changed
                  (record { task_id = saved.id; from = prev; to = given; actor_id = actor_id })
                ∷ [])
              (task_completed (record {
                task_id = saved.id;
                actor_id = actor_id;
                creator_id = some saved.created_by;
              })
                ∷ [])))
    | inr unfinished ↦ rw (e, other, unfinished) refl
  ]
]

announce :
    (dto : UpdateTaskDto) (old saved : Task) (actor_id : Uuid) (w : World)
    → saved.assignee_id ≡ or_else dto.assignee_id old.assignee_id
    → saved.status ≡ or_else dto.status old.status
    → (emit_reassigned dto.assignee_id old.assignee_id saved actor_id
          >> (emit_status dto.status old.status saved actor_id >> pure saved))
        w
      ≡ (ok saved, told w (news actor_id old saved))
unfolding told
announce dto old saved actor_id w a s =
    let first = emit_reassigned_lem dto.assignee_id old.assignee_id saved actor_id w a in
    let w' = told w (
      if saved.assignee_id =? old.assignee_id
      then []
      else assignment actor_id saved saved.assignee_id) in
    let second = emit_status_lem dto.status old.status saved actor_id w' s in
    ap
      (λ (x : Result (Unit {0}) × World).
        continue x.0 (λ _. emit_status dto.status old.status saved actor_id >> pure saved) x.1)
      first
    ∙ ap (λ (x : Result (Unit {0}) × World). continue x.0 (λ _. pure saved) x.1) second
    ∙ ap (λ es. (ok saved, record w { events = es })) (append_assoc w.events _ _)

save_task_events :
    (task saved : Task) (w w' : World)
    → save_task task w ≡ (ok saved, w')
    → (saved ≡ task) × (w'.events ≡ w.events)
save_task_events task saved w w' h = ground arith

-- A change of a task emits exactly what differs between the task before and after it, in the order
-- assignee, status, completion, whichever fields the request names.
pub update-events :
    (now : Instant) (at : Micros) (workspace_id project_id task_id actor_id : Uuid)
    (dto : UpdateTaskDto) (w w' : World) (new : Task)
    → update now at workspace_id project_id task_id actor_id dto w ≡ (ok new, w')
    → (old : Task) × In old w.tasks
      × (old.id ≡ task_id)
      × (new ≡ edited dto now at old)
      × (w'.events ≡ w.events ++ news actor_id old new)
unfolding update told
update-events now at workspace_id project_id task_id actor_id dto w w' new h =
    let (old, v, read, h') =
      >>=-eq-ok (find_one_or_fail workspace_id project_id task_id) _ w w' h in
    let (m, named, project, same) =
      find_one_or_fail-ok workspace_id project_id task_id w v old read in
    let (saved, v', written, h'') = >>=-eq-ok (save_task (edited dto now at old)) _ v w' h' in
    let (as_edited, before) = save_task_events (edited dto now at old) saved v v' written in
    let told_of =
      announce dto old saved actor_id v' (ap (λ (t : Task). t.assignee_id) as_edited)
        (ap (λ (t : Task). t.status) as_edited) in
    let both = sym told_of ∙ h'' in
    let new_is : saved ≡ new = ground arith in
    (
      old,
      m,
      named,
      sym new_is ∙ as_edited,
      ap (λ (x : Result Task × World). x.1.events) (sym both)
          ∙ ap (λ es. es ++ news actor_id old saved) (before ∙ ap (λ (x : World). x.events) same)
          ∙ ap (λ t. w.events ++ news actor_id old t) new_is,
    )
