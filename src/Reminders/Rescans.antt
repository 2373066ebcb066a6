-- ===== src/Reminders/Rescans.antt =====
-- modules/reminders/reminders.service.ts: a scan that is repeated.
use task_scheduling_platform.Base.{
  ℕ, suc, ◌≡◌, refl, sym, ap, ◌∙◌, subst, true, Option, List, [], ◌∷◌, In, inl, inr, exists, find,
  length,
}
use task_scheduling_platform.Http.{Result, ok}
use task_scheduling_platform.World.{Uuid, Instant, Stamp, Task, World}
use task_scheduling_platform.World.Delivery.{ReminderType, due_soon, overdue}
use task_scheduling_platform.Exec.{continue}
use task_scheduling_platform.Reminders.{
  ScanResult, Outcome, Queue, is_due_soon, is_overdue, same_key, dispatch, dispatch_all, scan,
  tally,
}
use task_scheduling_platform.Reminders.Dispatching.{
  IsReminded, AllReminded, dispatch-tasks, dispatch_again, dispatch-kept, dispatch-IsReminded,
  dispatch-ok, nothing_tallied,
}

module _ (queue : Option Queue) (stamps notes : ℕ → Stamp) (now : Instant)
    (type : ReminderType) where
  -- The loop goes on from the world that its first round left.
  dispatch_all-cons :
      (k : ℕ) (task : Task) (tasks : List Task) (s : ScanResult) (w : World)
      → (s' : ScanResult) × (dispatch_all queue stamps notes now type k (task ∷ tasks) s w
          ≡ dispatch_all queue stamps notes now type
              (suc k)
              tasks
              s'
              (dispatch queue (stamps k) (notes k) now task type w).1)
  unfolding dispatch_all
  dispatch_all-cons k task tasks s w =
      let (o, h) = dispatch-ok queue (stamps k) (notes k) now task type w in
      (
        tally o s,
        ap
            (λ (r : Result Outcome).
              continue r (λ o. dispatch_all queue stamps notes now type (suc k) tasks (tally o s))
                (dispatch queue (stamps k) (notes k) now task type w).1)
            h,
      )

  dispatch_all-tasks :
      (k : ℕ) (tasks : List Task) (s : ScanResult) (w : World)
      → (dispatch_all queue stamps notes now type k tasks s w).1.tasks ≡ w.tasks
  unfolding dispatch_all
  dispatch_all-tasks k [] s w = refl
  dispatch_all-tasks k (task ∷ tasks) s w =
      let (s', e) = dispatch_all-cons k task tasks s w in
      ap (λ (x : Result ScanResult × World). x.1.tasks) e
      ∙ dispatch_all-tasks (suc k) tasks s' (dispatch queue (stamps k) (notes k) now task type w).1
      ∙ dispatch-tasks queue (stamps k) (notes k) now task type w

  dispatch_all-kept :
      (k : ℕ) (tasks : List Task) (s : ScanResult) (w : World) (id : Uuid) (kind : ReminderType)
      (at : Instant)
      → exists (same_key id kind at) w.reminders ≡ true
      → exists
          (same_key id kind at)
          (dispatch_all queue stamps notes now type k tasks s w).1.reminders
        ≡ true
  unfolding dispatch_all
  dispatch_all-kept k [] s w id kind at here = here
  dispatch_all-kept k (task ∷ tasks) s w id kind at here =
      let (s', e) = dispatch_all-cons k task tasks s w in
      ap (λ (x : Result ScanResult × World). exists (same_key id kind at) x.1.reminders) e
      ∙ dispatch_all-kept (suc k) tasks s' (dispatch queue (stamps k) (notes k) now task type w).1
          id kind at (dispatch-kept queue (stamps k) (notes k) now task type w id kind at here)

  dispatch_all-AllReminded :
      (k : ℕ) (tasks : List Task) (s : ScanResult) (w : World)
      → AllReminded type tasks (dispatch_all queue stamps notes now type k tasks s w).1
  dispatch_all-AllReminded k [] s w t m due dated = absurd m
  dispatch_all-AllReminded k (task ∷ tasks) s w t (inl same) due dated =
      let (s', e) = dispatch_all-cons k task tasks s w in
      ap (λ (x : Result ScanResult × World). exists (same_key t.id type due) x.1.reminders) e
      ∙ dispatch_all-kept (suc k) tasks s' (dispatch queue (stamps k) (notes k) now task type w).1
          t.id type due
          (subst
            (λ (x : Task).
              IsReminded type x (dispatch queue (stamps k) (notes k) now task type w).1)
            (sym same) (dispatch-IsReminded queue (stamps k) (notes k) now task type w) due dated)
  dispatch_all-AllReminded k (task ∷ tasks) s w t (inr m) due dated =
      let (s', e) = dispatch_all-cons k task tasks s w in
      ap (λ (x : Result ScanResult × World). exists (same_key t.id type due) x.1.reminders) e
      ∙ dispatch_all-AllReminded (suc k) tasks s'
          (dispatch queue (stamps k) (notes k) now task type w).1 t m due dated

  dispatch_all_again :
      (k : ℕ) (tasks : List Task) (s : ScanResult) (w : World)
      → AllReminded type tasks w
      → dispatch_all queue stamps notes now type k tasks s w ≡ (ok s, w)
  unfolding dispatch_all
  dispatch_all_again k [] s w done = refl
  dispatch_all_again k (task ∷ tasks) s w done =
      rw (dispatch_again queue (stamps k) (notes k) now task type w (done task (inl refl))) (
        dispatch_all_again (suc k) tasks _ w (λ t m. done t (inr m))
        ∙ ap (λ r. (ok r, w)) (nothing_tallied s))

-- The counts of a scan that finds every reminder made.
abbrev pub nothing_new : Instant → List Task → ScanResult
nothing_new now tasks = record {
  scanned_due_soon = length (find (is_due_soon now) tasks);
  scanned_overdue = length (find (is_overdue now) tasks);
  created = 0;
  delivered = 0;
  enqueued = 0;
}

module _ (queue : Option Queue) (stamps notes : ℕ → Stamp) (now : Instant) where
  scan_done :
      (w : World)
      → ((t : Task) → In t (find (is_due_soon now) w.tasks) → IsReminded due_soon t w)
      → ((t : Task) → In t (find (is_overdue now) w.tasks) → IsReminded overdue t w)
      → scan queue stamps notes now w ≡ (ok (nothing_new now w.tasks), w)
  unfolding scan
  scan_done w soon late =
      rw
        (dispatch_all_again queue stamps notes now due_soon 0 (find (is_due_soon now) w.tasks)
          (nothing_new now w.tasks) w soon)
        (dispatch_all_again queue stamps notes now overdue (length (find (is_due_soon now) w.tasks))
          (find (is_overdue now) w.tasks) (nothing_new now w.tasks) w late)

  dispatch_all-ok :
      (type : ReminderType) (k : ℕ) (tasks : List Task) (s : ScanResult) (w : World)
      → (r : ScanResult) × ((dispatch_all queue stamps notes now type k tasks s w).0 ≡ ok r)
  unfolding dispatch_all
  dispatch_all-ok type k [] s w = (s, refl)
  dispatch_all-ok type k (task ∷ tasks) s w =
      let (s', e) = dispatch_all-cons queue stamps notes now type k task tasks s w in
      let (r, h) =
        dispatch_all-ok type (suc k) tasks s'
          (dispatch queue (stamps k) (notes k) now task type w).1 in
      (r, ap (λ (x : Result ScanResult × World). x.0) e ∙ h)

  abbrev after_first : World → World
  after_first w =
      (dispatch_all queue stamps notes now due_soon 0 (find (is_due_soon now) w.tasks)
        (nothing_new now w.tasks) w).1

  scan_world :
      (w : World)
      → (s : ScanResult) × ((scan queue stamps notes now w).1
          ≡ (dispatch_all queue stamps notes now overdue
              (length (find (is_due_soon now) w.tasks))
              (find (is_overdue now) w.tasks)
              s
              (after_first w)).1)
  unfolding scan
  scan_world w =
      let (s, h) =
        dispatch_all-ok due_soon 0 (find (is_due_soon now) w.tasks) (nothing_new now w.tasks) w in
      (
        s,
        ap
            (λ (r : Result ScanResult).
              (continue r
                (λ s.
                  dispatch_all queue stamps notes now overdue
                    (length (find (is_due_soon now) w.tasks)) (find (is_overdue now) w.tasks) s)
                (after_first w)).1)
            h,
      )

  -- After a scan, both kinds of task have their reminders, and the tasks are as before.
  pub scanned :
      (w : World)
      → ((scan queue stamps notes now w).1.tasks ≡ w.tasks)
        × ((t : Task)
            → In t (find (is_due_soon now) w.tasks)
            → IsReminded due_soon t (scan queue stamps notes now w).1)
        × ((t : Task)
            → In t (find (is_overdue now) w.tasks)
            → IsReminded overdue t (scan queue stamps notes now w).1)
  scanned w =
      let soon = find (is_due_soon now) w.tasks in
      let late = find (is_overdue now) w.tasks in
      let (s, e) = scan_world w in
      let first =
        dispatch_all-AllReminded queue stamps notes now due_soon 0 soon (nothing_new now w.tasks)
          w in
      let last =
        dispatch_all-AllReminded queue stamps notes now overdue (length soon) late s
          (after_first w) in
      (
        ap (λ (x : World). x.tasks) e
            ∙ dispatch_all-tasks queue stamps notes now overdue (length soon) late s (after_first w)
            ∙ dispatch_all-tasks queue stamps notes now due_soon 0 soon (nothing_new now w.tasks) w,
        λ t m due dated.
            ap (λ (x : World). exists (same_key t.id due_soon due) x.reminders) e
            ∙ dispatch_all-kept queue stamps notes now overdue (length soon) late s (after_first w)
                t.id due_soon due (first t m due dated),
        λ t m. subst (IsReminded overdue t) (sym e) (last t m),
      )

-- A second scan at the same time of the clock makes no reminder, sends no notification and adds no
-- job: it changes nothing at all, with a queue and without. It counts the same tasks.
pub scan-scan :
    (queue : Option Queue) (stamps notes stamps' notes' : ℕ → Stamp) (now : Instant) (w : World)
    → scan queue stamps' notes' now (scan queue stamps notes now w).1
      ≡ (ok (nothing_new now w.tasks), (scan queue stamps notes now w).1)
scan-scan queue stamps notes stamps' notes' now w =
    let (same, soon, late) = scanned queue stamps notes now w in
    let v = (scan queue stamps notes now w).1 in
    scan_done queue stamps' notes' now v
      (λ t m. soon t (subst (λ ts. In t (find (is_due_soon now) ts)) same m))
      (λ t m. late t (subst (λ ts. In t (find (is_overdue now) ts)) same m))
    ∙ ap (λ tasks. (ok (nothing_new now tasks), v)) same
