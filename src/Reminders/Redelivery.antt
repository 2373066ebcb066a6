-- ===== src/Reminders/Redelivery.antt =====
-- modules/reminders/reminders.service.ts: a reminder that is delivered a second time.
use task_scheduling_platform.Base.{
  ◌+◌, ◌≡◌, refl, sym, subst, ap, ◌∙◌, Bool, true, false, Option, none, some, List, [], ◌∷◌, arith,
  ◌==◌, if◌then◌else◌, Bool-cases, Option-cases, find_one, update_where, In-find_one, inl, inr,
}
use task_scheduling_platform.Http.{Result, ok, err, internal}
use task_scheduling_platform.World.{Uuid, Instant, Stamp, Reminder, World}
use task_scheduling_platform.World.Delivery.{sent}
use task_scheduling_platform.Notifications
use task_scheduling_platform.Reminders.{is_sent, Call, find_reminder, deliver_reminder}

find_one-updated :
    {A : Type 0} (p : A → Bool) (f : A → A) (xs : List A) {a : A}
    → ((b : A) → p (f b) ≡ p b)
    → find_one p xs ≡ some a
    → find_one p (update_where p f xs) ≡ some (f a)
find_one-updated p f [] k h = cc
find_one-updated p f (x ∷ xs) {a} k h = ground (arith, k x, find_one-updated p f xs {a = a} k)

-- What an attempt answers that finds no reminder to send.
abbrev pub idle : (broken : Call → Bool) → Result (Unit {0})
idle broken = if broken find_reminder then err (internal "Connection terminated") else ok tt

module _ (broken : Call → Bool) (note : Stamp) (now : Instant) (id : Uuid) where
  abbrev found : World → Option Reminder
  found w = find_one (λ r. r.id == id) w.reminders

  abbrev after : World → Result (Unit {0}) × World
  after w = deliver_reminder broken note now id w

  sent_already :
      (w : World) (r : Reminder)
      → found w ≡ some r
      → is_sent r.status ≡ true
      → after w ≡ (idle broken, w)
  unfolding deliver_reminder
  sent_already w r there done = ground (arith, there, done)

  unknown : (w : World) → found w ≡ none → after w ≡ (idle broken, w)
  unfolding deliver_reminder
  unknown w missing = ground (arith, missing)

  -- After a delivery that succeeded the reminder is SENT.
  delivered :
      (w w' : World) (r : Reminder)
      → found w ≡ some r
      → is_sent r.status ≡ false
      → after w ≡ (ok tt, w')
      → (r' : Reminder) × (found w' ≡ some r') × (is_sent r'.status ≡ true)
  unfolding deliver_reminder Notifications.create
  delivered w w' r there open_one h =
      let (m, e) = In-find_one (λ r. r.id == id) w.reminders there in
      let same : r.id ≡ id = ground arith in
      let f : Reminder → Reminder =
        λ x. record x { status = sent; sent_at = some now; attempts = r.attempts + 1 } in
      let updated : w'.reminders ≡ update_where (λ x. x.id == id) f w.reminders = ground arith in
      (
        f r,
        ap (λ rows. find_one (λ (x : Reminder). x.id == id) rows) updated
            ∙ find_one-updated (λ x. x.id == id) f w.reminders (λ b. refl) there,
        refl,
      )

-- A delivery that succeeded is not repeated: a later attempt at the same reminder, whichever calls of
-- the database fail in the first or in the second, changes nothing, and it fails only where its look-up
-- of the reminder does.
pub deliver_reminder-deliver_reminder :
    (broken broken' : Call → Bool) (note note' : Stamp) (now now' : Instant) (id : Uuid)
    (w w' : World)
    → deliver_reminder broken note now id w ≡ (ok tt, w')
    → deliver_reminder broken' note' now' id w' ≡ (idle broken', w')
deliver_reminder-deliver_reminder broken broken' note note' now now' id w w' h =
    elim (Option-cases (found broken note now id w)) [
      | inl missing ↦
          let same : w ≡ w' =
            ap (λ (p : Result (Unit {0}) × World). p.1)
              (sym (unknown broken note now id w missing) ∙ h) in
          unknown broken' note' now' id w'
            (subst (λ v. found broken note now id v ≡ none) same missing)
      | inr (r, there) ↦ elim (Bool-cases (is_sent r.status)) [
        | inl done ↦
            let same : w ≡ w' =
              ap (λ (p : Result (Unit {0}) × World). p.1)
                (sym (sent_already broken note now id w r there done) ∙ h) in
            sent_already broken' note' now' id w' r
              (subst (λ v. found broken note now id v ≡ some r) same there) done
        | inr open_one ↦
            let (r', there', done) = delivered broken note now id w w' r there open_one h in
            sent_already broken' note' now' id w' r' there' done
      ]
    ]
