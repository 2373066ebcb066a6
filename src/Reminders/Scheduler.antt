-- ===== src/Reminders/Scheduler.antt =====
-- modules/reminders/scheduler.service.ts. A scan is asynchronous: ticks of the cron may fall between
-- its start and its end, and the flag `running` keeps them from starting another one.
use task_scheduling_platform.Base.{
  ℕ, suc, ◌≤◌, ◌<◌, ◌≡◌, refl, Bool, true, false, arith, if◌then◌else◌, ltb,
}
use task_scheduling_platform.Http.{Result, ok, err}
use task_scheduling_platform.World.{World}
use task_scheduling_platform.Exec.{Exec}
use task_scheduling_platform.Reminders.{ScanResult}

-- `started` and `settled` count the scans that were called, and those of them that came to an end.
pub record State : Type 0 where
  pub running : Bool
  pub started : ℕ
  pub settled : ℕ
  pub world : World

abbrev pub initial : World → State
initial w = record { running = false; started = 0; settled = 0; world = w }

-- `handleReminderScan` up to its `await`.
unfoldable pub tick : State → State
tick s = if s.running then s else record s { running = true; started = suc s.started }

-- The rest of it: `catch` takes an error of the scan, and `finally` resets the flag.
abbrev pub finish : Result ScanResult → State → State
finish (ok result) s = record s { running = false }
finish (err e) s = record s { running = false }

-- The scan of this tick comes to an end. `scan` is RemindersService.scan, with the errors that the
-- database may throw in it.
unfoldable pub settle : Exec ScanResult → State → State
settle scan s =
    let (r, w) = scan s.world in finish r (record s { settled = suc s.settled; world = w })

module _ (scan : Exec ScanResult) where
  -- What the worker does next: a tick, or the end of a scan in flight.
  pub data Step : State → State → Type 0 where
    ticked : (s : State) → Step s (tick s)
    ended : (s : State) → s.settled < s.started → Step s (settle scan s)

  pub data Reach : State → State → Type 0 where
    start : (s : State) → Reach s s
    next : {s t u : State} → Reach s t → Step t u → Reach s u

  -- The flag says whether a scan is in flight.
  abbrev IsGuarded : State → Type 0
  IsGuarded s = s.started ≡ (if s.running then suc s.settled else s.settled)

  tick-IsGuarded : (s : State) → IsGuarded s → IsGuarded (tick s)
  unfolding tick
  tick-IsGuarded s h = ground arith

  settle-started : (s : State) → (settle scan s).started ≡ s.started
  unfolding settle
  settle-started s = ground arith

  settle-settled : (s : State) → (settle scan s).settled ≡ suc s.settled
  unfolding settle
  settle-settled s = ground arith

  settle-running : (s : State) → (settle scan s).running ≡ false
  unfolding settle
  settle-running s = ground arith

  settle-IsGuarded : (s : State) → s.settled < s.started → IsGuarded s → IsGuarded (settle scan s)
  settle-IsGuarded s h k = ground (arith, settle-started s, settle-settled s, settle-running s)

  Reach-IsGuarded : (s t : State) → Reach s t → IsGuarded s → IsGuarded t
  Reach-IsGuarded s t (start _) h = h
  Reach-IsGuarded s t (next {t = u} r (ticked _)) h = tick-IsGuarded u (Reach-IsGuarded s u r h)
  Reach-IsGuarded s t (next {t = u} r (ended _ flying)) h =
      settle-IsGuarded u flying (Reach-IsGuarded s u r h)

  -- Over every sequence of ticks and ends of scans, scans that fail included: at most one scan is in
  -- flight at a time, the flag is up exactly while one is, a tick starts a scan unless one is in flight,
  -- and once the scan of a tick came to an end the next tick starts one.
  pub Reach-tick :
      (w : World) (s : State)
      → Reach (initial w) s
      → (s.started ≤ suc s.settled)
        × (s.running ≡ ltb s.settled s.started)
        × ((tick s).started ≡ (if ltb s.settled s.started then s.started else suc s.started))
        × ((tick (settle scan s)).started ≡ suc s.started)
  unfolding tick
  Reach-tick w s r =
      let h = Reach-IsGuarded (initial w) s r refl in
      (ground arith, ground arith, ground arith, ground (arith, settle-started s, settle-running s))
