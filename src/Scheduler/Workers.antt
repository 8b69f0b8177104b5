-- ===== src/Scheduler/Workers.antt =====
-- Two control-plane workers do not both run one due time of a task.
use my_wio.Base.{
  ℕ, ◌+◌, ◌*◌, ◌≤◌, ◌<◌, String, ◌≡◌, ◌⊎◌, inl, inr, refl, Bool, false, Option, some, arith, ℤ,
}
use my_wio.Text.{Text}
use my_wio.Schedule.Calendar.{Location, minute_ns}
use my_wio.Schedule.Field.{Parsed, parsed, invalid}
use my_wio.Schedule.Cron.{ScheduleError, Spec, CronSpec, every, cron, parse, location_of, next}
use my_wio.Schedule.NextLaws.{next_first, parse-every}
use my_wio.Store.Tasks.{TaskTables, claim_scheduled_task}
use my_wio.Store.Tasks.Claims.{claim_scheduled_task_once}

module _ (parse_duration : Text → Option ℤ) (load_location : Text → Option Location)
    (expression timezone : Text) (now : ℕ) where
  abbrev IsEvery : Type 0
  IsEvery = (d : ℕ) × (parse parse_duration load_location expression ≡ parsed (every d))

  -- The next run lies a minute or more after the due time.
  next_later :
      (expected k : ℕ) {t : ℕ}
      → expected ≤ now
      → IsEvery ⊎ (expected ≡ k * minute_ns)
      → next parse_duration load_location expression timezone now ≡ parsed t
      → expected + 1 < t
  unfolding next
  next_later expected k {t} due whole h = go (parse parse_duration load_location expression) refl
    where
      by_minute :
          (spec : CronSpec)
          → parse parse_duration load_location expression ≡ parsed (cron spec)
          → expected ≡ k * minute_ns
          → (l : Parsed ScheduleError Location)
          → location_of parse_duration load_location timezone ≡ l
          → expected + 1 < t
      by_minute spec p e (parsed location) l =
          let (m, at, after, hit, first) =
            next_first parse_duration load_location expression timezone now p l h in
          omega arith
      by_minute spec p e (invalid x) l = ground arith

      go :
          (r : Parsed ScheduleError Spec)
          → parse parse_duration load_location expression ≡ r
          → expected + 1 < t
      go (invalid x) p = ground arith
      go (parsed (every d)) p =
          ground (arith, parse-every parse_duration load_location expression timezone now {d = d} p)
      go (parsed (cron spec)) p = elim whole [
        | inl (d, q) ↦ absurd (ground arith)
        | inr e ↦ by_minute spec p e (location_of parse_duration load_location timezone) refl
      ]

  -- The statements of two workers that read the same due row: once one of them has tried to claim it
  -- for the next run that its schedule gives, the other one cannot claim it and changes nothing, be
  -- the schedule an @every duration or the due time a whole minute, as the times of cron schedules
  -- are.
  pub one_worker_claims :
      (id : String) (expected k t t' at at' : ℕ) (tables tables' : TaskTables) {won : Bool}
      → expected ≤ now
      → IsEvery ⊎ (expected ≡ k * minute_ns)
      → next parse_duration load_location expression timezone now ≡ parsed t
      → claim_scheduled_task id expected t at tables ≡ some (tables', won)
      → claim_scheduled_task id expected t' at' tables' ≡ some (tables', false)
  one_worker_claims id expected k t t' at at' tables tables' due whole run claim =
      claim_scheduled_task_once id expected t t' at at' tables tables'
        (next_later expected k due whole run) claim
