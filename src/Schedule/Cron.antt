-- ===== src/Schedule/Cron.antt =====
-- internal/schedule/schedule.go, `Parse` and `Next`.
use my_wio.Base.{
  ℕ, zero, suc, ◌+◌, ◌*◌, ◌/◌, Bool, true, false, ◌&&◌, ◌||◌, not, Option, none, some, List, [],
  ◌∷◌, ltb, if◌then◌else◌, map, ℤ, pos, negsuc,
}
use my_wio.Text.{Text, codes, trim_space, has_prefix, trim_prefix, fields, to_lower, text_eq}
use my_wio.Schedule.Calendar.{
  Location, utc, minute_ns, minute_of, hour_of, day_of, month_of, weekday_of,
}
use my_wio.Schedule.Field.{FieldError, FieldSet, has, parse_field, Parsed, parsed, invalid, ◌>>=◌}

pub data Part : Type 0 where
  minute_part hour_part day_part month_part weekday_part : Part

-- The errors that wrap `ErrInvalid`, one for each message.
pub data ScheduleError : Type 0 where
  schedule_is_empty every_too_short not_five_fields unknown_timezone no_matching_time :
      ScheduleError
  bad_field : Part → FieldError → ScheduleError

-- A cron `Spec` has no `Every`, and one with `Every` has no fields.
pub record CronSpec : Type 0 where
  pub minute : FieldSet
  pub hour : FieldSet
  pub day : FieldSet
  pub month : FieldSet
  pub weekday : FieldSet

pub data Spec : Type 0 where
  every : ℕ → Spec
  cron : CronSpec → Spec

unfoldable pub parse_part : Part → Text → ℕ → ℕ → Bool → Parsed ScheduleError FieldSet
parse_part part raw minimum maximum sunday_seven =
    elim (parse_field raw minimum maximum sunday_seven) [
      | parsed f ↦ parsed f
      | invalid e ↦ invalid (bad_field part e)
    ]

-- The abbreviations of the `switch`.
unfoldable pub expand : Text → Text
expand expression =
    let lower = map to_lower expression in
    if text_eq lower (codes "@hourly")
    then codes "0 * * * *"
    else if text_eq lower (codes "@daily")
    then codes "0 0 * * *"
    else if text_eq lower (codes "@weekly")
    then codes "0 0 * * 0"
    else if text_eq lower (codes "@monthly")
    then codes "0 0 1 * *"
    else expression

unfoldable pub parse_fields : List Text → Parsed ScheduleError Spec
unfolding parse_part
parse_fields (m ∷ h ∷ d ∷ mo ∷ w ∷ []) = parse_part minute_part m 0 59 false >>= λ minute.
    parse_part hour_part h 0 23 false >>= λ hour. parse_part day_part d 1 31 false >>= λ day.
    parse_part month_part mo 1 12 false >>= λ month.
    parse_part weekday_part w 0 7 true >>= λ weekday.
    parsed
      (cron (record { minute = minute; hour = hour; day = day; month = month; weekday = weekday }))
parse_fields _ = invalid not_five_fields

-- `time.ParseDuration` works with floating-point fractions, so it is a parameter: `none` is its
-- error, and a duration counts nanoseconds. `time.LoadLocation` reads the time zone database.
module _ (parse_duration : Text → Option ℤ) (load_location : Text → Option Location) where
  unfoldable pub parse_every : Text → Parsed ScheduleError Spec
  parse_every s = elim (parse_duration s) [
    | none ↦ invalid every_too_short
    | some (negsuc _) ↦ invalid every_too_short
    | some (pos d) ↦ if ltb d minute_ns then invalid every_too_short else parsed (every d)
  ]

  unfoldable pub parse : Text → Parsed ScheduleError Spec
  unfolding parse_every
  parse untrimmed =
      let expression = trim_space untrimmed in
      if text_eq expression []
      then invalid schedule_is_empty
      else if has_prefix expression (codes "@every ")
      then parse_every (trim_space (trim_prefix expression (codes "@every ")))
      else parse_fields (fields (expand expression))

  unfoldable pub location_of : Text → Parsed ScheduleError Location
  location_of timezone =
      if text_eq (trim_space timezone) []
      then parsed utc
      else elim (load_location (trim_space timezone)) [
        | none ↦ invalid unknown_timezone
        | some location ↦ parsed location
      ]

-- The test of one candidate minute. Vixie cron: when both day fields are restricted, either may
-- match.
unfoldable pub matches : CronSpec → Location → ℕ → Bool
matches spec location candidate =
    let local = location candidate in
    let day_matches = has spec.day.values (day_of local) in
    let weekday_matches = has spec.weekday.values (weekday_of local) in
    let days =
      if not spec.day.any_value && not spec.weekday.any_value
      then day_matches || weekday_matches
      else day_matches && weekday_matches in
    has spec.minute.values (minute_of local)
    && has spec.hour.values (hour_of local)
    && has spec.month.values (month_of local)
    && days

-- The loop over the candidates, from a minute on.
unfoldable pub search_from : CronSpec → Location → ℕ → ℕ → Option ℕ
search_from spec location zero candidate = none
search_from spec location (suc rounds) candidate =
    let rest = search_from spec location rounds (candidate + 1) in
    if matches spec location candidate then some candidate else rest

-- Five years of minutes.
unfoldable pub search_rounds : ℕ
search_rounds = 5 * 366 * 24 * 60

unfoldable pub next_cron : CronSpec → Location → ℕ → Parsed ScheduleError ℕ
next_cron spec location after =
    elim (search_from spec location search_rounds (after / minute_ns + 1)) [
      | none ↦ invalid no_matching_time
      | some candidate ↦ parsed (candidate * minute_ns)
    ]

module _ (parse_duration : Text → Option ℤ) (load_location : Text → Option Location) where
  unfoldable pub next : Text → Text → ℕ → Parsed ScheduleError ℕ
  unfolding next_cron
  next expression timezone after = parse parse_duration load_location expression >>= elim [
    | every d ↦ parsed (after + d)
    | cron spec ↦ location_of parse_duration load_location timezone >>= λ location.
        next_cron spec location after
  ]
