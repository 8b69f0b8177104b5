-- ===== src/Tests/Cron.antt =====
-- Runs of internal/schedule/schedule.go.
use my_wio.Base.{
  ℕ, ◌+◌, ◌*◌, ◌<◌, ◌≡◌, refl, true, false, Option, none, some, List, [], ◌∷◌, ℤ, pos,
  if◌then◌else◌,
}
use my_wio.Text.{
  Text, codes, trim_space, trim_prefix, has_prefix, fields, to_lower, split, count_of, cut_at, atoi,
  text_eq,
}
use my_wio.Schedule.Calendar.{
  Location, utc, minute_ns, minute_of, hour_of, day_of, month_of, weekday_of,
}
use my_wio.Schedule.Field.{
  FieldSet, range_values, key, parse_step, parse_range, check_range, parse_number, parse_item,
  parse_items, parse_field, field_of, Parsed, parsed, invalid,
}
use my_wio.Schedule.Cron.{
  ScheduleError, not_five_fields, every_too_short, CronSpec, cron, expand, parse_part, parse_fields,
  parse_every, parse, location_of, matches, search_from, search_rounds, next_cron, next,
}
use my_wio.Schedule.NextLaws.{next_first}

-- Two durations that the parameter knows, and no time zones.
abbrev durations : Text → Option ℤ
durations s = if text_eq s (codes "90m") then some (pos (90 * minute_ns)) else none

abbrev no_zones : Text → Option Location
no_zones s = none

-- 2026-01-01 00:00 UTC, a Thursday.
abbrev new_year : ℕ
new_year = 1767225600 * 1000000000

run : Text → ℕ → Parsed ScheduleError ℕ
unfolding next next_cron parse parse_every parse_fields parse_part parse_field parse_items
    parse_item parse_step parse_range check_range parse_number field_of range_values key trim_space
    trim_prefix has_prefix fields expand to_lower split count_of cut_at atoi location_of search_from
    search_rounds matches minute_of hour_of day_of month_of weekday_of
run expression after = next durations no_zones expression [] after

runs :
    (run (codes "*/15 * * * *") new_year ≡ parsed (new_year + 15 * minute_ns))
    × (run (codes "30 9 * * 1-5") (new_year + 1) ≡ parsed (new_year + 570 * minute_ns))
    × (run (codes "0 0 * * 7") new_year ≡ parsed (new_year + 3 * 1440 * minute_ns))
    × (run (codes " @DAILY ") new_year ≡ parsed (new_year + 1440 * minute_ns))
    × (run (codes "@every 90m") new_year ≡ parsed (new_year + 90 * minute_ns))
    × (run (codes "@every 1s") new_year ≡ invalid every_too_short)
    × (run (codes "* * * *") new_year ≡ invalid not_five_fields)
unfolding run
runs = (refl, refl, refl, refl, refl, refl, refl)

-- 9:30 on 1 January and on the Mondays of January.
abbrev monday_spec : CronSpec
monday_spec = record {
  minute = record { values = pos 30 ∷ []; any_value = false };
  hour = record { values = pos 9 ∷ []; any_value = false };
  day = record { values = pos 1 ∷ []; any_value = false };
  month = record { values = pos 1 ∷ []; any_value = false };
  weekday = record { values = pos 1 ∷ []; any_value = false };
}

abbrev monday : Text
monday = codes "30 9 1 1 1"

monday_parsed : parse durations no_zones monday ≡ parsed (cron monday_spec)
unfolding run
monday_parsed = refl

utc_located : location_of durations no_zones [] ≡ parsed utc
unfolding run
utc_located = refl

monday_runs : next durations no_zones monday [] new_year ≡ parsed (new_year + 570 * minute_ns)
unfolding run
monday_runs = refl

next_first_example :
    (m : ℕ) × (new_year + 570 * minute_ns ≡ m * minute_ns)
    × (new_year < new_year + 570 * minute_ns)
    × (matches monday_spec utc m ≡ true)
    × ((k : ℕ) → new_year < k * minute_ns → k < m → matches monday_spec utc k ≡ false)
next_first_example =
    next_first durations no_zones monday [] new_year monday_parsed utc_located monday_runs

abbrev weekend : FieldSet
weekend = record { values = pos 6 ∷ pos 0 ∷ []; any_value = false }

weekend_parsed : parse_field (codes "6-7") 0 7 true ≡ parsed weekend
unfolding run
weekend_parsed = refl

-- Every twentieth minute from 5 to 50.
abbrev twentieths : List ℤ
twentieths = pos 5 ∷ pos 25 ∷ pos 45 ∷ []
