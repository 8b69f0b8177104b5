-- ===== src/Schedule/Calendar.antt =====
-- The part of Go's `time` that internal/schedule/schedule.go reads: a candidate's minute, hour, day,
-- month and weekday. Time is counted in nanoseconds since 1970 (UTC); earlier times are left out.
use my_wio.Base.{ℕ, ◌+◌, ◌-◌, ◌*◌, ◌/◌, ◌%◌, ltb, if◌then◌else◌}

-- One minute, as a `time.Duration`.
abbrev pub minute_ns : ℕ
minute_ns = 60 * 1000000000

-- A `*time.Location`: the local minutes since 1970 at a minute of UTC. Zones come from the time
-- zone database; offsets are whole minutes.
abbrev pub Location : Type 0
Location = ℕ → ℕ

abbrev pub utc : Location
utc m = m

-- Days since 0000-03-01 in the cycle of 400 years, and the day of a year that begins in March.
day_of_era : ℕ → ℕ
day_of_era days = (days + 719468) % 146097

year_of_era : ℕ → ℕ
year_of_era doe = (doe - doe / 1460 + doe / 36524 - doe / 146096) / 365

day_of_year : ℕ → ℕ
unfolding year_of_era
day_of_year doe = let y = year_of_era doe in doe - (365 * y + y / 4 - y / 100)

unfoldable pub minute_of : ℕ → ℕ
minute_of local = local % 60

unfoldable pub hour_of : ℕ → ℕ
hour_of local = local / 60 % 24

unfoldable pub day_of : ℕ → ℕ
unfolding day_of_era day_of_year
day_of local =
    let doy = day_of_year (day_of_era (local / 1440)) in
    let mp = (5 * doy + 2) / 153 in doy - (153 * mp + 2) / 5 + 1

unfoldable pub month_of : ℕ → ℕ
unfolding day_of_era day_of_year
month_of local =
    let mp = (5 * day_of_year (day_of_era (local / 1440)) + 2) / 153 in
    if ltb mp 10 then mp + 3 else mp - 9

-- Sunday is 0; 1 January 1970 was a Thursday.
unfoldable pub weekday_of : ℕ → ℕ
weekday_of local = (local / 1440 + 4) % 7
