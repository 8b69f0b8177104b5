-- ===== src/Schedule.antt =====
-- internal/schedule/schedule.go: five-field cron expressions and the search for the next run.
pub mod Calendar
pub mod Field
pub mod Cron
pub mod FieldLaws
pub mod NextLaws
pub mod FieldErrors
