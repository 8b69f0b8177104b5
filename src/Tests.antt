-- ===== src/Tests.antt =====
-- Runs of the model, and the theorems at concrete inputs.
mod Versions
mod Cron
mod Rows
mod Live
mod Log
mod Planned
mod Interrupts
mod Gateway
mod Updates
mod Secrets
mod Templates
mod Watches
mod Results
mod Found
mod Sent
mod Refreshes
