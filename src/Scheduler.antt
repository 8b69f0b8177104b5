-- ===== src/Scheduler.antt =====
-- internal/scheduler/scheduler.go: the worker that turns due tasks into queued turns. What concerns
-- Codex sessions is complete; queueing a Gemini or Claude turn is a parameter.
pub mod Thinking
pub mod Decisions
pub mod Codex
pub mod Tick
pub mod Release
pub mod Supported
pub mod Workers
