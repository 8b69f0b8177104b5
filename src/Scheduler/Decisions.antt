-- ===== src/Scheduler/Decisions.antt =====
-- internal/scheduler/scheduler.go: whether a due task of a Gemini or Claude session is queued, and
-- with which model, mode and level.
use my_wio.Base.{String, Bool, ◌&&◌, ◌||◌, not, str_eq, if◌then◌else◌}
use my_wio.Text.{codes, trim_space, text_eq, Text}
use my_wio.BuildInfo.Features.{
  supports_gemini, supports_gemini_yolo, supports_gemini_thinking, supports_claude_input,
}
use my_wio.Store.Tasks.{Task}
use my_wio.Scheduler.Thinking.{valid_thinking_level}

-- What the scheduler reads of a session, `mode` being its approval or permission mode.
pub record Session : Type 0 where
  pub server_id : String
  pub server_status : String
  pub is_archived : Bool
  pub recovery_pending : Bool
  pub status : String
  pub agent_version : String
  pub model : String
  pub mode : String
  pub thinking_level : String

-- A run that does not happen, with the status and the message that the task gets, or the turn.
pub data Decision : Type 0 where
  rejects : (status message : String) → Decision
  queues : (model mode level : String) → Decision

unfoldable pub is_working : String → Bool
is_working status =
    str_eq status "queued" || str_eq status "running" || str_eq status "interrupting"

abbrev pub or_else : String → String → String
or_else value otherwise = if str_eq value "" then otherwise else value

-- The level that `enqueueGemini` takes: the session's own level only where the model accepts it.
unfoldable pub gemini_level : String → String → String → String
gemini_level task_level session_level model =
    if not (str_eq task_level "")
    then task_level
    else if valid_thinking_level (codes model) (codes session_level)
    then session_level
    else ""

-- `enqueueGemini`, once the session is found.
unfoldable pub gemini_decision : Task → Session → Decision
gemini_decision task s =
    let model = or_else task.model s.model in
    let mode = or_else task.approval_mode s.mode in
    let level = gemini_level task.thinking_level s.thinking_level model in
    if not (str_eq s.server_status "online") || s.is_archived || is_working s.status
    then rejects "skipped" "Gemini session is offline, archived or active"
    else if not (supports_gemini (codes s.agent_version))
    then rejects "failed" "update Gemini Agent first"
    else if str_eq mode "yolo" && not (supports_gemini_yolo (codes s.agent_version))
    then rejects "failed" "update Gemini Agent to 0.2.72 or newer to use Gemini without approvals"
    else if not (str_eq level "") && not (supports_gemini_thinking (codes s.agent_version))
    then rejects "failed" "update Gemini Agent to configure thinking"
    else queues model mode level

-- `enqueueClaude`, once the session is found; the level is the task's reasoning effort.
unfoldable pub claude_decision : Task → Session → Decision
claude_decision task s =
    if not (str_eq s.server_status "online")
      || s.is_archived
      || s.recovery_pending
      || is_working s.status
    then rejects "skipped" "Claude session is offline, archived or active"
    else if not (supports_claude_input (codes s.agent_version))
    then rejects "failed" "update Claude Agent to 0.2.93"
    else queues (or_else task.model s.model) (or_else task.approval_mode s.mode)
        task.reasoning_effort

-- `normalizedApprovalMode`.
unfoldable pub normalized_approval_mode : Text → Text
normalized_approval_mode value =
    let trimmed = trim_space value in
    if text_eq trimmed (codes "untrusted") || text_eq trimmed (codes "never")
    then trimmed
    else codes "on-request"
