-- ===== src/Gateway/Results.antt =====
-- internal/agentgateway/gateway.go: what the gateway does with the result of an operation. The calls of
-- the store and of the hub are recorded in their order; what they answer is a parameter.
pub mod Transactions
pub mod Stages
pub mod Completion
pub mod Routes
pub mod Backed
pub mod Forks
pub mod Published
use my_wio.Base.{
  ℕ, String, Bool, true, false, ◌&&◌, ◌||◌, not, Option, none, some, List, [], ◌∷◌, str_eq, ◌<>◌,
  if◌then◌else◌,
}
use my_wio.Store.Operations.{OperationResult}

-- The three results that are committed together with rows of their own.
pub data Transaction : Type 0 where
  workspace_clone workspace_lifecycle project_create : Transaction

-- What a refreshed view of a workspace is saved as.
pub data Snapshot : Type 0 where
  file_preview changes diff_preview git_inspect git_write : Snapshot

-- The operations whose success makes a row of its own before they are completed.
pub data Fork : Type 0 where
  codex_fork claude_fork gemini_fork worktree : Fork

-- The calls whose error ends the handler and, from `wakes` on, those whose errors are ignored.
pub data Call : Type 0 where
  completes_interrupted completes_deletion completes_file_scan completes_operation publishes :
      OperationResult → Call
  completes_codex_snapshot : String → String → OperationResult → Call
  fails_transaction : Transaction → OperationResult → String → Call
  commits_transaction : Transaction → OperationResult → Call
  saves_snapshot : Snapshot → Call
  fails_snapshot : Snapshot → String → Call
  commits_fork : Fork → Call
  queues_cleanup begins_file_scan queues_file_scan begins_change_scan queues_change_scan saves_goal
        reads_operation :
      Call
  fails_goal : String → Call
  completes_if_active completes_deployment ends_gemini_turn ends_claude_turn fails_codex_turn
        fails_codex_control :
      OperationResult → Call
  completes_credentials : String → OperationResult → Call
  frees_thread : String → String → Call
  wakes watches_latency marks_task_running : Call
  announces : String → String → Call

-- The calls of a message's handler, and whether it returns an error.
pub record Handled : Type 0 where
  pub calls : List Call
  pub failed : Bool

-- What the handler gets to know: whether a call succeeds, or else the text of its error; whether a
-- completion found its row active; what decoding the payload and the data gives; the checks of the
-- decoded values; the sessions a fork came from; the status of the row behind its completion.
pub record Answers : Type 0 where
  pub succeeds : Call → Bool
  pub error_text : Call → String
  pub completes : Call → Bool
  pub command_ok : Bool
  pub data_ok : Bool
  pub data_error : String
  pub validation_error : Option String
  pub path_matches : Bool
  pub scope_type : String
  pub scope_id : String
  pub claude_source : String
  pub gemini_source : String
  pub status_after : String

abbrev pub nothing : Handled
nothing = record { calls = []; failed = false }

abbrev pub rejected : Handled
rejected = record { calls = []; failed = true }

abbrev pub behind : Call → Handled → Handled
behind c h = record { calls = c ∷ h.calls; failed = h.failed }

-- `if err := …; err != nil { return err }`.
unfoldable pub attempt_call : Answers → Call → Handled → Handled
attempt_call a c rest = if a.succeeds c then behind c rest else behind c rejected

-- `if completed, err := …; err != nil || !completed { return err }`.
unfoldable pub attempt_completion : Answers → Call → Handled → Handled
attempt_completion a c rest =
    if not (a.succeeds c)
    then behind c rejected
    else if a.completes c
    then behind c rest
    else behind c nothing

-- `publishOperationResult`.
unfoldable pub publish_result : Answers → OperationResult → Handled
publish_result a r = attempt_call a (publishes r) nothing

abbrev pub with_message : String → OperationResult → OperationResult
with_message text r = record r { message = if str_eq r.message "" then text else r.message }

abbrev pub as_failed : String → OperationResult → OperationResult
as_failed text r = record r { status = "failed"; message = text }
