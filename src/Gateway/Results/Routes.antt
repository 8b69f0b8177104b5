-- ===== src/Gateway/Results/Routes.antt =====
-- internal/agentgateway/gateway.go: which routine takes the result of an operation.
use my_wio.Base.{String, ◌&&◌, not, none, some, str_eq, if◌then◌else◌, List}
use my_wio.Store.Operations.{Operation, OperationResult, is_active, operation}
use my_wio.Store.CodexSnapshots.{is_read_only_codex_snapshot_operation}
use my_wio.Store.Interrupts.{can_interrupt_operation}
use my_wio.Gateway.Results.{
  Transaction, workspace_clone, workspace_lifecycle, project_create, Snapshot, file_preview,
  changes, diff_preview, git_inspect, git_write, Fork, codex_fork, claude_fork, gemini_fork,
  worktree, completes_interrupted, watches_latency, Handled, Answers, nothing, rejected, behind,
  attempt_completion, publish_result,
}
use my_wio.Gateway.Results.Transactions.{handle_transaction}
use my_wio.Gateway.Results.Completion.{handle_other}
use my_wio.Gateway.Results.Stages.{
  save_snapshot, commit_fork, continue_stage, handle_deletion, handle_file_scan,
  handle_codex_snapshot,
}

pub data Routine : Type 0 where
  transaction : Transaction → Routine
  deletion file_scan codex_snapshot : Routine
  snapshot : Snapshot → Routine
  fork : Fork → Routine
  other : Routine

snapshot_or_fork : String → Routine
snapshot_or_fork kind =
    if str_eq kind "workspace.file.preview"
    then snapshot file_preview
    else if str_eq kind "workspace.changes"
    then snapshot changes
    else if str_eq kind "workspace.diff.preview"
    then snapshot diff_preview
    else if str_eq kind "git.workspace.inspect"
    then snapshot git_inspect
    else if str_eq kind "git.workspace.write"
    then snapshot git_write
    else if str_eq kind "codex.thread.fork"
    then fork codex_fork
    else if str_eq kind "claude.thread.fork"
    then fork claude_fork
    else if str_eq kind "gemini.thread.fork"
    then fork gemini_fork
    else if str_eq kind "git.worktree.create"
    then fork worktree
    else other

-- The routine of a kind.
unfoldable pub routine_of : String → Routine
unfolding snapshot_or_fork
routine_of kind =
    if str_eq kind "git.workspace.clone"
    then transaction workspace_clone
    else if str_eq kind "git.workspace.lifecycle"
    then transaction workspace_lifecycle
    else if str_eq kind "git.project.create"
    then transaction project_create
    else if str_eq kind "git.project.delete"
    then deletion
    else if str_eq kind "workspace.files"
    then file_scan
    else if is_read_only_codex_snapshot_operation kind
    then codex_snapshot
    else snapshot_or_fork kind

unfoldable pub handle_routine : Answers → Routine → Operation → OperationResult → Handled
handle_routine a (transaction t) o r = handle_transaction a t r
handle_routine a deletion o r = handle_deletion a r
handle_routine a file_scan o r = handle_file_scan a r
handle_routine a codex_snapshot o r = handle_codex_snapshot a o r
handle_routine a (snapshot kind) o r = continue_stage a none (save_snapshot a kind r)
handle_routine a (fork kind) o r = continue_stage a (some kind) (commit_fork a kind r)
handle_routine a other o r = handle_other a o r

-- A result for the row of an operation.
unfoldable pub handle_row : Answers → String → Operation → OperationResult → Handled
handle_row a server_id o r =
    if not (str_eq o.server_id server_id)
    then rejected
    else if not (is_active o.status)
    then nothing
    else if str_eq r.status "cancelled" && can_interrupt_operation o.kind
    then attempt_completion a (completes_interrupted r) (publish_result a r)
    else behind watches_latency (handle_routine a (routine_of o.kind) o r)

-- The handler of `operation_result`.
unfoldable pub handle_operation_result :
    Answers → String → List Operation → OperationResult → Handled
handle_operation_result a server_id ops r = elim (operation r.operation_id ops) [
  | none ↦ rejected
  | some o ↦ handle_row a server_id o r
]
