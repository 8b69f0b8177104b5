-- ===== src/Gateway/Results/Stages.antt =====
-- internal/agentgateway/gateway.go: results that save a view of a workspace or make a row of their own
-- before the operation is completed, and those that are completed by a routine of their own.
use my_wio.Base.{
  String, Bool, true, false, ◌&&◌, ◌||◌, not, Option, none, some, List, [], ◌∷◌, ◌++◌, str_eq, ◌<>◌,
  if◌then◌else◌,
}
use my_wio.Store.Operations.{Operation, OperationResult}
use my_wio.Gateway.Results.{
  Snapshot, file_preview, changes, diff_preview, git_inspect, git_write, Fork, codex_fork,
  claude_fork, gemini_fork, worktree, Call, completes_deletion, completes_file_scan,
  completes_codex_snapshot, completes_operation, saves_snapshot, fails_snapshot, commits_fork,
  queues_cleanup, reads_operation, frees_thread, wakes, announces, Handled, Answers, nothing,
  rejected, behind, attempt_call, attempt_completion, publish_result, with_message, as_failed,
}

abbrev pub succeeded : OperationResult → Bool
succeeded r = str_eq r.status "succeeded"

-- The calls of a stage and the result it passes on, or `none` when it returns an error.
pub record Forwarded : Type 0 where
  pub made : List Call
  pub outcome : Option OperationResult

abbrev passed : OperationResult → Forwarded
passed r = record { made = []; outcome = some r }

abbrev stopped : Forwarded
stopped = record { made = []; outcome = none }

abbrev after : Call → Forwarded → Forwarded
after c s = record { made = c ∷ s.made; outcome = s.outcome }

-- Only the previews of a file and of a diff carry the path they are asked for.
unfoldable pub has_path : Snapshot → Bool
has_path file_preview = true
has_path diff_preview = true
has_path changes = false
has_path git_inspect = false
has_path git_write = false

attempt_stage : Answers → Call → OperationResult → Forwarded
attempt_stage a c r = after c (if a.succeeds c then passed r else stopped)

unfoldable pub save_snapshot : Answers → Snapshot → OperationResult → Forwarded
unfolding attempt_stage has_path
save_snapshot a kind r =
    if not a.command_ok
    then stopped
    else if not (succeeded r)
    then attempt_stage a (fails_snapshot kind r.message) r
    else if not a.data_ok || (has_path kind && not a.path_matches)
    then stopped
    else attempt_stage a (saves_snapshot kind) r

unfoldable pub unsaved_text : Fork → String
unsaved_text codex_fork = "could not persist fork: "
unsaved_text claude_fork = "could not save Claude fork: "
unsaved_text gemini_fork = "could not save Gemini branch: "
unsaved_text worktree = "could not persist worktree; cleanup queued: "

-- What a stage makes of data that does not decode: an error, or a failure of the operation.
undecoded : Fork → OperationResult → Forwarded
undecoded codex_fork r = stopped
undecoded claude_fork r = passed (as_failed "invalid Claude fork result" r)
undecoded gemini_fork r = passed (as_failed "invalid Gemini branch result" r)
undecoded worktree r = stopped

-- What a failed commit leaves: a worktree is cleaned up by an operation of its own.
uncommitted : Answers → Fork → OperationResult → Forwarded
uncommitted a codex_fork r = passed r
uncommitted a claude_fork r = passed r
uncommitted a gemini_fork r = passed r
uncommitted a worktree r =
    after queues_cleanup (if a.succeeds queues_cleanup then after wakes (passed r) else stopped)

-- `ValidateThreadForkResult` is asked for a Codex fork only.
fork_error : Answers → Fork → Option String
fork_error a codex_fork = a.validation_error
fork_error a claude_fork = none
fork_error a gemini_fork = none
fork_error a worktree = none

unfoldable pub commit_fork : Answers → Fork → OperationResult → Forwarded
unfolding undecoded uncommitted fork_error unsaved_text
commit_fork a fork r =
    let commit = commits_fork fork in
    if not (succeeded r)
    then passed r
    else if not a.command_ok
    then stopped
    else if not a.data_ok
    then undecoded fork r
    else elim (fork_error a fork) [
      | some text ↦ passed (as_failed text r)
      | none ↦ after commit (
          if a.succeeds commit
          then passed r
          else uncommitted a fork (as_failed (unsaved_text fork <> a.error_text commit) r))
    ]

-- The operations whose source thread waits for them.
frees_claude : Option Fork → Bool
frees_claude none = false
frees_claude (some codex_fork) = false
frees_claude (some claude_fork) = true
frees_claude (some gemini_fork) = false
frees_claude (some worktree) = true

frees_gemini : Option Fork → Bool
frees_gemini none = false
frees_gemini (some codex_fork) = false
frees_gemini (some claude_fork) = false
frees_gemini (some gemini_fork) = true
frees_gemini (some worktree) = true

free_source : Answers → String → String → Handled → Handled
free_source a agent source rest =
    if str_eq source ""
    then rest
    else attempt_call a (frees_thread agent source) (behind (announces agent source) rest)

-- The shared completion of an operation that is neither a turn nor the update of a credential.
unfoldable pub complete_and_publish : Answers → Option Fork → OperationResult → Handled
unfolding frees_claude frees_gemini free_source
complete_and_publish a fork r =
    let published =
      attempt_call a reads_operation
        (if str_eq a.status_after "cancelled" then nothing else publish_result a r) in
    let gemini =
      if frees_gemini fork then free_source a "gemini" a.gemini_source published else published in
    attempt_call a (completes_operation r)
      (if frees_claude fork then free_source a "claude" a.claude_source gemini else gemini)

unfoldable pub continue_stage : Answers → Option Fork → Forwarded → Handled
continue_stage a fork s = elim s.outcome [
  | none ↦ record { calls = s.made; failed = true }
  | some r ↦
      let h = complete_and_publish a fork r in
      record { calls = s.made ++ h.calls; failed = h.failed }
]

-- `store.ProjectDeleteOperationKind`.
unfoldable pub handle_deletion : Answers → OperationResult → Handled
handle_deletion a r = attempt_call a (completes_deletion r) (publish_result a r)

-- `workspace.files`.
unfoldable pub handle_file_scan : Answers → OperationResult → Handled
handle_file_scan a r =
    if not a.command_ok
    then rejected
    else attempt_completion a (completes_file_scan r) (publish_result a r)

-- The result that a refresh of Codex's information is recorded with.
unfoldable pub refreshed : Answers → OperationResult → OperationResult
refreshed a r =
    let s = if a.command_ok then r else record r {
      status = "failed";
      message = "Invalid Codex refresh request. Please refresh to retry.";
      data_text = "";
    } in
    if not (succeeded s)
    then with_message "Codex information refresh failed. Please refresh to retry."
        (record s { status = "failed" })
    else if a.data_ok
    then s
    else record s {
      status = "failed";
      message = "Invalid Codex refresh result. Please refresh to retry.";
      data_text = "";
    }

-- The scope of a request that does not decode is read off the operation.
codex_scope : Answers → Operation → String × String
codex_scope a o =
    if a.command_ok
    then (a.scope_type, a.scope_id)
    else if not (str_eq o.thread_id "")
    then ("thread", o.thread_id)
    else if not (str_eq o.workspace_id "")
    then ("workspace", o.workspace_id)
    else ("", "")

unfoldable pub handle_codex_snapshot : Answers → Operation → OperationResult → Handled
unfolding codex_scope
handle_codex_snapshot a o r =
    let scope = codex_scope a o in
    let s = refreshed a r in
    attempt_completion a (completes_codex_snapshot scope.0 scope.1 s) (publish_result a s)
