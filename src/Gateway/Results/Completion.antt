-- ===== src/Gateway/Results/Completion.antt =====
-- internal/agentgateway/gateway.go: results of turns, credentials, goals, deployments and written files,
-- and of every kind that is only completed.
use my_wio.Base.{String, Bool, ◌||◌, ◌&&◌, not, str_eq, if◌then◌else◌}
use my_wio.Text.{codes, has_prefix}
use my_wio.Store.Operations.{Operation, OperationResult, is_claimed_turn}
use my_wio.Gateway.Results.{
  Call, completes_operation, completes_if_active, completes_credentials, completes_deployment,
  reads_operation, begins_file_scan, queues_file_scan, begins_change_scan, queues_change_scan,
  saves_goal, fails_goal, wakes, ends_gemini_turn, ends_claude_turn, marks_task_running,
  fails_codex_turn, fails_codex_control, Handled, Answers, nothing, rejected, behind, attempt_call,
  publish_result,
}
use my_wio.Gateway.Results.Stages.{succeeded}

-- A turn of Gemini or Claude that was stopped, however its Agent reports it; `context canceled` is the
-- text of Go's `context.Canceled`.
unfoldable pub is_interrupted_turn : Operation → OperationResult → Bool
is_interrupted_turn o r =
    is_claimed_turn o.kind
    && (str_eq r.status "interrupted"
        || str_eq r.status "cancelled"
        || (str_eq r.status "failed" && str_eq r.message "context canceled"))

-- The listing and the changes of a workspace are asked for again behind a write.
unfoldable pub rescan : Answers → Handled → Handled
rescan a rest =
    if not a.command_ok
    then rejected
    else attempt_call a begins_file_scan (
        attempt_call a queues_file_scan (
          attempt_call a begins_change_scan
            (attempt_call a queues_change_scan (behind wakes rest))))

unfoldable pub save_goal : Answers → OperationResult → Handled → Handled
save_goal a r rest =
    if not a.command_ok
    then rejected
    else if not (succeeded r)
    then attempt_call a (fails_goal r.message) rest
    else if not a.data_ok
    then rejected
    else attempt_call a saves_goal rest

is_deployment : String → Bool
is_deployment kind =
    str_eq kind "deploy.container" || has_prefix (codes kind) (codes "deploy.container.")

-- What comes before the completion; the three cases exclude one another.
unfoldable pub save_first : Answers → Operation → OperationResult → Handled → Handled
unfolding rescan save_goal is_deployment
save_first a o r rest =
    if str_eq o.kind "workspace.file.write" && succeeded r
    then rescan a rest
    else if has_prefix (codes o.kind) (codes "codex.goal.")
    then save_goal a r rest
    else if is_deployment o.kind
    then attempt_call a (completes_deployment r) rest
    else rest

unfoldable pub is_failed : OperationResult → Bool
is_failed r = str_eq r.status "failed"

unfoldable pub is_gemini_session : String → Bool
is_gemini_session kind =
    str_eq kind "gemini.turn.start"
    || str_eq kind "gemini.turn.rewrite"
    || str_eq kind "gemini.turn.interrupt"
    || str_eq kind "gemini.turn.steer"

unfoldable pub is_claude_session : String → Bool
is_claude_session kind =
    str_eq kind "claude.turn.start"
    || str_eq kind "claude.turn.interrupt"
    || str_eq kind "claude.turn.steer"
    || str_eq kind "claude.question.answer"

unfoldable pub is_codex_start : String → Bool
is_codex_start kind = str_eq kind "codex.turn.start" || str_eq kind "codex.turn.rewrite"

unfoldable pub is_codex_control : String → Bool
is_codex_control kind =
    str_eq kind "codex.turn.interrupt"
    || str_eq kind "codex.turn.steer"
    || str_eq kind "codex.approval"
    || str_eq kind "codex.thread.compact"

-- What the sessions are told behind the completion, and the publication; a kind is of one session only.
unfoldable pub end_session : Answers → Operation → OperationResult → Handled
end_session a o r =
    let published = publish_result a r in
    if is_gemini_session o.kind
    then attempt_call a (ends_gemini_turn r) published
    else if is_claude_session o.kind
    then attempt_call a (ends_claude_turn r) published
    else if is_codex_start o.kind && succeeded r
    then behind marks_task_running published
    else if is_codex_start o.kind && is_failed r
    then attempt_call a (fails_codex_turn r) published
    else if is_codex_control o.kind && is_failed r
    then attempt_call a (fails_codex_control r) published
    else published

is_shared_credential : String → Bool
is_shared_credential kind =
    str_eq kind "credentials.configure"
    || str_eq kind "codex.credentials.configure"
    || str_eq kind "git.credentials.configure"

-- The call that completes the operation, and whether it asks for the row to be active still.
unfoldable pub completion : Operation → Bool → OperationResult → Call
unfolding is_shared_credential
completion o interrupted r =
    if str_eq o.kind "gemini.credentials.configure"
    then completes_credentials "gemini" r
    else if str_eq o.kind "claude.credentials.configure"
    then completes_credentials "claude" r
    else if is_shared_credential o.kind
    then completes_credentials "" r
    else if interrupted || str_eq o.kind "claude.turn.start"
    then completes_if_active r
    else completes_operation r

-- A completion that is claimed is published even though the row is cancelled by it.
unfoldable pub complete_kind : Answers → Operation → Bool → OperationResult → Handled
unfolding completion
complete_kind a o interrupted r =
    let claims = interrupted || str_eq o.kind "claude.turn.start" in
    let call = completion o interrupted r in
    let ended = end_session a o r in
    attempt_call a call (
      if claims && not (a.completes call)
      then nothing
      else attempt_call a reads_operation
          (if str_eq a.status_after "cancelled" && not claims then nothing else ended))

unfoldable pub handle_other : Answers → Operation → OperationResult → Handled
handle_other a o r =
    let interrupted = is_interrupted_turn o r in
    let s = record r { status = if interrupted then "cancelled" else r.status } in
    save_first a o s (complete_kind a o interrupted s)
