-- ===== src/Tests/Results.antt =====
-- Runs of the handler of results in internal/agentgateway/gateway.go.
use my_wio.Base.{String, ◌≡◌, refl, true, false, none, some, [], ◌∷◌, Bool, not, keep, length}
use my_wio.Store.Operations.{is_active, operation, Operation, OperationResult}
use my_wio.Store.CodexSnapshots.{is_read_only_codex_snapshot_operation}
use my_wio.Gateway.Results.{
  publish_result, attempt_call, Answers, Call, publishes, commits_fork, worktree, project_create,
  watches_latency, completes_operation, frees_thread, announces, reads_operation, queues_cleanup,
  wakes, commits_transaction,
}
use my_wio.Gateway.Results.Transactions.{handle_transaction, settles, settled_once}
use my_wio.Gateway.Results.Stages.{complete_and_publish, commit_fork, continue_stage, succeeded}
use my_wio.Gateway.Results.Routes.{
  routine_of, handle_row, fork, handle_routine, handle_operation_result,
}
use my_wio.Gateway.Results.Backed.{announces_success, is_backed, is_silent}
use my_wio.Gateway.Results.Forks.{published_fork_committed}
use my_wio.Gateway.Results.Published.{published_success_acknowledged}

abbrev all_well : (Call → Bool) → Answers
all_well succeeds = record {
  succeeds = succeeds;
  error_text = λ c. "disk full";
  completes = λ c. true;
  command_ok = true;
  data_ok = true;
  data_error = "";
  validation_error = none;
  path_matches = true;
  scope_type = "thread";
  scope_id = "t1";
  claude_source = "c1";
  gemini_source = "";
  status_after = "succeeded";
}

abbrev success : OperationResult
success = record { operation_id = "a"; status = "succeeded"; message = ""; data_text = "{}" }

abbrev row : String → Operation
row kind = record {
  id = "a";
  server_id = "s1";
  project_id = "p1";
  workspace_id = "w1";
  thread_id = "t1";
  kind = kind;
  payload = "{}";
  status = "running";
  workspace_write = false;
  idempotency_key = "k";
  result = "";
  result_data = "{}";
  created_at = 5;
  delivered_at = some 6;
  started_at = some 7;
  completed_at = none;
}

abbrev is_commit : Call → Bool
is_commit (commits_fork f) = true
is_commit (commits_transaction t r) = true
is_commit c = false

-- A worktree is committed, and the Claude session it came from is freed.
worktree_run :
    (handle_operation_result
      (all_well (λ c. true))
      "s1"
      (row "git.worktree.create" ∷ [])
      success).calls
    ≡ watches_latency
      ∷ commits_fork worktree
      ∷ completes_operation success
      ∷ frees_thread "claude" "c1"
      ∷ announces "claude" "c1"
      ∷ reads_operation
      ∷ publishes success
      ∷ []
unfolding handle_operation_result operation handle_row is_active handle_routine routine_of
    is_read_only_codex_snapshot_operation continue_stage commit_fork complete_and_publish
    attempt_call publish_result
worktree_run = refl

-- A worktree whose row cannot be made is cleaned up, and is published as a failure.
unsaved_worktree_run :
    handle_routine
      (all_well (λ c. not (is_commit c)))
      (fork worktree)
      (row "git.worktree.create")
      success
    ≡ (let failure = record success {
      status = "failed";
      message = "could not persist worktree; cleanup queued: disk full";
    } in
        record {
          calls =
              commits_fork worktree
              ∷ queues_cleanup
              ∷ wakes
              ∷ completes_operation failure
              ∷ frees_thread "claude" "c1"
              ∷ announces "claude" "c1"
              ∷ reads_operation
              ∷ publishes failure
              ∷ [];
          failed = false;
        })
unfolding handle_routine continue_stage commit_fork complete_and_publish attempt_call publish_result
unsaved_worktree_run = refl

settled_once_example :
    length (
      keep
        (settles (all_well (λ c. not (is_commit c))))
        (handle_transaction (all_well (λ c. not (is_commit c))) project_create success).calls)
    ≡ 1
unfolding handle_transaction attempt_call publish_result
settled_once_example = settled_once (all_well (λ c. not (is_commit c))) project_create success refl

published_fork_committed_example :
    (succeeded success ≡ true) × ((all_well (λ c. true)).succeeds (commits_fork worktree) ≡ true)
unfolding is_silent handle_routine continue_stage commit_fork announces_success complete_and_publish
    attempt_call publish_result
published_fork_committed_example =
    published_fork_committed (all_well (λ c. true)) worktree (row "git.worktree.create") success
      refl

published_success_acknowledged_example :
    is_backed
      (all_well (λ c. true))
      false
      (handle_operation_result
        (all_well (λ c. true))
        "s1"
        (row "claude.turn.start" ∷ [])
        success).calls
    ≡ true
published_success_acknowledged_example =
    published_success_acknowledged (all_well (λ c. true)) "s1" (row "claude.turn.start" ∷ [])
      success
