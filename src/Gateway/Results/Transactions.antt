-- ===== src/Gateway/Results/Transactions.antt =====
-- internal/agentgateway/gateway.go: results that the control plane commits in one transaction.
use my_wio.Base.{
  String, Bool, false, not, Option, none, some, str_eq, ◌<>◌, keep, length, if◌then◌else◌, ◌≡◌,
  arith, Option-cases, inl, inr,
}
use my_wio.Store.Operations.{OperationResult}
use my_wio.Gateway.Results.{
  Transaction, workspace_clone, workspace_lifecycle, project_create, Call, fails_transaction,
  commits_transaction, Handled, Answers, rejected, behind, attempt_call, publish_result,
  with_message, as_failed,
}

-- The texts of the three handlers, and the state that a failure leaves.
refused_text : Transaction → String
refused_text workspace_clone = "agent failed to clone workspace"
refused_text workspace_lifecycle = "agent failed to update workspace"
refused_text project_create = "agent failed to create blank project"

invalid_text : Transaction → String
invalid_text workspace_clone = "invalid workspace clone result: "
invalid_text workspace_lifecycle = "invalid workspace lifecycle result: "
invalid_text project_create = "invalid blank project result: "

commit_text : Transaction → String
commit_text workspace_clone = "workspace cloned but control-plane commit failed: "
commit_text workspace_lifecycle = "workspace files changed but control-plane commit failed: "
commit_text project_create = "project created on server but could not persist workspace: "

refused_state : Transaction → String
refused_state workspace_clone = "ready"
refused_state workspace_lifecycle = "ready"
refused_state project_create = "failed"

invalid_state : Transaction → String
invalid_state workspace_clone = "partial"
invalid_state workspace_lifecycle = "partial"
invalid_state project_create = "failed"

-- Only a blank project is validated beyond its decoding.
unfoldable pub validation : Answers → Transaction → Option String
validation a workspace_clone = none
validation a workspace_lifecycle = none
validation a project_create = a.validation_error

unfoldable pub fail_transaction : Answers → Transaction → OperationResult → String → Handled
fail_transaction a t r state = attempt_call a (fails_transaction t r state) (publish_result a r)

unfoldable pub commit_transaction : Answers → Transaction → OperationResult → Handled
unfolding fail_transaction commit_text
commit_transaction a t r =
    let commit = commits_transaction t r in
    behind commit (
      if a.succeeds commit
      then publish_result a r
      else fail_transaction a t (as_failed (commit_text t <> a.error_text commit) r) "partial")

-- The handlers of `git.workspace.clone`, `git.workspace.lifecycle` and `git.project.create`.
unfoldable pub handle_transaction : Answers → Transaction → OperationResult → Handled
unfolding fail_transaction commit_transaction refused_text refused_state invalid_text invalid_state
    validation
handle_transaction a t r =
    if not a.command_ok
    then rejected
    else if not (str_eq r.status "succeeded")
    then fail_transaction a t (with_message (refused_text t) r) (refused_state t)
    else if not a.data_ok
    then fail_transaction a t (as_failed (invalid_text t <> a.data_error) r) (invalid_state t)
    else elim (validation a t) [
      | some text ↦ fail_transaction a t (as_failed text r) "failed"
      | none ↦ commit_transaction a t r
    ]

-- A call that leaves the rows of the transaction in a final state.
unfoldable pub settles : Answers → Call → Bool
settles a (commits_transaction t r) = a.succeeds (commits_transaction t r)
settles a (fails_transaction t r state) = a.succeeds (fails_transaction t r state)
settles a _ = false

module _ (a : Answers) (t : Transaction) (r : OperationResult) where
  -- A transaction that is handled without an error is settled exactly once, by its commit or by the
  -- record of its failure, but never by both.
  pub settled_once :
      (handle_transaction a t r).failed ≡ false
      → length (keep (settles a) (handle_transaction a t r).calls) ≡ 1
  unfolding handle_transaction fail_transaction commit_transaction attempt_call publish_result
      settles
  settled_once h = elim (Option-cases (validation a t)) [
    | inl e ↦ ground arith
    | inr (text, e) ↦ ground arith
  ]
