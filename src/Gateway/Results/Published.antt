-- ===== src/Gateway/Results/Published.antt =====
-- internal/agentgateway/gateway.go: what stands behind the success that the gateway publishes.
use my_wio.Base.{
  String, Bool, true, false, ◌||◌, ◌&&◌, not, none, some, List, str_eq, if◌then◌else◌, ◌≡◌, refl,
  arith, Bool-cases, Option-cases, inl, inr, str_eq_iff, subst, sym,
}
use my_wio.Store.Operations.{Operation, OperationResult, operation}
use my_wio.Gateway.Results.{
  Transaction, Handled, Answers, Call, attempt_call, nothing, reads_operation, attempt_completion,
  publish_result,
}
use my_wio.Gateway.Results.Transactions.{
  handle_transaction, validation, fail_transaction, commit_transaction,
}
use my_wio.Gateway.Results.Stages.{
  succeeded, save_snapshot, commit_fork, handle_deletion, handle_file_scan, handle_codex_snapshot,
}
use my_wio.Gateway.Results.Completion.{
  completion, rescan, save_goal, end_session, complete_kind, save_first, is_interrupted_turn,
  handle_other,
}
use my_wio.Gateway.Results.Routes.{
  Routine, transaction, deletion, file_scan, codex_snapshot, snapshot, fork, other, handle_routine,
  routine_of, handle_row, handle_operation_result,
}
use my_wio.Gateway.Results.Backed.{
  acknowledges, announces_success, is_backed, save_snapshot-is_silent, commit_fork-is_silent,
  continue_stage-is_backed,
}

str_eq_apart : (s : String) → str_eq s "cancelled" ≡ true → str_eq s "succeeded" ≡ false
str_eq_apart s h =
    subst (λ t. str_eq t "succeeded" ≡ false) (sym ((str_eq_iff s "cancelled").0 h)) refl

module _ (a : Answers) where
  handle_transaction-is_backed :
      (t : Transaction) (r : OperationResult)
      → is_backed a false (handle_transaction a t r).calls ≡ true
  unfolding handle_transaction fail_transaction commit_transaction attempt_call publish_result
      is_backed acknowledges announces_success
  handle_transaction-is_backed t r = elim (Option-cases (validation a t)) [
    | inl e ↦ ground arith
    | inr (text, e) ↦ ground arith
  ]

  seen_success :
      (r : OperationResult) (seen recorded : Bool)
      → recorded ≡ succeeded r
      → (not (succeeded r) || (seen || recorded)) ≡ true
  seen_success r seen recorded h = ground arith

  publish_result-is_backed :
      (r : OperationResult) (seen : Bool)
      → (not (succeeded r) || seen) ≡ true
      → is_backed a seen (publish_result a r).calls ≡ true
  unfolding publish_result attempt_call is_backed announces_success
  publish_result-is_backed r seen h = ground arith

  end_session-is_backed :
      (o : Operation) (r : OperationResult) (seen : Bool)
      → (not (succeeded r) || seen) ≡ true
      → is_backed a seen (end_session a o r).calls ≡ true
  unfolding end_session attempt_call is_backed acknowledges announces_success
  end_session-is_backed o r seen h =
      let published = publish_result-is_backed r seen h in ground (arith, published)

  completion-acknowledges :
      (o : Operation) (interrupted : Bool) (r : OperationResult)
      → a.succeeds (completion o interrupted r) ≡ true
      → ((interrupted || str_eq o.kind "claude.turn.start")
          && not (a.completes (completion o interrupted r)))
        ≡ false
      → acknowledges a (completion o interrupted r) ≡ succeeded r
  unfolding completion acknowledges
  completion-acknowledges o interrupted r done claimed = ground arith

  completion-announces_success :
      (o : Operation) (interrupted : Bool) (r : OperationResult)
      → announces_success (completion o interrupted r) ≡ false
  unfolding completion announces_success
  completion-announces_success o interrupted r = ground arith

  attempt_call-is_backed :
      (c : Call) (rest : Handled) (seen : Bool)
      → announces_success c ≡ false
      → (a.succeeds c ≡ true → is_backed a (seen || acknowledges a c) rest.calls ≡ true)
      → is_backed a seen (attempt_call a c rest).calls ≡ true
  unfolding attempt_call is_backed
  attempt_call-is_backed c rest seen silent h = elim (Bool-cases (a.succeeds c)) [
    | inl e ↦ let backed = h e in ground (arith, backed)
    | inr e ↦ ground arith
  ]

  -- What follows a completion, whichever of the two tests ends the handler.
  read_operation-is_backed :
      (ends ignored : Bool) (ended : Handled) (seen : Bool)
      → (ends ≡ false → is_backed a seen ended.calls ≡ true)
      → is_backed a seen
          (if ends
            then nothing
            else attempt_call a reads_operation (if ignored then nothing else ended)).calls
        ≡ true
  unfolding attempt_call is_backed acknowledges announces_success
  read_operation-is_backed ends ignored ended seen h = ground (arith, h)

  complete_kind-is_backed :
      (o : Operation) (interrupted : Bool) (r : OperationResult) (seen : Bool)
      → is_backed a seen (complete_kind a o interrupted r).calls ≡ true
  unfolding complete_kind
  complete_kind-is_backed o interrupted r seen =
      let call = completion o interrupted r in
      let claims = interrupted || str_eq o.kind "claude.turn.start" in
      attempt_call-is_backed call _ seen (completion-announces_success o interrupted r) (λ done.
        read_operation-is_backed (claims && not (a.completes call))
          (str_eq a.status_after "cancelled" && not claims) (end_session a o r)
          (seen || acknowledges a call)
          (λ claimed. end_session-is_backed o r (seen || acknowledges a call) (
            seen_success r seen (acknowledges a call)
              (completion-acknowledges o interrupted r done claimed))))

  save_first-is_backed :
      (o : Operation) (r : OperationResult) (rest : Handled)
      → ((seen : Bool) → is_backed a seen rest.calls ≡ true)
      → is_backed a false (save_first a o r rest).calls ≡ true
  unfolding save_first rescan save_goal attempt_call is_backed acknowledges announces_success
  save_first-is_backed o r rest h =
      let unseen = h false in let seen = h true in ground (arith, unseen, seen)

  pub handle_routine-is_backed :
      (routine : Routine) (o : Operation) (r : OperationResult)
      → is_backed a false (handle_routine a routine o r).calls ≡ true
  unfolding handle_routine handle_other handle_deletion handle_file_scan handle_codex_snapshot
      attempt_call attempt_completion publish_result is_backed acknowledges announces_success
  handle_routine-is_backed (transaction t) o r = handle_transaction-is_backed t r
  handle_routine-is_backed deletion o r = ground arith
  handle_routine-is_backed file_scan o r = ground arith
  handle_routine-is_backed codex_snapshot o r = ground arith
  handle_routine-is_backed (snapshot kind) o r =
      continue_stage-is_backed a none (save_snapshot a kind r) (save_snapshot-is_silent a kind r)
  handle_routine-is_backed (fork which) o r =
      continue_stage-is_backed a (some which) (commit_fork a which r)
        (commit_fork-is_silent a which r)
  handle_routine-is_backed other o r =
      let interrupted = is_interrupted_turn o r in
      let s = record r { status = if interrupted then "cancelled" else r.status } in
      save_first-is_backed o s (complete_kind a o interrupted s)
        (complete_kind-is_backed o interrupted s)

  handle_row-is_backed :
      (server_id : String) (o : Operation) (r : OperationResult)
      → is_backed a false (handle_row a server_id o r).calls ≡ true
  unfolding handle_row attempt_completion attempt_call publish_result is_backed acknowledges
      announces_success
  handle_row-is_backed server_id o r =
      let backed = handle_routine-is_backed (routine_of o.kind) o r in
      let apart = str_eq_apart r.status in ground (arith, backed, apart)

  -- Whatever the result of whatever operation: each success that is published stands behind a call of
  -- the store that was made with a success and returned no error and, where the call answers whether
  -- the row took the result (scans, snapshots of Codex, turns of Claude), answered that it did.
  pub published_success_acknowledged :
      (server_id : String) (ops : List Operation) (r : OperationResult)
      → is_backed a false (handle_operation_result a server_id ops r).calls ≡ true
  unfolding handle_operation_result is_backed
  published_success_acknowledged server_id ops r =
      elim (Option-cases (operation r.operation_id ops)) [
        | inl e ↦ rw (handle_operation_result, e) refl
        | inr (o, e) ↦ rw (handle_operation_result, e) (handle_row-is_backed server_id o r)
      ]
