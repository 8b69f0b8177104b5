-- ===== src/Tests/Sent.antt =====
-- Runs of `PendingOperations` of internal/store/store.go.
use my_wio.Base.{
  ◌*◌, ◌+◌, ◌≡◌, refl, true, false, ◌&&◌, not, [], ◌∷◌, any, str_eq, ltb, arith, none, String,
}
use my_wio.Store.Operations.{Operation, pending_operations, mark_delivered, operation, is_active}
use my_wio.Store.Operations.Unique.{has_unique_ids}
use my_wio.Store.Operations.Redelivery.{queued_operation_sent, delivered_operation_resent}
use my_wio.Store.Table.{update_where}

abbrev waiting : String → String → Operation
waiting id kind = record {
  id = id;
  server_id = "s";
  project_id = "";
  workspace_id = "";
  thread_id = "";
  kind = kind;
  payload = "{}";
  status = "queued";
  workspace_write = false;
  idempotency_key = id;
  result = "";
  result_data = "{}";
  created_at = 5;
  delivered_at = none;
  started_at = none;
  completed_at = none;
}

queued_operation_sent_example :
    any
      (λ x. str_eq x.id "o2")
      (pending_operations "s" 9 (waiting "o1" "git.push" ∷ waiting "o2" "git.push" ∷ []))
    ≡ true
unfolding has_unique_ids operation is_active
queued_operation_sent_example =
    queued_operation_sent "o2" (waiting "o1" "git.push" ∷ waiting "o2" "git.push" ∷ [])
      {o = waiting "o2" "git.push"} refl refl refl "s" 9 (omega arith)

delivered_operation_resent_example :
    any
      (λ x. str_eq x.id "o1")
      (pending_operations "s" 40000000000 (mark_delivered "o1" 9 (waiting "o1" "git.push" ∷ [])))
    ≡ (str_eq "s" "s"
        && ltb (9 + 30 * 1000000000) 40000000000
        && not (
            any
              (str_eq "git.push")
              ("gemini.turn.start" ∷ "gemini.turn.rewrite" ∷ "claude.turn.start" ∷ [])))
unfolding has_unique_ids operation mark_delivered update_where is_active
delivered_operation_resent_example =
    delivered_operation_resent "o1" (waiting "o1" "git.push" ∷ []) {o = waiting "o1" "git.push"}
      refl refl refl "s" 9 40000000000 (omega arith) (omega arith)
