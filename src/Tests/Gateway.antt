-- ===== src/Tests/Gateway.antt =====
-- Runs of the Agent gateway in internal/agentgateway/gateway.go.
use my_wio.Base.{
  ◌≤◌, String, ◌≡◌, refl, true, false, none, some, List, [], ◌∷◌, ◌<>◌, str_eq, arith, not,
}
use my_wio.Store.Operations.{
  is_active, has_active_workspace_write, is_claimed_turn, is_claimable, claim_gemini_delivery,
  pending_operations, Operation, operation, cancel_operation, is_pending, mark_delivered,
}
use my_wio.Store.Operations.Rows.{stage}
use my_wio.Store.Operations.Steps.{cancelled}
use my_wio.Store.Operations.Lifecycle.{here, next}
use my_wio.Store.Queue.{
  holds_import, holds_write, clash, new_operation, insert_operation, after_insert, insert_resolved,
  resolve_operation_resource, queue_operation_payload, id_of_key,
}
use my_wio.Gateway.{
  marked, turn_threads, is_cancelled, is_gemini_turn_operation, is_codex_turn_operation, deliver,
  Envelope, Link, Codec, Surroundings, dispatch, settle, flush,
}
use my_wio.Gateway.Spec.{PromiseStep}
use my_wio.Gateway.Rounds.{turns_sent}
use my_wio.Gateway.Refinement.{
  stays, dispatches, promise_of, gateway_refines, turn_sent_at_most_once,
}
use my_wio.Gateway.Flush.{flush_runs, claimed_turn_never_pending}
use my_wio.Gateway.Cancelled.{cancelled_turn_interrupted}
use my_wio.Store.Table.{update_where, affected, order_by}
use my_wio.Store.Operations.Unique.{has_unique_ids}

abbrev turn : String → String → String → Operation
turn id kind status = record {
  id = id;
  server_id = "s";
  project_id = "";
  workspace_id = "";
  thread_id = "";
  kind = kind;
  payload = "{}";
  status = status;
  workspace_write = false;
  idempotency_key = id;
  result = "";
  result_data = "{}";
  created_at = 5;
  delivered_at = none;
  started_at = none;
  completed_at = none;
}

abbrev link : List Operation → Link
link ops = record {
  db = record {
    operations = ops;
    servers = "s" ∷ [];
    projects = [];
    workspaces = [];
    threads = [];
  };
  sent = [];
  woken = false;
}

abbrev json : Codec
json = record {
  start_threads = λ payload. some ("t", "c");
  rewrite_threads = λ payload. none;
  gemini_thread = λ payload. some "g";
  interrupt_turn = λ thread_id codex_thread. thread_id <> "/" <> codex_thread;
  gemini_interrupt = λ thread_id operation_id. thread_id <> "/" <> operation_id;
}

-- A vault that opens nothing, and a stream that refuses the operations named `bad`.
abbrev calm : Surroundings
calm = record {
  decrypt = λ payload. none;
  codec = json;
  accepts = λ e. not (str_eq e.operation_id "bad");
  between = λ o db. db;
  meanwhile = λ db. db;
  fresh = λ o. "new";
  clock = 9;
}

abbrev gemini : Operation
gemini = turn "a" "gemini.turn.start" "queued"

abbrev gemini_sent : Operation
gemini_sent = record gemini { status = "delivered"; delivered_at = some 9 }

abbrev codex : Operation
codex = turn "c" "codex.turn.start" "queued"

abbrev sent_turn : Envelope
sent_turn = record {
  operation_id = "a";
  kind = "gemini.turn.start";
  created_at = 5;
  payload = "{}";
}

-- A turn goes out once; one that the stream refuses is lost, and a plain operation stays queued.
flushes :
    (flush calm "s" (link (gemini ∷ []))
      ≡ (record (link (gemini_sent ∷ [])) { sent = sent_turn ∷ [] }, true))
    × (flush calm "s" (link (gemini_sent ∷ [])) ≡ (link (gemini_sent ∷ []), true))
    × ((flush calm "s" (link (turn "bad" "git.commit" "queued" ∷ [])))
        ≡ (link (turn "bad" "git.commit" "queued" ∷ []), false))
unfolding flush pending_operations order_by is_pending deliver dispatch claim_gemini_delivery
    affected is_claimable settle is_codex_turn_operation is_gemini_turn_operation is_cancelled
    operation update_where
flushes = (refl, refl, refl)

turn_sent_at_most_once_example :
    turns_sent "a" (flush calm "s" (flush calm "s" (link (gemini ∷ []))).0).0.sent ≤ 1
unfolding has_unique_ids
turn_sent_at_most_once_example =
    turn_sent_at_most_once (λ _. true) "a" refl refl
      (flush_runs (λ _. true) calm "s" (λ o db. here) (λ db. here)
        (flush_runs (λ _. true) calm "s" (λ o db. here) (λ db. here) stays))

gateway_refines_example :
    PromiseStep
      (promise_of (link (gemini ∷ [])))
      (promise_of (dispatch (λ _. none) (λ _. true) 9 gemini (link (gemini ∷ []))).0)
unfolding has_unique_ids
gateway_refines_example =
    gateway_refines (λ _. true) (link (gemini ∷ []))
      (dispatch (λ _. none) (λ _. true) 9 gemini (link (gemini ∷ []))).0 refl
      (dispatches (λ _. none) (λ _. true) 9 gemini)

claimed_turn_never_pending_example :
    (o : Operation) × (operation "a" (cancel_operation "a" "stop" 12 (gemini_sent ∷ [])).0 ≡ some o)
    × (is_pending "s" 99 o ≡ false)
unfolding operation is_claimed_turn stage
claimed_turn_never_pending_example =
    claimed_turn_never_pending (λ _. true) {o = gemini_sent} "a" refl refl (omega arith)
      (next here (cancelled "a" "stop" 12)) "s" 99

-- The turn is cancelled between `Send` and the mark.
abbrev cancelled_codex : Operation
cancelled_codex = record codex { status = "cancelled" }

cancelled_turn_interrupted_example :
    ((settle json (λ db. db) "new" 9 "s" codex (link (cancelled_codex ∷ []))).0.woken ≡ true)
    × (id_of_key "codex-cancel:c"
          (settle json (λ db. db) "new" 9 "s" codex (link (cancelled_codex ∷ []))).0.db.operations
        ≡ some "new")
unfolding is_codex_turn_operation turn_threads operation queue_operation_payload id_of_key marked
    is_claimed_turn mark_delivered update_where resolve_operation_resource insert_resolved
    after_insert insert_operation new_operation clash holds_write holds_import
    has_active_workspace_write is_active
cancelled_turn_interrupted_example =
    cancelled_turn_interrupted json (λ db. db) "new" 9 "s" codex (link (cancelled_codex ∷ []))
      {row = cancelled_codex} refl refl refl refl refl refl
