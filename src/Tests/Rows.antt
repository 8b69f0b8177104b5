-- ===== src/Tests/Rows.antt =====
-- Runs of the queue of operations in internal/store/store.go.
use my_wio.Base.{◌*◌, ◌≤◌, String, ◌≡◌, refl, Bool, true, false, not, none, some, [], ◌∷◌, str_eq}
use my_wio.Store.Table.{update_where, affected, order_by}
use my_wio.Store.Operations.{
  Operation, is_active, operation, is_pending, sent_before, pending_operations, mark_delivered,
  mark_running, OperationResult, operation_result_data, complete_operation_if_active,
  cancel_operation, has_active_workspace_write,
}
use my_wio.Store.Operations.Rows.{stage}
use my_wio.Store.Operations.Steps.{delivered, running, completed}
use my_wio.Store.Operations.Lifecycle.{Reach, here, next, finished_forever, operation_moves_forward}
use my_wio.Store.Queue.{
  Db, OperationResource, granted, refused, workspace_write_active, queue_operation_payload,
  insert_resolved, resolve_operation_resource, id_of_key, insert_operation, after_insert,
  new_operation, clash,
}
use my_wio.Store.Queue.Idempotency.{queue_again}
use my_wio.Store.Queue.Exclusion.{queue_busy}

abbrev any_json : String → Bool
any_json text = not (str_eq text "oops")

abbrev row : String → String → String → Operation
row id kind status = record {
  id = id;
  server_id = "s";
  project_id = "p";
  workspace_id = "w";
  thread_id = "";
  kind = kind;
  payload = "{}";
  status = status;
  workspace_write = true;
  idempotency_key = id;
  result = "";
  result_data = "{}";
  created_at = 5;
  delivered_at = none;
  started_at = none;
  completed_at = none;
}

abbrev commit : Operation
commit = row "o1" "git.commit" "queued"

abbrev finished_commit : Operation
finished_commit = record (row "o1" "git.commit" "succeeded") {
  result = "pushed";
  completed_at = some 9;
}

abbrev success : OperationResult
success = record { operation_id = "o1"; status = "succeeded"; message = "pushed"; data_text = "" }

abbrev failure : OperationResult
failure = record { operation_id = "o1"; status = "failed"; message = "late"; data_text = "[]" }

lives :
    (mark_running "o1" 7 (mark_delivered "o1" 6 (commit ∷ []))
      ≡ record commit { status = "running"; delivered_at = some 6; started_at = some 7 } ∷ [])
    × (complete_operation_if_active any_json success 9 (commit ∷ [])
        ≡ some (finished_commit ∷ [], true))
    × (complete_operation_if_active any_json failure 9 (finished_commit ∷ [])
        ≡ some (finished_commit ∷ [], false))
    × (complete_operation_if_active any_json (record success { data_text = "oops" }) 9 (commit ∷ [])
        ≡ none)
    × (cancel_operation "o2" "stop" 9 (commit ∷ []) ≡ (commit ∷ [], false))
unfolding mark_running mark_delivered complete_operation_if_active operation_result_data
    cancel_operation is_active update_where affected
lives = (refl, refl, refl, refl, refl)

-- Late statements on a finished operation.
late : Reach any_json (finished_commit ∷ []) (finished_commit ∷ [])
unfolding mark_running mark_delivered complete_operation_if_active operation_result_data is_active
    update_where affected
late =
    next (next (next here (delivered "o1" 11)) (running "o1" 12))
      (completed failure 13 false refl refl)

finished_forever_example : operation "o1" (finished_commit ∷ []) ≡ some finished_commit
unfolding operation is_active
finished_forever_example = finished_forever any_json "o1" late refl refl

started : Reach any_json (commit ∷ []) (mark_running "o1" 7 (commit ∷ []))
started = next here (running "o1" 7)

operation_moves_forward_example :
    (o' : Operation) × (operation "o1" (mark_running "o1" 7 (commit ∷ [])) ≡ some o')
    × (stage "queued" ≤ stage o'.status)
    × (o'.idempotency_key ≡ "o1")
    × (o'.payload ≡ "{}")
unfolding operation
operation_moves_forward_example = operation_moves_forward any_json "o1" started refl

abbrev interrupt : Operation
interrupt = record (row "o2" "operation.interrupt" "queued") {
  created_at = 8;
  workspace_write = false;
}

pending_run :
    pending_operations "s" (40 * 1000000000) (commit ∷ interrupt ∷ finished_commit ∷ [])
    ≡ interrupt ∷ commit ∷ []
unfolding pending_operations is_pending sent_before order_by
pending_run = refl

abbrev resource : OperationResource
resource = record { project_id = ""; workspace_id = "w"; thread_id = "" }

abbrev whole : OperationResource
whole = record { project_id = "p"; workspace_id = "w"; thread_id = "" }

abbrev empty : Db
empty = record {
  operations = [];
  servers = "s" ∷ [];
  projects = "p" ∷ [];
  workspaces = record { id = "w"; project_id = "p"; server_id = "s" } ∷ [];
  threads = [];
}

abbrev alone : Db → Db
alone db = db

abbrev with_commit : Db → Db
with_commit db = record db { operations = commit ∷ [] }

queue_runs :
    queue_operation_payload alone "o1" 5 "s" "git.commit" "{}" "o1" resource true empty
    ≡ (with_commit empty, granted "o1")
unfolding queue_operation_payload id_of_key resolve_operation_resource insert_resolved
    insert_operation after_insert new_operation clash
queue_runs = refl

queue_again_example :
    queue_operation_payload alone "o9" 99 "s" "git.push" "[]" "o1" whole false (with_commit empty)
    ≡ (with_commit empty, granted "o1")
queue_again_example =
    queue_again alone alone "o1" "o9" 5 99 "s" "s" "git.commit" "git.push" "{}" "[]" "o1" resource
      whole true false empty (with_commit empty) "o1" queue_runs

queue_busy_example :
    queue_operation_payload alone "o9" 6 "s" "git.push" "{}" "k" resource true (with_commit empty)
    ≡ (with_commit empty, refused workspace_write_active)
unfolding id_of_key resolve_operation_resource has_active_workspace_write is_active
queue_busy_example =
    queue_busy alone "o9" 6 "s" "git.push" "{}" "k" resource true (with_commit empty)
      {resolved = whole} refl refl refl refl refl refl
