-- ===== src/Tests/Interrupts.antt =====
-- Runs of the requests to interrupt an operation.
use my_wio.Base.{◌≡◌, refl, String, false, none, [], ◌∷◌, ◌<>◌}
use my_wio.Store.Table.{affected, order_by}
use my_wio.Store.Operations.{Operation, is_active, operation}
use my_wio.Store.Queue.{clash, holds_write, holds_import, new_operation}
use my_wio.Store.Interrupts.{
  can_interrupt_operation, interrupts, is_interrupt_of, latest_interrupt, interrupt_row,
  insert_interrupt, request_after, request_operation_interrupt,
}
use my_wio.Store.Interrupts.Repeats.{request_operation_interrupt_again}

abbrev scan : Operation
scan = record {
  id = "o2";
  server_id = "s";
  project_id = "";
  workspace_id = "w";
  thread_id = "";
  kind = "workspace.files";
  payload = "{}";
  status = "running";
  workspace_write = false;
  idempotency_key = "scan";
  result = "";
  result_data = "{}";
  created_at = 5;
  delivered_at = none;
  started_at = none;
  completed_at = none;
}

abbrev encode : String → String → String
encode id kind = id <> kind

abbrev stop : Operation
stop = record scan {
  id = "i1";
  kind = "operation.interrupt";
  payload = "o2workspace.files";
  status = "queued";
  idempotency_key = "operation-interrupt:o2:";
  created_at = 8;
}

request_operation_interrupt_again_example :
    request_operation_interrupt encode "i2" 9 "o2" (stop ∷ scan ∷ [])
    ≡ (stop ∷ scan ∷ [], interrupts "i1")
unfolding affected is_active operation can_interrupt_operation latest_interrupt order_by
    is_interrupt_of insert_interrupt interrupt_row new_operation request_after
    request_operation_interrupt clash holds_write holds_import
request_operation_interrupt_again_example =
    request_operation_interrupt_again encode "i1" "i2" 8 9 "o2" (scan ∷ []) refl refl
