-- ===== src/Store/Operations.antt =====
-- internal/store/store.go: the queue of Agent operations, one row to an operation, and the statements
-- that move a row through its life.
pub mod Rows
pub mod Steps
pub mod Lifecycle
pub mod Unique
pub mod Pending
pub mod Redelivery
use my_wio.Base.{
  ℕ, ◌-◌, ◌*◌, String, Bool, true, false, ◌&&◌, ◌||◌, not, Option, none, some, List, [], ◌∷◌,
  str_eq, ltb, ◌==◌, if◌then◌else◌, keep, take, find_first, any, ℤ, pos, negsuc,
}
use my_wio.Store.Table.{update_where, affected, order_by}

-- A row of `agent_operations`. A NULL id is the empty text. Times are nanoseconds.
pub record Operation : Type 0 where
  pub id : String
  pub server_id : String
  pub project_id : String
  pub workspace_id : String
  pub thread_id : String
  pub kind : String
  pub payload : String
  pub status : String
  pub workspace_write : Bool
  pub idempotency_key : String
  pub result : String
  pub result_data : String
  pub created_at : ℕ
  pub delivered_at : Option ℕ
  pub started_at : Option ℕ
  pub completed_at : Option ℕ

-- `status IN ('queued','delivered','running')`.
unfoldable pub is_active : String → Bool
is_active status = str_eq status "queued" || str_eq status "delivered" || str_eq status "running"

-- `COALESCE(a, b)`.
abbrev pub coalesce : Option ℕ → ℕ → ℕ
coalesce none b = b
coalesce (some a) b = a

-- `Operation`: the row with an id.
unfoldable pub operation : String → List Operation → Option Operation
operation id ops = find_first (λ o. str_eq o.id id) ops

abbrev pub redelivery_ns : ℕ
redelivery_ns = 30 * 1000000000

-- Turns that are claimed before they are sent are not sent again.
unfoldable pub is_claimed_turn : String → Bool
is_claimed_turn kind =
    str_eq kind "gemini.turn.start"
    || str_eq kind "gemini.turn.rewrite"
    || str_eq kind "claude.turn.start"

delivered_before : Option ℕ → ℕ → Bool
delivered_before none cutoff = false
delivered_before (some t) cutoff = ltb t cutoff

-- The `WHERE` of `PendingOperations`.
unfoldable pub is_pending : String → ℕ → Operation → Bool
unfolding is_claimed_turn delivered_before
is_pending server_id cutoff o =
    str_eq o.server_id server_id
    && (str_eq o.status "queued"
        || (str_eq o.status "delivered"
            && delivered_before o.delivered_at cutoff
            && not (is_claimed_turn o.kind))
        || (str_eq o.kind "operation.interrupt"
            && str_eq o.status "running"
            && ltb (coalesce o.started_at (coalesce o.delivered_at o.created_at)) cutoff))

-- Its `ORDER BY`: interrupts first, then by age.
unfoldable pub sent_before : Operation → Operation → Bool
sent_before a b =
    let x = str_eq a.kind "operation.interrupt" in
    let y = str_eq b.kind "operation.interrupt" in
    (x && not y) || (not (y && not x) && ltb a.created_at b.created_at)

abbrev pub pending_limit : ℕ
pending_limit = 100

unfoldable pub pending_operations : String → ℕ → List Operation → List Operation
pending_operations server_id now ops =
    take pending_limit
      (order_by sent_before (keep (is_pending server_id (now - redelivery_ns)) ops))

unfoldable pub mark_delivered : String → ℕ → List Operation → List Operation
mark_delivered id now ops =
    update_where (λ o. str_eq o.id id && str_eq o.status "queued")
      (λ o. record o { status = "delivered"; delivered_at = some now }) ops

-- `ClaimGeminiDelivery` of internal/store/gemini.go: the new table and whether one row was claimed.
unfoldable pub is_claimable : String → Operation → Bool
is_claimable id o = str_eq o.id id && str_eq o.status "queued" && is_claimed_turn o.kind

unfoldable pub claim_gemini_delivery : String → ℕ → List Operation → List Operation × Bool
claim_gemini_delivery id now ops = (
  update_where (is_claimable id) (λ o. record o { status = "delivered"; delivered_at = some now })
      ops,
  affected (is_claimable id) ops == 1,
)

unfoldable pub mark_running : String → ℕ → List Operation → List Operation
mark_running id now ops =
    update_where (λ o. str_eq o.id id && is_active o.status)
      (λ o. record o {
        status = "running";
        delivered_at = some (coalesce o.delivered_at now);
        started_at = some (coalesce o.started_at now);
      })
      ops

-- `protocol.OperationResult`; empty data is the empty text.
pub record OperationResult : Type 0 where
  pub operation_id : String
  pub status : String
  pub message : String
  pub data_text : String

-- `operationResultData`; `json_valid` is `json.Valid`.
unfoldable pub operation_result_data : (String → Bool) → String → Option String
operation_result_data json_valid text =
    if str_eq text "" then some "{}" else if json_valid text then some text else none

-- `CompleteOperationIfActive`: the new table and whether the result was taken, or `none` for data
-- that is not JSON.
unfoldable pub complete_operation_if_active :
    (String → Bool) → OperationResult → ℕ → List Operation → Option (List Operation × Bool)
complete_operation_if_active json_valid r now ops =
    elim (operation_result_data json_valid r.data_text) [
      | none ↦ none
      | some text ↦
          let p : Operation → Bool = λ o. str_eq o.id r.operation_id && is_active o.status in
          some (
            update_where p
                (λ o. record o {
                  status = r.status;
                  result = r.message;
                  result_data = text;
                  completed_at = some now;
                })
                ops,
            affected p ops == 1,
          )
    ]

-- `CancelOperation` of internal/store/scheduled_tasks.go.
unfoldable pub cancel_operation : String → String → ℕ → List Operation → List Operation × Bool
cancel_operation id message now ops =
    let p : Operation → Bool = λ o. str_eq o.id id && is_active o.status in
    (
      update_where p
          (λ o. record o { status = "cancelled"; result = message; completed_at = some now }) ops,
      ltb 0 (affected p ops),
    )

-- `column=?` on a column that may be NULL: NULL equals nothing.
abbrev pub refers : String → String → Bool
refers column value = not (str_eq column "") && str_eq column value

-- `HasActiveWorkspaceWriteOperation` and `HasActiveOperation`.
unfoldable pub has_active_workspace_write : String → List Operation → Bool
has_active_workspace_write workspace_id ops =
    any (λ o. refers o.workspace_id workspace_id && o.workspace_write && is_active o.status) ops

unfoldable pub has_active_operation : String → String → List Operation → Bool
has_active_operation server_id kind ops =
    any
      (λ o.
        str_eq o.server_id server_id
        && str_eq o.kind kind
        && (str_eq o.status "queued" || str_eq o.status "delivered"))
      ops

-- `operationListLimit`.
unfoldable pub operation_list_limit : ℤ → ℕ
operation_list_limit (negsuc _) = 100
operation_list_limit (pos limit) = if limit == 0 then 100 else if ltb 500 limit then 500 else limit

-- `ListWorkspaceOperations`.
unfoldable pub list_workspace_operations : String → ℤ → List Operation → List Operation
unfolding operation_list_limit
list_workspace_operations workspace_id limit ops = take (operation_list_limit limit) (
    order_by (λ a b. ltb b.created_at a.created_at)
      (keep (λ o. refers o.workspace_id workspace_id) ops))
