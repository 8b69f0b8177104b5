-- ===== src/Store/CodexSnapshots.antt =====
-- internal/store/codex_snapshots.go: the cached answers of Codex, and the operations that refresh them.
pub mod Expiry
pub mod Stale
use my_wio.Base.{
  ℕ, ◌-◌, ◌*◌, ◌+◌, String, Bool, true, false, ◌&&◌, ◌||◌, not, Option, none, some, List, [], ◌∷◌,
  ◌++◌, str_eq, ◌<>◌, ltb, leb, ◌==◌, any, if◌then◌else◌,
}
use my_wio.Store.Table.{update_where, affected}
use my_wio.Store.Operations.{
  Operation, OperationResult, is_active, coalesce, refers, operation_result_data,
}

-- `IsReadOnlyCodexSnapshotOperation`.
unfoldable pub is_read_only_codex_snapshot_operation : String → Bool
is_read_only_codex_snapshot_operation kind =
    str_eq kind "codex.models.list"
    || str_eq kind "codex.skills.list"
    || str_eq kind "codex.mcp.list"
    || str_eq kind "codex.status.snapshot"

-- The kinds of the rows that such operations refresh.
unfoldable pub is_refreshed_kind : String → Bool
is_refreshed_kind kind =
    str_eq kind "models.list"
    || str_eq kind "skills.list"
    || str_eq kind "mcp.list"
    || str_eq kind "status.snapshot"

-- A row of `codex_snapshots`, of which `requested_at` may be NULL.
pub record CodexSnapshot : Type 0 where
  pub scope_type : String
  pub scope_id : String
  pub kind : String
  pub data_text : String
  pub supported : Bool
  pub reason : String
  pub codex_version : String
  pub status : String
  pub error : String
  pub requested_at : Option ℕ
  pub updated_at : ℕ

-- `protocol.CodexCapabilityResult`.
pub record Capability : Type 0 where
  pub supported : Bool
  pub reason : String
  pub codex_version : String
  pub data_text : String

pub record CodexTables : Type 0 where
  pub operations : List Operation
  pub snapshots : List CodexSnapshot

-- Whether an operation is for a scope; a NULL id refers to none.
unfoldable pub in_scope : String → String → Operation → Bool
in_scope scope_type scope_id o =
    (str_eq scope_type "workspace" && refers o.workspace_id scope_id && str_eq o.thread_id "")
    || (str_eq scope_type "thread" && refers o.thread_id scope_id)

abbrev pub codex_snapshot_timeout : ℕ
codex_snapshot_timeout = 11 * 60 * 1000000000

abbrev pub timeout_message : String
timeout_message = "Codex information refresh timed out. Please refresh to retry."

-- The first statement of `ExpireCodexSnapshots`.
unfoldable pub is_overdue : ℕ → Operation → Bool
is_overdue cutoff o =
    is_read_only_codex_snapshot_operation o.kind
    && is_active o.status
    && leb (coalesce o.started_at (coalesce o.delivered_at o.created_at)) cutoff

-- Whether an operation still refreshes a row.
unfoldable pub refreshes : CodexSnapshot → Operation → Bool
refreshes s o =
    str_eq o.kind ("codex." <> s.kind) && is_active o.status && in_scope s.scope_type s.scope_id o

-- `requested_at<=?`.
unfoldable pub requested_by : Option ℕ → ℕ → Bool
requested_by none cutoff = false
requested_by (some at) cutoff = leb at cutoff

unfoldable pub is_orphaned : ℕ → List Operation → CodexSnapshot → Bool
is_orphaned cutoff ops s =
    is_refreshed_kind s.kind
    && str_eq s.status "loading"
    && requested_by s.requested_at cutoff
    && not (any (refreshes s) ops)

-- `ExpireCodexSnapshots`.
unfoldable pub expire_codex_snapshots : ℕ → CodexTables → CodexTables
expire_codex_snapshots now t =
    let cutoff = now - codex_snapshot_timeout in
    let operations =
      update_where (is_overdue cutoff)
        (λ o. record o { status = "failed"; result = timeout_message; completed_at = some now })
        t.operations in
    record {
      operations = operations;
      snapshots =
          update_where (is_orphaned cutoff operations)
            (λ s. record s { status = "failed"; error = timeout_message; updated_at = now })
            t.snapshots;
    }

-- `strings.TrimPrefix(operation.Kind, "codex.")`, for the four kinds that get as far.
refreshed_kind : String → String
refreshed_kind kind =
    if str_eq kind "codex.models.list"
    then "models.list"
    else if str_eq kind "codex.skills.list"
    then "skills.list"
    else if str_eq kind "codex.mcp.list"
    then "mcp.list"
    else "status.snapshot"

is_row_of : String → String → String → CodexSnapshot → Bool
is_row_of scope_type scope_id kind s =
    str_eq s.scope_type scope_type && str_eq s.scope_id scope_id && str_eq s.kind kind

-- `INSERT … ON CONFLICT(scope_type,scope_id,kind) DO UPDATE`.
upsert : (CodexSnapshot → CodexSnapshot) → CodexSnapshot → List CodexSnapshot → List CodexSnapshot
unfolding is_row_of
upsert change new rows =
    let same = is_row_of new.scope_type new.scope_id new.kind in
    if any same rows then update_where same change rows else rows ++ (new ∷ [])

save_capability :
    String → String → String → Capability → ℕ → List CodexSnapshot → List CodexSnapshot
unfolding upsert
save_capability scope_type scope_id kind c now rows =
    let filled = if str_eq c.data_text "" then "{}" else c.data_text in
    upsert
      (λ s. record s {
        data_text = filled;
        supported = c.supported;
        reason = c.reason;
        codex_version = c.codex_version;
        status = "succeeded";
        error = "";
        updated_at = now;
      })
      (record {
        scope_type = scope_type;
        scope_id = scope_id;
        kind = kind;
        data_text = filled;
        supported = c.supported;
        reason = c.reason;
        codex_version = c.codex_version;
        status = "succeeded";
        error = "";
        requested_at = some now;
        updated_at = now;
      })
      rows

-- The columns that a failure leaves out have the defaults of the table.
save_failure : String → String → String → String → ℕ → List CodexSnapshot → List CodexSnapshot
unfolding upsert
save_failure scope_type scope_id kind message now rows =
    upsert (λ s. record s { status = "failed"; error = message; updated_at = now })
      (record {
        scope_type = scope_type;
        scope_id = scope_id;
        kind = kind;
        data_text = "{}";
        supported = true;
        reason = "";
        codex_version = "";
        status = "failed";
        error = message;
        requested_at = some now;
        updated_at = now;
      })
      rows

-- The answer is kept unless an operation of the kind has been created for the scope since.
unfoldable pub is_newer_refresh : Operation → String → String → Operation → Bool
is_newer_refresh o scope_type scope_id p =
    str_eq p.kind o.kind && ltb o.created_at p.created_at && in_scope scope_type scope_id p

unfoldable pub is_saved : List Operation → Operation → String → String → Bool
is_saved ops o scope_type scope_id =
    affected (is_newer_refresh o scope_type scope_id) ops == 0
    && not (str_eq scope_id "")
    && (str_eq scope_type "workspace" || str_eq scope_type "thread")

module _ (json_valid : String → Bool) (decode : String → Option Capability) (now : ℕ) where
  -- The transaction, with what a success decodes to.
  unfoldable pub commit_codex_snapshot :
      Operation
      → String
      → String
      → OperationResult
      → String
      → Option Capability
      → CodexTables
      → CodexTables × Bool
  unfolding refreshed_kind save_capability save_failure
  commit_codex_snapshot o scope_type scope_id r text capability t =
      let p : Operation → Bool =
        λ row. str_eq row.id o.id && str_eq row.kind o.kind && is_active row.status in
      let operations =
        update_where p
          (λ row. record row {
            status = r.status;
            result = r.message;
            result_data = text;
            completed_at = some now;
          })
          t.operations in
      let kind = refreshed_kind o.kind in
      let saved : List CodexSnapshot = elim capability [
        | some c ↦ save_capability scope_type scope_id kind c now t.snapshots
        | none ↦ save_failure scope_type scope_id kind r.message now t.snapshots
      ] in
      if affected p t.operations == 0 then (t, false) else (
        record {
          operations = operations;
          snapshots = if is_saved operations o scope_type scope_id then saved else t.snapshots;
        },
        true,
      )

  -- `CompleteCodexSnapshotOperation`: the tables and whether the result was taken, or `none` for data
  -- that is not JSON or no snapshot.
  unfoldable pub complete_codex_snapshot_operation :
      Operation → String → String → OperationResult → CodexTables → Option (CodexTables × Bool)
  complete_codex_snapshot_operation o scope_type scope_id r t =
      let commit = commit_codex_snapshot o scope_type scope_id r in
      if not (is_read_only_codex_snapshot_operation o.kind)
      then some (t, false)
      else elim (operation_result_data json_valid r.data_text) [
        | none ↦ none
        | some text ↦
            if not (str_eq r.status "succeeded")
            then some (commit text none t)
            else elim (decode r.data_text) [ none ↦ none | some c ↦ some (commit text (some c) t) ]
      ]
