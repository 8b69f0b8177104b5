-- ===== src/Tests/Refreshes.antt =====
-- Runs of the snapshots in internal/store/codex_snapshots.go.
use my_wio.Base.{
  ◌*◌, not, ◌||◌, all, map, ◌≡◌, refl, true, false, none, some, List, [], ◌∷◌, String, ℕ, ◌-◌, any,
}
use my_wio.Store.Operations.{
  operation, is_active, operation_result_data, Operation, OperationResult,
}
use my_wio.Store.CodexSnapshots.{
  refreshes, requested_by, is_refreshed_kind, in_scope, is_newer_refresh, is_saved,
  commit_codex_snapshot, is_read_only_codex_snapshot_operation, CodexSnapshot, Capability,
  CodexTables, complete_codex_snapshot_operation, expire_codex_snapshots, is_overdue, is_orphaned,
}
use my_wio.Store.CodexSnapshots.Expiry.{
  waits_since, supports, expire_codex_snapshots-recovers, expire_codex_snapshots-keeps,
}
use my_wio.Store.CodexSnapshots.Stale.{snapshots_after, stale_result_keeps_snapshots}
use my_wio.Store.Table.{update_where, affected}

abbrev refresh : String → ℕ → Operation
refresh id created_at = record {
  id = id;
  server_id = "s";
  project_id = "";
  workspace_id = "w";
  thread_id = "t";
  kind = "codex.models.list";
  payload = "{}";
  status = "running";
  workspace_write = false;
  idempotency_key = id;
  result = "";
  result_data = "{}";
  created_at = created_at;
  delivered_at = none;
  started_at = none;
  completed_at = none;
}

abbrev loading : CodexSnapshot
loading = record {
  scope_type = "thread";
  scope_id = "t";
  kind = "models.list";
  data_text = "[]";
  supported = true;
  reason = "";
  codex_version = "1";
  status = "loading";
  error = "";
  requested_at = some 5;
  updated_at = 5;
}

abbrev tables : List Operation → CodexTables
tables ops = record { operations = ops; snapshots = loading ∷ [] }

abbrev answer : OperationResult
answer = record { operation_id = "a"; status = "succeeded"; message = ""; data_text = "[1]" }

abbrev decoded : Capability
decoded = record { supported = true; reason = ""; codex_version = "2"; data_text = "[1]" }

-- The answer to the only refresh is kept.
saved_run :
    snapshots_after (tables (refresh "a" 5 ∷ [])) (
      complete_codex_snapshot_operation
        (λ s. true)
        (λ s. some decoded)
        9
        (refresh "a" 5)
        "thread"
        "t"
        answer
        (tables (refresh "a" 5 ∷ [])))
    ≡ (record loading {
      data_text = "[1]";
      codex_version = "2";
      status = "succeeded";
      updated_at = 9;
    })
      ∷ []
unfolding snapshots_after complete_codex_snapshot_operation is_read_only_codex_snapshot_operation
    operation_result_data commit_codex_snapshot affected is_active is_saved update_where
    is_newer_refresh
saved_run = refl

stale_result_keeps_snapshots_example :
    snapshots_after (tables (refresh "a" 5 ∷ refresh "b" 7 ∷ [])) (
      complete_codex_snapshot_operation
        (λ s. true)
        (λ s. some decoded)
        9
        (refresh "a" 5)
        "thread"
        "t"
        answer
        (tables (refresh "a" 5 ∷ refresh "b" 7 ∷ [])))
    ≡ loading ∷ []
unfolding is_newer_refresh in_scope
stale_result_keeps_snapshots_example =
    stale_result_keeps_snapshots (λ s. true) (λ s. some decoded) 9 (refresh "a" 5) "thread" "t"
      answer (tables (refresh "a" 5 ∷ refresh "b" 7 ∷ [])) refl

-- An hour later, in nanoseconds.
abbrev late : ℕ
late = 3600000000000

expire_codex_snapshots-recovers_example :
    let cutoff = late - 11 * 60 * 1000000000 in
    let expired = expire_codex_snapshots late (tables (refresh "a" 5 ∷ [])) in
    all
      (λ s. not (waits_since cutoff s) || any (supports cutoff s) expired.operations)
      expired.snapshots
    ≡ true
expire_codex_snapshots-recovers_example =
    expire_codex_snapshots-recovers late (tables (refresh "a" 5 ∷ []))

-- What becomes of the row.
expired_run :
    map (λ s. s.status) (expire_codex_snapshots late (tables (refresh "a" 5 ∷ []))).snapshots
    ≡ "failed" ∷ []
unfolding expire_codex_snapshots update_where is_orphaned is_refreshed_kind requested_by refreshes
    is_overdue is_read_only_codex_snapshot_operation is_active
expired_run = refl

expire_codex_snapshots-keeps_example :
    operation "a"
      (expire_codex_snapshots late
        (tables (record (refresh "a" 5) { kind = "codex.turn.start" } ∷ []))).operations
    ≡ some (record (refresh "a" 5) { kind = "codex.turn.start" })
unfolding operation
expire_codex_snapshots-keeps_example =
    expire_codex_snapshots-keeps late
      (tables (record (refresh "a" 5) { kind = "codex.turn.start" } ∷ [])) "a"
      {o = record (refresh "a" 5) { kind = "codex.turn.start" }} refl refl
