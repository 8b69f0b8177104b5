-- ===== src/Store/CodexSnapshots/Stale.antt =====
-- internal/store/codex_snapshots.go: results that come too late for the cache.
use my_wio.Base.{
  ltb, ℕ, str_eq, String, ◌≡◌, refl, Bool, true, false, ◌&&◌, List, [], ◌∷◌, Option, some, none,
  any, arith, ◌==◌, Option-cases, inl, inr,
}
use my_wio.Store.Table.{update_where, affected, any-update_where}
use my_wio.Store.Operations.{Operation, OperationResult, is_active, operation_result_data}
use my_wio.Store.CodexSnapshots.{
  CodexSnapshot, Capability, CodexTables, is_newer_refresh, is_saved, in_scope,
  commit_codex_snapshot, complete_codex_snapshot_operation,
}

-- The rows behind a result; an error is raised before the transaction.
unfoldable pub snapshots_after : CodexTables → Option (CodexTables × Bool) → List CodexSnapshot
snapshots_after t none = t.snapshots
snapshots_after t (some u) = u.0.snapshots

affected_of_any :
    {R : Type 0} (q : R → Bool) (rows : List R) → any q rows ≡ true → (affected q rows == 0) ≡ false
unfolding affected
affected_of_any q [] h = ground arith
affected_of_any q (r ∷ rows) h = ground (arith, affected_of_any q rows)

module _ (json_valid : String → Bool) (decode : String → Option Capability) (now : ℕ)
    (o : Operation) (scope_type scope_id : String) (r : OperationResult) (t : CodexTables)
    (newer : any
        (λ p.
          str_eq p.kind o.kind && ltb o.created_at p.created_at && in_scope scope_type scope_id p)
        t.operations
      ≡ true) where
  commit_codex_snapshot-keeps :
      (text : String) (capability : Option Capability)
      → (commit_codex_snapshot json_valid decode now o scope_type scope_id r text capability
          t).0.snapshots
        ≡ t.snapshots
  unfolding commit_codex_snapshot is_saved is_newer_refresh in_scope
  commit_codex_snapshot-keeps text capability =
      let p : Operation → Bool =
        λ row. str_eq row.id o.id && str_eq row.kind o.kind && is_active row.status in
      let f : Operation → Operation = λ row. record row {
        status = r.status;
        result = r.message;
        result_data = text;
        completed_at = some now;
      } in
      let same =
        any-update_where (is_newer_refresh o scope_type scope_id) p f t.operations (λ row. refl) in
      let counted =
        affected_of_any (is_newer_refresh o scope_type scope_id) (update_where p f t.operations) in
      ground (arith, same, counted, newer)

  -- The result of a refresh leaves every cached answer as it is when a later refresh of the kind has
  -- been created for its scope.
  pub stale_result_keeps_snapshots :
      snapshots_after t
        (complete_codex_snapshot_operation json_valid decode now o scope_type scope_id r t)
      ≡ t.snapshots
  unfolding complete_codex_snapshot_operation snapshots_after
  stale_result_keeps_snapshots =
      let keeps = commit_codex_snapshot-keeps in
      elim (Option-cases (operation_result_data json_valid r.data_text)) [
        | inl e ↦ ground (arith, e)
        | inr (text, e) ↦ elim (Option-cases (decode r.data_text)) [
          | inl d ↦ ground (arith, e, d, keeps text none)
          | inr (c, d) ↦ ground (arith, e, d, keeps text none, keeps text (some c))
        ]
      ]
