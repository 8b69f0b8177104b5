-- ===== src/Store/CodexSnapshots/Expiry.antt =====
-- internal/store/codex_snapshots.go: what the expiry of refreshes leaves.
use my_wio.Base.{
  ℕ, ◌-◌, ◌*◌, ◌≡◌, refl, Bool, true, false, List, [], ◌∷◌, none, some, any, all, arith, String,
  str_eq, ◌<>◌, ◌&&◌, ◌||◌, not, leb, ltb, str_eq_iff, ap, ◌∙◌, subst, sym, Bool-cases, inl, inr,
}
use my_wio.Store.Table.{update_where}
use my_wio.Store.Operations.{Operation, is_active, coalesce, operation}
use my_wio.Store.Operations.Rows.{operation-update_where}
use my_wio.Store.CodexSnapshots.{
  CodexSnapshot, CodexTables, is_overdue, is_orphaned, expire_codex_snapshots,
  codex_snapshot_timeout, timeout_message, in_scope, refreshes, requested_by, is_refreshed_kind,
  is_read_only_codex_snapshot_operation,
}

any-update_where_out :
    {R : Type 0} (p : R → Bool) (f : R → R) (rows : List R)
    → ((r : R) → p r ≡ true → p (f r) ≡ false)
    → any p (update_where p f rows) ≡ false
unfolding update_where
any-update_where_out p f [] out = refl
any-update_where_out p f (r ∷ rows) out = ground (arith, out r, any-update_where_out p f rows out)

failed_is_not_overdue :
    (now cutoff : ℕ) (o : Operation)
    → is_overdue cutoff o ≡ true
    → is_overdue cutoff
        (record o { status = "failed"; result = timeout_message; completed_at = some now })
      ≡ false
unfolding is_overdue is_active
failed_is_not_overdue now cutoff o h = ground arith

-- The four kinds of rows that are refreshed, and the operations that refresh them.
abbrev pub refreshed_kinds : List String
refreshed_kinds = "models.list" ∷ "skills.list" ∷ "mcp.list" ∷ "status.snapshot" ∷ []

-- An operation for the scope and the kind of a row, in its queue, that was started, delivered or
-- created behind the cutoff.
abbrev pub supports : ℕ → CodexSnapshot → Operation → Bool
supports cutoff s o =
    str_eq o.kind ("codex." <> s.kind)
    && is_active o.status
    && in_scope s.scope_type s.scope_id o
    && ltb cutoff (coalesce o.started_at (coalesce o.delivered_at o.created_at))

-- A row of one of the four kinds that has been loading since the cutoff or longer.
abbrev pub waits_since : ℕ → CodexSnapshot → Bool
waits_since cutoff s =
    any (str_eq s.kind) refreshed_kinds
    && str_eq s.status "loading"
    && elim s.requested_at [ none ↦ false | some at ↦ leb at cutoff ]

read_only_of_refreshed :
    (kind other : String)
    → any (str_eq kind) refreshed_kinds ≡ true
    → str_eq other ("codex." <> kind) ≡ true
    → is_read_only_codex_snapshot_operation other ≡ true
read_only_of_refreshed kind other h e = elim (Bool-cases (str_eq kind "models.list")) [
  | inl k ↦ named "models.list" k (unfold is_read_only_codex_snapshot_operation in refl)
  | inr k ↦ elim (Bool-cases (str_eq kind "skills.list")) [
    | inl l ↦ named "skills.list" l (unfold is_read_only_codex_snapshot_operation in refl)
    | inr l ↦ elim (Bool-cases (str_eq kind "mcp.list")) [
      | inl m ↦ named "mcp.list" m (unfold is_read_only_codex_snapshot_operation in refl)
      | inr m ↦
          named "status.snapshot" (ground arith)
            (unfold is_read_only_codex_snapshot_operation in refl)
    ]
  ]
]
  where
    named :
        (name : String)
        → str_eq kind name ≡ true
        → is_read_only_codex_snapshot_operation ("codex." <> name) ≡ true
        → is_read_only_codex_snapshot_operation other ≡ true
    named name k r =
        subst (λ x. is_read_only_codex_snapshot_operation x ≡ true)
          (sym ((str_eq_iff other ("codex." <> kind)).0 e))
          (subst (λ x. is_read_only_codex_snapshot_operation ("codex." <> x) ≡ true)
            (sym ((str_eq_iff kind name).0 k)) r)

refreshes-supports :
    (cutoff : ℕ) (s : CodexSnapshot) (ops : List Operation)
    → any (str_eq s.kind) refreshed_kinds ≡ true
    → any (is_overdue cutoff) ops ≡ false
    → any (refreshes s) ops ≡ true
    → any (supports cutoff s) ops ≡ true
unfolding refreshes is_overdue
refreshes-supports cutoff s [] k h r = r
refreshes-supports cutoff s (o ∷ ops) k h r =
    ground (arith, read_only_of_refreshed s.kind o.kind k, refreshes-supports cutoff s ops k)

all-update_where :
    {R : Type 0} (q p : R → Bool) (f : R → R) (rows : List R)
    → ((r : R) → p r ≡ true → q (f r) ≡ true)
    → ((r : R) → p r ≡ false → q r ≡ true)
    → all q (update_where p f rows) ≡ true
unfolding update_where
all-update_where q p f [] changed kept = refl
all-update_where q p f (r ∷ rows) changed kept =
    ground (arith, changed r, kept r, all-update_where q p f rows changed kept)

unless_orphaned :
    (cutoff : ℕ) (ops : List Operation) (s : CodexSnapshot)
    → any (is_overdue cutoff) ops ≡ false
    → is_orphaned cutoff ops s ≡ false
    → (not (waits_since cutoff s) || any (supports cutoff s) ops) ≡ true
unfolding is_orphaned is_refreshed_kind requested_by
unless_orphaned cutoff ops s h n = ground (arith, refreshes-supports cutoff s ops)

module _ (now : ℕ) (t : CodexTables) where
  -- An expiry leaves no row of the four refreshed kinds loading for eleven minutes or longer, unless an
  -- operation of its kind and scope is in the queue that was started, or else delivered or created,
  -- less than eleven minutes ago.
  pub expire_codex_snapshots-recovers :
      let cutoff = now - 11 * 60 * 1000000000 in
      let expired = expire_codex_snapshots now t in
      all
        (λ s. not (waits_since cutoff s) || any (supports cutoff s) expired.operations)
        expired.snapshots
      ≡ true
  unfolding expire_codex_snapshots
  expire_codex_snapshots-recovers =
      let cutoff = now - codex_snapshot_timeout in
      let ops =
        update_where (is_overdue cutoff)
          (λ o. record o { status = "failed"; result = timeout_message; completed_at = some now })
          t.operations in
      all-update_where _ _ _ t.snapshots (λ s h. ground arith)
        (λ s h.
          unless_orphaned cutoff ops s
            (any-update_where_out _ _ t.operations (failed_is_not_overdue now cutoff)) h)

  -- An expiry never touches an operation of another kind, a turn or a write among them.
  pub expire_codex_snapshots-keeps :
      (id : String) {o : Operation}
      → operation id t.operations ≡ some o
      → any (str_eq o.kind) (
          "codex.models.list" ∷ "codex.skills.list" ∷ "codex.mcp.list" ∷ "codex.status.snapshot"
          ∷ [])
        ≡ false
      → operation id (expire_codex_snapshots now t).operations ≡ some o
  unfolding expire_codex_snapshots is_overdue is_read_only_codex_snapshot_operation
  expire_codex_snapshots-keeps id {o} e k =
      operation-update_where id _ _ (λ o. refl) t.operations ∙ rw e (ap some (ground arith))
