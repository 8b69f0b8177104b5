-- ===== src/Store/Operations/Redelivery.antt =====
-- internal/store/store.go: when an operation is sent, and when it is sent again.
use my_wio.Base.{
  ℕ, ◌+◌, ◌-◌, ◌*◌, ◌≤◌, String, ◌≡◌, refl, ◌∙◌, Bool, true, false, ◌&&◌, not, some, List, [], ◌∷◌,
  str_eq, str_eq_iff, subst, ltb, length, keep, any, arith, Bool-cases, inl, inr,
}
use my_wio.Store.Operations.{
  Operation, is_active, operation, redelivery_ns, is_claimed_turn, is_pending, pending_limit,
  pending_operations, mark_delivered,
}
use my_wio.Store.Operations.Rows.{operation-update_where}
use my_wio.Store.Operations.Steps.{delivered}
use my_wio.Store.Operations.Lifecycle.{here, next}
use my_wio.Store.Operations.Unique.{has_row, has_unique_ids, Reach-unique}
use my_wio.Store.Operations.Pending.{pending_operations_complete}

-- The operations of a server that are not at rest.
abbrev pub is_open : String → Operation → Bool
is_open server_id o = str_eq o.server_id server_id && is_active o.status

is_pending-is_open :
    (server_id : String) (cutoff : ℕ) (o : Operation)
    → is_pending server_id cutoff o ≡ true
    → is_open server_id o ≡ true
unfolding is_pending is_active
is_pending-is_open server_id cutoff o h = ground arith

fewer_pending :
    (server_id : String) (cutoff : ℕ) (ops : List Operation)
    → length (keep (is_pending server_id cutoff) ops) ≤ length (keep (is_open server_id) ops)
fewer_pending server_id cutoff [] = omega arith
fewer_pending server_id cutoff (o ∷ ops) =
    ground (arith, is_pending-is_open server_id cutoff o, fewer_pending server_id cutoff ops)

absent_row :
    (p : Operation → Bool) (id : String) (ops : List Operation)
    → has_row id ops ≡ false
    → any (λ o. p o && str_eq o.id id) ops ≡ false
absent_row p id [] h = refl
absent_row p id (o ∷ ops) h = ground (arith, absent_row p id ops)

row_alone :
    (p : Operation → Bool) (id : String) (ops : List Operation) {o : Operation}
    → has_unique_ids ops ≡ true
    → operation id ops ≡ some o
    → any (λ x. p x && str_eq x.id id) ops ≡ p o
unfolding has_unique_ids operation
row_alone p id [] u e = absurd (ground arith)
row_alone p id (x ∷ ops) {o} u e = elim (Bool-cases (str_eq x.id id)) [
  | inl s ↦
      let same : x ≡ o = ground arith in
      let rest =
        absent_row p id ops
          (subst (λ i. has_row i ops ≡ false) ((str_eq_iff x.id id).0 s) (ground arith)) in
      subst (λ (y : Operation). (any (λ z. p z && str_eq z.id id) (x ∷ ops)) ≡ p y) same
        (ground (arith, rest))
  | inr n ↦ ground (arith, row_alone p id ops {o = o})
]

found_id :
    (id : String) (ops : List Operation) {o : Operation}
    → operation id ops ≡ some o
    → str_eq o.id id ≡ true
unfolding operation
found_id id [] e = absurd (ground arith)
found_id id (x ∷ ops) {o} e = elim (Bool-cases (str_eq x.id id)) [
  | inl s ↦ let same : x ≡ o = ground arith in subst (λ y. str_eq y.id id ≡ true) same s
  | inr n ↦ found_id id ops {o = o} (ground arith)
]

abbrev marked : ℕ → Operation → Operation
marked now o = record o { status = "delivered"; delivered_at = some now }

marked_row :
    (id : String) (now : ℕ) (ops : List Operation) {o : Operation}
    → operation id ops ≡ some o
    → str_eq o.status "queued" ≡ true
    → operation id (mark_delivered id now ops) ≡ some (marked now o)
unfolding mark_delivered
marked_row id now ops {o} e q =
    operation-update_where id (λ x. str_eq x.id id && str_eq x.status "queued") (marked now)
      (λ x. refl) ops
    ∙ rw e (rw (found_id id ops e, q) refl)

delivered_due :
    (server_id : String) (now later : ℕ) (o : Operation)
    → redelivery_ns ≤ later
    → is_pending server_id (later - redelivery_ns) (marked now o) ≡ (
        str_eq o.server_id server_id
        && ltb (now + redelivery_ns) later
        && not (
            any
              (str_eq o.kind)
              ("gemini.turn.start" ∷ "gemini.turn.rewrite" ∷ "claude.turn.start" ∷ [])))
unfolding is_pending is_claimed_turn
delivered_due server_id now later o old = ground arith

module _ (id : String) (ops : List Operation) {o : Operation} (unique : has_unique_ids ops ≡ true)
    (found : operation id ops ≡ some o) (waits : str_eq o.status "queued" ≡ true) where
  pending_row :
      (server_id : String) (at : ℕ) (table : List Operation) {row : Operation}
      → has_unique_ids table ≡ true
      → operation id table ≡ some row
      → length (keep (is_open server_id) table) ≤ pending_limit
      → any (λ x. str_eq x.id id) (pending_operations server_id at table)
        ≡ is_pending server_id (at - redelivery_ns) row
  pending_row server_id at table u e few =
      pending_operations_complete server_id at table id
        (omega (arith, fewer_pending server_id (at - redelivery_ns) table, few))
      ∙ row_alone (is_pending server_id (at - redelivery_ns)) id table u e

  -- In a table without two rows of one id, a queued operation is sent to its server, and to no other,
  -- at any time: where no more than a hundred operations of a server are open, it is among the pending
  -- ones of that server exactly if the server is its own.
  pub queued_operation_sent :
      (server_id : String) (now : ℕ)
      → length (keep (is_open server_id) ops) ≤ pending_limit
      → any (λ x. str_eq x.id id) (pending_operations server_id now ops)
        ≡ str_eq o.server_id server_id
  unfolding is_pending
  queued_operation_sent server_id now few =
      let row = pending_row server_id now ops unique found few in ground (arith, row)

  -- In a table without two rows of one id, a queued operation that was marked as delivered at some time
  -- is sent again to its server, and to no other, exactly when more than thirty seconds have gone by,
  -- and never if it is a turn of Gemini or Claude, where no more than a hundred operations of the server
  -- are open, and the clock has run for thirty seconds.
  pub delivered_operation_resent :
      (server_id : String) (now later : ℕ)
      → 30 * 1000000000 ≤ later
      → length (keep (is_open server_id) (mark_delivered id now ops)) ≤ pending_limit
      → any (λ x. str_eq x.id id) (pending_operations server_id later (mark_delivered id now ops))
        ≡ (str_eq o.server_id server_id
            && ltb (now + 30 * 1000000000) later
            && not (
                any
                  (str_eq o.kind)
                  ("gemini.turn.start" ∷ "gemini.turn.rewrite" ∷ "claude.turn.start" ∷ [])))
  delivered_operation_resent server_id now later old few =
      let still = Reach-unique (λ text. true) (next here (delivered id now)) unique in
      pending_row server_id later (mark_delivered id now ops) still
        (marked_row id now ops found waits) few
      ∙ delivered_due server_id now later o old
