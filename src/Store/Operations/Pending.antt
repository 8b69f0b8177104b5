-- ===== src/Store/Operations/Pending.antt =====
-- What the gateway is given to send, and that a result is taken once.
use my_wio.Base.{
  ℕ, ◌+◌, ◌-◌, ◌≤◌, String, ◌≡◌, ◌≢◌, refl, ◌∙◌, Bool, false, ◌&&◌, not, none, some, List, [], ◌∷◌,
  str_eq, ltb, str_eq_refl, ◌==◌, length, keep, any, arith, Option-cases, inl, inr,
}
use my_wio.Store.Table.{
  update_where, affected, order_by, length-order_by, any-order_by, take_of_short, update_where_none,
  affected_again,
}
use my_wio.Store.Operations.{
  Operation, is_active, redelivery_ns, is_claimed_turn, is_pending, sent_before, pending_limit,
  pending_operations, OperationResult, operation_result_data, complete_operation_if_active,
}

module _ (server_id : String) (now : ℕ) (ops : List Operation) where
  abbrev pending : List Operation
  pending = pending_operations server_id now ops

  abbrev due : Operation → Bool
  due = is_pending server_id (now - redelivery_ns)

  any-keep :
      (p : Operation → Bool) (rows : List Operation)
      → any p (keep due rows) ≡ any (λ o. due o && p o) rows
  any-keep p [] = refl
  any-keep p (o ∷ rows) = ground (arith, any-keep p rows)

  -- While no more than a hundred operations are due for a server, every one of them is handed to
  -- its connection.
  pub pending_operations_complete :
      (id : String)
      → length (keep due ops) ≤ pending_limit
      → any (λ o. str_eq o.id id) pending ≡ any (λ o. due o && str_eq o.id id) ops
  unfolding pending_operations
  pending_operations_complete id h =
      rw
        (take_of_short pending_limit (order_by sent_before (keep due ops))
          (rw (length-order_by sent_before (keep due ops)) h))
        (any-order_by _ sent_before (keep due ops) ∙ any-keep _ ops)

-- A delivered operation without a result is sent again exactly when its delivery lies more than
-- thirty seconds back, and never if it is a turn that was claimed before it was sent.
pub delivered-is_pending :
    (later now : ℕ) (o : Operation)
    → redelivery_ns ≤ later
    → is_pending o.server_id
        (later - redelivery_ns)
        (record o { status = "delivered"; delivered_at = some now })
      ≡ (ltb (now + redelivery_ns) later && not (is_claimed_turn o.kind))
unfolding is_pending
delivered-is_pending later now o old = ground (arith, str_eq_refl o.server_id)

abbrev guard : String → Operation → Bool
guard id o = str_eq o.id id && is_active o.status

abbrev written : OperationResult → String → ℕ → Operation → Operation
written r text now o = record o {
  status = r.status;
  result = r.message;
  result_data = text;
  completed_at = some now;
}

complete_valid :
    (json_valid : String → Bool) (r : OperationResult) (now : ℕ) (ops : List Operation)
    {text : String}
    → operation_result_data json_valid r.data_text ≡ some text
    → complete_operation_if_active json_valid r now ops
      ≡ some (
        update_where (guard r.operation_id) (written r text now) ops,
        affected (guard r.operation_id) ops == 1,
      )
unfolding complete_operation_if_active
complete_valid json_valid r now ops h = ground arith

complete_invalid :
    (json_valid : String → Bool) (r : OperationResult) (now : ℕ) (ops : List Operation)
    → operation_result_data json_valid r.data_text ≡ none
    → complete_operation_if_active json_valid r now ops ≡ none
unfolding complete_operation_if_active
complete_invalid json_valid r now ops h = ground arith

complete_idle :
    (json_valid : String → Bool) (s : OperationResult) (later : ℕ) (ops : List Operation)
    → operation_result_data json_valid s.data_text ≢ none
    → affected (guard s.operation_id) ops ≡ 0
    → complete_operation_if_active json_valid s later ops ≡ some (ops, false)
complete_idle json_valid s later ops valid h =
    elim (Option-cases (operation_result_data json_valid s.data_text)) [
      | inl e ↦ absurd (valid e)
      | inr (text, e) ↦
          complete_valid json_valid s later ops e
          ∙ rw (update_where_none (guard s.operation_id) (written s text later) ops h, h)
    ]

-- A result is taken once: after a first result that ends an operation, whatever it says and whether
-- or not it changed a row, a second result for the same operation is not taken and changes nothing.
pub complete_once :
    (json_valid : String → Bool) (r s : OperationResult) (now later : ℕ) (ops ops' : List Operation)
    {taken : Bool}
    → is_active r.status ≡ false
    → s.operation_id ≡ r.operation_id
    → complete_operation_if_active json_valid r now ops ≡ some (ops', taken)
    → operation_result_data json_valid s.data_text ≢ none
    → complete_operation_if_active json_valid s later ops' ≡ some (ops', false)
complete_once json_valid r s now later ops ops' ends same first valid =
    complete_idle json_valid s later ops' valid
      (elim (Option-cases (operation_result_data json_valid r.data_text)) [
        | inl e ↦ absurd (ground (arith, complete_invalid json_valid r now ops e))
        | inr (text, e) ↦ taken_from text e
      ])
  where
    taken_from :
        (text : String)
        → operation_result_data json_valid r.data_text ≡ some text
        → affected (guard s.operation_id) ops' ≡ 0
    taken_from text e =
        let table : ops' ≡ update_where (guard r.operation_id) (written r text now) ops =
          ground (arith, complete_valid json_valid r now ops e) in
        rw table (
          affected_again (guard r.operation_id) (guard s.operation_id) (written r text now) ops
            (λ o g. ground arith) (λ o h. ground arith))
