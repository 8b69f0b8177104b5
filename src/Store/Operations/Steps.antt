-- ===== src/Store/Operations/Steps.antt =====
-- What each statement on the queue of operations does to a row, and the statements as steps.
use my_wio.Base.{
  ℕ, String, ◌≡◌, refl, Bool, false, ◌&&◌, none, some, List, ◌∷◌, str_eq, str_eq_iff, arith,
  Bool-cases, Option-cases, inl, inr,
}
use my_wio.Store.Table.{update_where}
use my_wio.Store.Operations.{
  Operation, is_active, coalesce, operation, mark_delivered, is_claimable, claim_gemini_delivery,
  mark_running, OperationResult, operation_result_data, complete_operation_if_active,
  cancel_operation,
}
use my_wio.Store.Operations.Rows.{
  stage, FollowsRow, IsGuarded-FollowsRow, stage-le, stage_finished, FollowsRow-refl,
}

-- The statements that other connections may run, in any order.
pub data Step (json_valid : String → Bool) (ops : List Operation) : List Operation → Type 0 where
  queued :
      (o : Operation)
      → operation o.id ops ≡ none
      → o.status ≡ "queued"
      → Step json_valid ops (o ∷ ops)
  delivered : (id : String) (now : ℕ) → Step json_valid ops (mark_delivered id now ops)
  claimed : (id : String) (now : ℕ) → Step json_valid ops (claim_gemini_delivery id now ops).0
  running : (id : String) (now : ℕ) → Step json_valid ops (mark_running id now ops)
  completed :
      (r : OperationResult) (now : ℕ) {ops' : List Operation} (taken : Bool)
      → is_active r.status ≡ false
      → complete_operation_if_active json_valid r now ops ≡ some (ops', taken)
      → Step json_valid ops ops'
  cancelled :
      (id message : String) (now : ℕ) → Step json_valid ops (cancel_operation id message now ops).0

mark_delivered-FollowsRow :
    (id : String) (now : ℕ) (ops : List Operation) (j : String)
    → FollowsRow (operation j ops) (operation j (mark_delivered id now ops))
unfolding mark_delivered
mark_delivered-FollowsRow id now =
    IsGuarded-FollowsRow (λ o. str_eq o.id id && str_eq o.status "queued")
      (λ o. record o { status = "delivered"; delivered_at = some now })
      (record {
        only_active = λ o h. unfold is_active in ground arith;
        up = λ o h. unfold stage in ground arith;
        keeps_id = λ o. refl;
        keeps_key = λ o. refl;
        keeps_payload = λ o. refl;
        keeps_kind = λ o. refl;
      })

claim-FollowsRow :
    (id : String) (now : ℕ) (ops : List Operation) (j : String)
    → FollowsRow (operation j ops) (operation j (claim_gemini_delivery id now ops).0)
unfolding claim_gemini_delivery
claim-FollowsRow id now =
    IsGuarded-FollowsRow (is_claimable id)
      (λ o. record o { status = "delivered"; delivered_at = some now })
      (record {
        only_active = λ o h. unfold is_active is_claimable in ground arith;
        up = λ o h. unfold stage is_claimable in ground arith;
        keeps_id = λ o. refl;
        keeps_key = λ o. refl;
        keeps_payload = λ o. refl;
        keeps_kind = λ o. refl;
      })

mark_running-FollowsRow :
    (id : String) (now : ℕ) (ops : List Operation) (j : String)
    → FollowsRow (operation j ops) (operation j (mark_running id now ops))
unfolding mark_running
mark_running-FollowsRow id now =
    IsGuarded-FollowsRow (λ o. str_eq o.id id && is_active o.status)
      (λ o. record o {
        status = "running";
        delivered_at = some (coalesce o.delivered_at now);
        started_at = some (coalesce o.started_at now);
      })
      (record {
        only_active = λ o h. ground arith;
        up = λ o h. unfold stage is_active in ground arith;
        keeps_id = λ o. refl;
        keeps_key = λ o. refl;
        keeps_payload = λ o. refl;
        keeps_kind = λ o. refl;
      })

module _ (id : String) (f : Operation → Operation) where
  -- An update that finishes the active row with an id.
  finish-FollowsRow :
      ((o : Operation) → is_active (f o).status ≡ false)
      → ((o : Operation) → (f o).id ≡ o.id)
      → ((o : Operation) → (f o).idempotency_key ≡ o.idempotency_key)
      → ((o : Operation) → (f o).payload ≡ o.payload)
      → ((o : Operation) → (f o).kind ≡ o.kind)
      → (ops : List Operation) (j : String)
      → FollowsRow
          (operation j ops)
          (operation j (update_where (λ o. str_eq o.id id && is_active o.status) f ops))
  finish-FollowsRow ends i k p q =
      IsGuarded-FollowsRow (λ o. str_eq o.id id && is_active o.status) f
        (record {
          only_active = λ o h. ground arith;
          up = λ o h. ground (arith, stage_finished (f o).status (ends o), stage-le o.status);
          keeps_id = i;
          keeps_key = k;
          keeps_payload = p;
          keeps_kind = q;
        })

cancel-FollowsRow :
    (id message : String) (now : ℕ) (ops : List Operation) (j : String)
    → FollowsRow (operation j ops) (operation j (cancel_operation id message now ops).0)
unfolding cancel_operation is_active
cancel-FollowsRow id message now ops j =
    finish-FollowsRow id
      (λ o. record o { status = "cancelled"; result = message; completed_at = some now })
      (λ o. refl) (λ o. refl) (λ o. refl) (λ o. refl) (λ o. refl) ops j

absent :
    (i j : String) (ops : List Operation) → i ≡ j → operation i ops ≡ none → operation j ops ≡ none
absent i j ops e h = rw (← e) h

operation-cons_ne :
    (o : Operation) (j : String) (ops : List Operation)
    → str_eq o.id j ≡ false
    → operation j (o ∷ ops) ≡ operation j ops
unfolding operation
operation-cons_ne o j ops h = ground arith

module _ (json_valid : String → Bool) where
  complete-FollowsRow :
      (r : OperationResult) (now : ℕ) (ops : List Operation) {ops' : List Operation} {taken : Bool}
      → is_active r.status ≡ false
      → complete_operation_if_active json_valid r now ops ≡ some (ops', taken)
      → (j : String) → FollowsRow (operation j ops) (operation j ops')
  unfolding complete_operation_if_active
  complete-FollowsRow r now ops {ops'} ends e j =
      elim (Option-cases (operation_result_data json_valid r.data_text)) [
        | inl bad ↦ absurd (ground arith)
        | inr (text, good) ↦
            let written : Operation → Operation = λ o. record o {
              status = r.status;
              result = r.message;
              result_data = text;
              completed_at = some now;
            } in
            let table : ops'
                ≡ update_where (λ o. str_eq o.id r.operation_id && is_active o.status) written ops =
              ground arith in
            rw table (
              finish-FollowsRow r.operation_id written (λ o. ends) (λ o. refl) (λ o. refl)
                (λ o. refl) (λ o. refl) ops j)
      ]

  pub Step-FollowsRow :
      {ops ops' : List Operation}
      → Step json_valid ops ops'
      → (j : String) → FollowsRow (operation j ops) (operation j ops')
  Step-FollowsRow {ops = ops} (queued o fresh s) j = elim (Bool-cases (str_eq o.id j)) [
    | inl same ↦ rw (absent o.id j ops ((str_eq_iff o.id j).0 same) fresh) tt
    | inr other ↦ rw (operation-cons_ne o j ops other) (FollowsRow-refl (operation j ops))
  ]
  Step-FollowsRow {ops = ops} (delivered id now) j = mark_delivered-FollowsRow id now ops j
  Step-FollowsRow {ops = ops} (claimed id now) j = claim-FollowsRow id now ops j
  Step-FollowsRow {ops = ops} (running id now) j = mark_running-FollowsRow id now ops j
  Step-FollowsRow {ops = ops} (completed r now taken ends e) j =
      complete-FollowsRow r now ops ends e j
  Step-FollowsRow {ops = ops} (cancelled id message now) j = cancel-FollowsRow id message now ops j
