-- ===== src/Store/Operations/Unique.antt =====
-- The primary key of the operations: no two rows with one id, through every statement.
use my_wio.Base.{
  ℕ, String, ◌≡◌, refl, ◌∙◌, Bool, true, false, ◌&&◌, not, none, some, List, [], ◌∷◌, str_eq,
  str_eq_iff, subst, ap, any, arith, Bool-cases, Option-cases, inl, inr, ◌==◌,
}
use my_wio.Store.Table.{update_where, affected, any-update_where}
use my_wio.Store.Operations.{
  Operation, is_active, operation, mark_delivered, is_claimable, claim_gemini_delivery,
  mark_running, OperationResult, operation_result_data, complete_operation_if_active,
  cancel_operation,
}
use my_wio.Store.Operations.Steps.{Step, queued, delivered, claimed, running, completed, cancelled}
use my_wio.Store.Operations.Lifecycle.{Reach, here, next}

abbrev pub has_row : String → List Operation → Bool
has_row id ops = any (λ o. str_eq o.id id) ops

unfoldable pub has_unique_ids : List Operation → Bool
has_unique_ids [] = true
has_unique_ids (o ∷ ops) = not (has_row o.id ops) && has_unique_ids ops

unique-update_where :
    (p : Operation → Bool) (f : Operation → Operation)
    → ((o : Operation) → (f o).id ≡ o.id)
    → (ops : List Operation) → has_unique_ids (update_where p f ops) ≡ has_unique_ids ops
unfolding has_unique_ids update_where
unique-update_where p f same [] = refl
unique-update_where p f same (o ∷ ops) = ground (
  arith,
  same o,
  any-update_where (λ x. str_eq x.id o.id) p f ops (λ x. ap (λ i. str_eq i o.id) (same x)),
  unique-update_where p f same ops,
)

row_none : (id : String) (ops : List Operation) → operation id ops ≡ none → has_row id ops ≡ false
unfolding operation
row_none id [] h = refl
row_none id (o ∷ ops) h = ground (arith, row_none id ops)

-- A claim that takes one row takes the row that the id names.
absent-affected :
    (id : String) (ops : List Operation)
    → has_row id ops ≡ false
    → affected (is_claimable id) ops ≡ 0
unfolding is_claimable affected
absent-affected id [] h = refl
absent-affected id (o ∷ ops) h = ground (arith, absent-affected id ops)

pub claimed_row :
    (id : String) (ops : List Operation)
    → has_unique_ids ops ≡ true
    → (affected (is_claimable id) ops == 1) ≡ true
    → (o : Operation) × (operation id ops ≡ some o) × (is_claimable id o ≡ true)
unfolding has_unique_ids operation affected
claimed_row id [] u h = absurd (ground arith)
claimed_row id (o ∷ ops) u h = elim (Bool-cases (is_claimable id o)) [
  | inl c ↦ (o, unfold is_claimable in ground arith, c)
  | inr c ↦ elim (Bool-cases (str_eq o.id id)) [
    | inl e ↦ absurd (
        ground (
          arith,
          absent-affected id ops
              (subst (λ i. has_row i ops ≡ false) ((str_eq_iff o.id id).0 e) (ground arith)),
        ))
    | inr e ↦
        let (row, found, k) = claimed_row id ops (ground arith) (ground arith) in
        (row, ground arith, k)
  ]
]

module _ (json_valid : String → Bool) where
  complete_unique :
      (r : OperationResult) (now : ℕ) (ops : List Operation) {ops' : List Operation} {taken : Bool}
      → complete_operation_if_active json_valid r now ops ≡ some (ops', taken)
      → has_unique_ids ops' ≡ has_unique_ids ops
  unfolding complete_operation_if_active
  complete_unique r now ops {ops'} e =
      elim (Option-cases (operation_result_data json_valid r.data_text)) [
        | inl bad ↦ absurd (ground arith)
        | inr (text, good) ↦
            let written : Operation → Operation = λ o. record o {
              status = r.status;
              result = r.message;
              result_data = text;
              completed_at = some now;
            } in
            let table : ops'
                ≡ update_where (λ o. str_eq o.id r.operation_id && is_active o.status) written ops =
              ground arith in
            rw table (
              unique-update_where (λ o. str_eq o.id r.operation_id && is_active o.status) written
                (λ o. refl) ops)
      ]

  Step-unique :
      {ops ops' : List Operation}
      → Step json_valid ops ops'
      → has_unique_ids ops ≡ true
      → has_unique_ids ops' ≡ true
  unfolding has_unique_ids mark_delivered claim_gemini_delivery mark_running cancel_operation
  Step-unique {ops = ops} (queued o fresh s) u = ground (arith, row_none o.id ops fresh)
  Step-unique {ops = ops} (delivered id now) u = unique-update_where _ _ (λ o. refl) ops ∙ u
  Step-unique {ops = ops} (claimed id now) u = unique-update_where _ _ (λ o. refl) ops ∙ u
  Step-unique {ops = ops} (running id now) u = unique-update_where _ _ (λ o. refl) ops ∙ u
  Step-unique {ops = ops} (completed r now taken ends e) u = rw (complete_unique r now ops e) u
  Step-unique {ops = ops} (cancelled id message now) u = unique-update_where _ _ (λ o. refl) ops ∙ u

  -- However the table is changed, no two rows get one id.
  pub Reach-unique :
      {ops ops' : List Operation}
      → Reach json_valid ops ops'
      → has_unique_ids ops ≡ true
      → has_unique_ids ops' ≡ true
  Reach-unique here u = u
  Reach-unique (next r st) u = Step-unique st (Reach-unique r u)
