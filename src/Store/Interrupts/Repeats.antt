-- ===== src/Store/Interrupts/Repeats.antt =====
-- A repeated request reuses the interrupt that is on its way.
use my_wio.Base.{
  ℕ, String, ◌≡◌, refl, ap, sym, subst, ◌∙◌, Bool, true, false, ◌&&◌, not, Option, none, some, List,
  [], ◌∷◌, str_eq, str_eq_iff, ltb, ◌==◌, keep, any, all, arith, Bool-cases, Option-cases, inl, inr,
}
use my_wio.Store.Table.{affected}
use my_wio.Store.Operations.{Operation, is_active, operation}
use my_wio.Store.Queue.{clash}
use my_wio.Store.Interrupts.{
  can_interrupt_operation, interrupts, is_interrupt_of, latest_interrupt, interrupt_row,
  insert_interrupt, request_after, request_operation_interrupt,
}
use my_wio.Store.Interrupts.Latest.{interrupt_row-is_interrupt_of, interrupt_row-active, latest_new}

-- A row that clashes with none has a new id.
new_id :
    (o target : Operation) (id : String) (ops : List Operation)
    → any (clash o) ops ≡ false
    → operation id ops ≡ some target
    → str_eq o.id id ≡ false
unfolding clash operation
new_id o target id [] n f = cc
new_id o target id (e ∷ ops) n f = elim (Bool-cases (str_eq e.id id)) [
  | inl s ↦ subst (λ i. str_eq o.id i ≡ false) ((str_eq_iff e.id id).0 s) (ground arith)
  | inr s ↦ new_id o target id ops (ground arith) (ground arith)
]

named :
    (id : String) (target : Operation) (ops : List Operation)
    → operation id ops ≡ some target
    → str_eq target.id id ≡ true
unfolding operation
named id target [] f = cc
named id target (e ∷ ops) f = ground (arith, named id target ops)

-- What an accepted request has found.
is_accepted : String → List Operation → Operation → Bool
is_accepted id ops target =
    not (affected (λ o. str_eq o.id id && is_active o.status) ops == 0)
    && can_interrupt_operation target.kind
    && not target.workspace_write

module _ (encode : String → String → String) (fresh : String) (now : ℕ) (target p : Operation)
    (ops : List Operation) where
  after_active :
      is_active p.status ≡ true
      → request_after encode fresh now target ops (some p) ≡ (ops, interrupts p.id)
  unfolding request_after
  after_active h = rw h refl

  after_finished :
      is_active p.status ≡ false
      → request_after encode fresh now target ops (some p)
        ≡ insert_interrupt (interrupt_row encode fresh now target p.id) ops
  unfolding request_after
  after_finished h = rw h refl

after_none :
    (encode : String → String → String) (fresh : String) (now : ℕ) (target : Operation)
    (ops : List Operation)
    → request_after encode fresh now target ops none
      ≡ insert_interrupt (interrupt_row encode fresh now target "") ops
unfolding request_after
after_none encode fresh now target ops = refl

module _ (encode : String → String → String) (fresh : String) (now : ℕ) (id : String)
    (ops : List Operation) where
  request_accepted :
      (target : Operation)
      → operation id ops ≡ some target
      → is_accepted id ops target ≡ true
      → request_operation_interrupt encode fresh now id ops
        ≡ request_after encode fresh now target ops (latest_interrupt id ops)
  unfolding request_operation_interrupt is_accepted
  request_accepted target f a = ground arith

  accepted_target :
      {ops' : List Operation} {j : String}
      → request_operation_interrupt encode fresh now id ops ≡ (ops', interrupts j)
      → (target : Operation) × (operation id ops ≡ some target) × (is_accepted id ops target ≡ true)
  unfolding request_operation_interrupt is_accepted
  accepted_target {ops'} {j} h = elim (Option-cases (operation id ops)) [
    | inl n ↦ absurd (ground arith)
    | inr (target, f) ↦ (target, f, ground arith)
  ]

-- The rest of the table, once a new interrupt of the operation is recorded.
recorded_again :
    (encode : String → String → String) (fresh' : String) (later : ℕ) (id : String)
    (ops : List Operation) (target o : Operation)
    → operation id ops ≡ some target
    → is_accepted id ops target ≡ true
    → any (clash o) ops ≡ false
    → is_interrupt_of id o ≡ true
    → is_active o.status ≡ true
    → all (λ p. ltb p.created_at o.created_at) (keep (is_interrupt_of id) ops) ≡ true
    → request_operation_interrupt encode fresh' later id (o ∷ ops) ≡ (o ∷ ops, interrupts o.id)
unfolding is_accepted affected operation request_after
recorded_again encode fresh' later id ops target o f a n i active older =
    let other : str_eq o.id id ≡ false = new_id o target id ops n f in
    request_accepted encode fresh' later id (o ∷ ops) target (rw other f) (rw other a)
    ∙ rw (latest_new id o ops i older, active) refl

module _ (encode : String → String → String) (fresh fresh' : String) (now later : ℕ) (id : String)
    (ops : List Operation)
    (older : all (λ p. ltb p.created_at now) (keep (is_interrupt_of id) ops) ≡ true) where
  inserted_again :
      (target : Operation) (previous_id : String) {ops' : List Operation} {j : String}
      → operation id ops ≡ some target
      → is_accepted id ops target ≡ true
      → insert_interrupt (interrupt_row encode fresh now target previous_id) ops
        ≡ (ops', interrupts j)
      → request_operation_interrupt encode fresh' later id ops' ≡ (ops', interrupts j)
  unfolding insert_interrupt
  inserted_again target previous_id {ops'} {j} f a h =
      let o = interrupt_row encode fresh now target previous_id in
      elim (Bool-cases (any (clash o) ops)) [
        | inl c ↦ absurd (ground arith)
        | inr n ↦
            let table : ops' ≡ o ∷ ops = ground arith in
            let name : j ≡ o.id = ground arith in
            rw (table, name)
              (recorded_again encode fresh' later id ops target o f a n
                (subst (λ i. is_interrupt_of i o ≡ true)
                  ((str_eq_iff target.id id).0 (named id target ops f))
                  (interrupt_row-is_interrupt_of encode fresh now target previous_id))
                (interrupt_row-active encode fresh now target previous_id).0
                (rw (interrupt_row-active encode fresh now target previous_id).1 older))
      ]

  -- A request to interrupt an operation that is repeated while its interrupt is on its way is answered
  -- with the same interrupt and changes nothing, if no older interrupt of the operation was created at
  -- the time of the first request or after it.
  pub request_operation_interrupt_again :
      {ops' : List Operation} {j : String}
      → request_operation_interrupt encode fresh now id ops ≡ (ops', interrupts j)
      → request_operation_interrupt encode fresh' later id ops' ≡ (ops', interrupts j)
  request_operation_interrupt_again {ops'} {j} h =
      let (target, f, a) = accepted_target encode fresh now id ops h in
      by_latest target f a (latest_interrupt id ops) refl
        (sym (request_accepted encode fresh now id ops target f a) ∙ h)
    where
      by_latest :
          (target : Operation)
          → operation id ops ≡ some target
          → is_accepted id ops target ≡ true
          → (latest : Option Operation) → latest_interrupt id ops ≡ latest
          → request_after encode fresh now target ops (latest_interrupt id ops)
            ≡ (ops', interrupts j)
          → request_operation_interrupt encode fresh' later id ops' ≡ (ops', interrupts j)
      by_latest target f a none l r = inserted_again target "" f a (
          sym (after_none encode fresh now target ops)
          ∙ ap (request_after encode fresh now target ops) (sym l)
          ∙ r)
      by_latest target f a (some p) l r =
          let s = ap (request_after encode fresh now target ops) (sym l) ∙ r in
          elim (Bool-cases (is_active p.status)) [
            | inl active ↦
                let kept = after_active encode fresh now target p ops active in
                let table : ops' ≡ ops = ground arith in
                let name : j ≡ p.id = ground arith in
                rw (table, name)
                  (request_accepted encode fresh' later id ops target f a
                    ∙ ap (request_after encode fresh' later target ops) l
                    ∙ after_active encode fresh' later target p ops active)
            | inr finished ↦
                inserted_again target p.id f a
                  (sym (after_finished encode fresh now target p ops finished) ∙ s)
          ]
