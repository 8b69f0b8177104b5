-- ===== src/Store/Queue/Statements.antt =====
-- Queueing as a statement on the table of operations: at most one new row, with a new id.
use my_wio.Base.{
  ℕ, String, ◌≡◌, refl, Bool, true, false, Option, none, some, List, [], ◌∷◌, str_eq, str_eq_iff,
  str_eq_refl, sym, ◌⊎◌, ◌&&◌, subst, any, arith, Bool-cases, Option-cases, inl, inr,
}
use my_wio.Store.Operations.{Operation, operation}
use my_wio.Store.Operations.Steps.{queued}
use my_wio.Store.Operations.Lifecycle.{Reach, here, next, Reach-trans}
use my_wio.Store.Queue.{
  Db, Outcome, granted, refused, OperationResource, clash, insert_operation, new_operation,
  after_insert, insert_resolved, id_of_key, resolve_operation_resource, queue_operation_payload,
}
use my_wio.Store.Queue.Idempotency.{queue_known, queue_unresolved, queue_resolved}

clash-operation-none :
    (o : Operation) (ops : List Operation) → any (clash o) ops ≡ false → operation o.id ops ≡ none
unfolding operation clash
clash-operation-none o [] h = refl
clash-operation-none o (p ∷ ops) h = elim (Bool-cases (str_eq p.id o.id)) [
  | inl e ↦ absurd (
      ground (
        arith,
        subst (λ i. str_eq o.id i ≡ true) (sym ((str_eq_iff p.id o.id).0 e)) (str_eq_refl o.id),
      ))
  | inr e ↦ ground (arith, clash-operation-none o ops)
]

insert-operations :
    (o : Operation) (db : Db) {db' : Db}
    → insert_operation o db ≡ some db'
    → (db'.operations ≡ db.operations)
      ⊎ ((any (clash o) db.operations ≡ false) × (db'.operations ≡ o ∷ db.operations))
unfolding insert_operation
insert-operations o db {db'} e =
    elim (Bool-cases (any (λ p. str_eq p.idempotency_key o.idempotency_key) db.operations)) [
      | inl known ↦ inl (ground arith)
      | inr new ↦ elim (Bool-cases (any (clash o) db.operations)) [
        | inl bad ↦ absurd (ground arith)
        | inr free ↦ inr (free, ground arith)
      ]
    ]

module _ (json_valid : String → Bool) where
  insert-Reach :
      (o : Operation) (db : Db) {db' : Db}
      → o.status ≡ "queued"
      → insert_operation o db ≡ some db'
      → Reach json_valid db.operations db'.operations
  insert-Reach o db {db'} s e = elim (insert-operations o db e) [
    | inl same ↦ rw same here
    | inr (free, new) ↦ rw new (next here (queued o (clash-operation-none o db.operations free) s))
  ]

  after_insert-Reach :
      (o : Operation) (db : Db) (workspace_id : String) (write : Bool) (after : Option Db)
      → o.status ≡ "queued"
      → insert_operation o db ≡ after
      → Reach json_valid db.operations
          (after_insert o.idempotency_key workspace_id write db after).0.operations
  unfolding after_insert
  after_insert-Reach o db workspace_id write none s e = here
  after_insert-Reach o db workspace_id write (some db') s e = insert-Reach o db s e

  module _ (meanwhile : Db → Db)
      (commits : (db : Db) → Reach json_valid db.operations (meanwhile db).operations) (id : String)
      (now : ℕ) (server_id kind payload key : String) (write : Bool) where
    insert_resolved-Reach :
        (db : Db) (resolved : OperationResource)
        → Reach json_valid db.operations
            (insert_resolved id server_id kind payload key write now db resolved).0.operations
    unfolding insert_resolved new_operation
    insert_resolved-Reach db resolved =
        elim (Bool-cases (write && str_eq resolved.workspace_id "")) [
          | inl e ↦ rw e here
          | inr e ↦ rw e (
              after_insert-Reach (new_operation id server_id kind payload key resolved write now) db
                resolved.workspace_id write _ refl refl)
        ]

    pub queue-Reach :
        (resource : OperationResource) (db : Db)
        → Reach json_valid db.operations
            (queue_operation_payload meanwhile id now server_id kind payload key resource write
              db).0.operations
    queue-Reach resource db = elim (Option-cases (id_of_key key db.operations)) [
      | inr (i, e) ↦
          rw (queue_known meanwhile id now server_id kind payload key resource write db e) here
      | inl e ↦ of_resource (resolve_operation_resource server_id resource db) refl e
    ]
      where
        of_resource :
            (r : Outcome OperationResource)
            → resolve_operation_resource server_id resource db ≡ r
            → id_of_key key db.operations ≡ none
            → Reach json_valid db.operations
                (queue_operation_payload meanwhile id now server_id kind payload key resource write
                  db).0.operations
        of_resource (refused x) r e =
            rw (queue_unresolved meanwhile id now server_id kind payload key resource write db e r)
              here
        of_resource (granted resolved) r e =
            rw (queue_resolved meanwhile id now server_id kind payload key resource write db e r)
              (Reach-trans json_valid (commits db) (insert_resolved-Reach (meanwhile db) resolved))
