-- ===== src/Store/Queue/Exclusion.antt =====
-- A workspace has one writer: a second write is refused.
use my_wio.Base.{
  ℕ, String, ◌≡◌, refl, ◌∙◌, Bool, true, false, ◌&&◌, none, List, [], ◌∷◌, str_eq, str_eq_iff, any,
  arith, Bool-cases, inl, inr,
}
use my_wio.Store.Operations.{Operation, is_active, refers, has_active_workspace_write}
use my_wio.Store.Queue.{
  Db, Outcome, granted, refused, OperationResource, holds_write, clash, insert_operation,
  new_operation, after_insert, insert_resolved, queue_operation_payload, id_of_key,
  resolve_operation_resource, workspace_write_active,
}
use my_wio.Store.Queue.Idempotency.{any-id_of_key, queue_resolved}

abbrev writes_in : String → Operation → Bool
writes_in workspace_id o =
    refers o.workspace_id workspace_id && o.workspace_write && is_active o.status

writes_in-holds_write :
    (workspace_id : String) (o : Operation)
    → writes_in workspace_id o ≡ true
    → (holds_write o ≡ true) × (o.workspace_id ≡ workspace_id)
unfolding holds_write
writes_in-holds_write workspace_id o h =
    (ground arith, (str_eq_iff o.workspace_id workspace_id).0 (ground arith))

clash_of_writers :
    (o p : Operation)
    → holds_write o ≡ true
    → holds_write p ≡ true
    → p.workspace_id ≡ o.workspace_id
    → clash o p ≡ true
unfolding clash
clash_of_writers o p h g e = ground (arith, str_eq_iff o.workspace_id p.workspace_id)

-- A workspace with an active write clashes with a new one.
busy_clash :
    (o : Operation) (ops : List Operation)
    → holds_write o ≡ true
    → any (writes_in o.workspace_id) ops ≡ true
    → any (clash o) ops ≡ true
busy_clash o [] h a = cc
busy_clash o (p ∷ ops) h a = elim (Bool-cases (writes_in o.workspace_id p)) [
  | inl e ↦
      let (w, same) = writes_in-holds_write o.workspace_id p e in
      rw (clash_of_writers o p h w same) refl
  | inr e ↦ ground (arith, busy_clash o ops h)
]

module _ (meanwhile : Db → Db) (id : String) (now : ℕ) (server_id kind payload key : String)
    (resource : OperationResource) (write : Bool) (db : Db) where
  new_holds_write :
      (resolved : OperationResource)
      → write ≡ true
      → str_eq resolved.workspace_id "" ≡ false
      → holds_write (new_operation id server_id kind payload key resolved write now) ≡ true
  unfolding holds_write new_operation is_active
  new_holds_write resolved w ws = ground arith

  busy_insert :
      (at : Db) (resolved : OperationResource)
      → write ≡ true
      → str_eq resolved.workspace_id "" ≡ false
      → id_of_key key at.operations ≡ none
      → has_active_workspace_write resolved.workspace_id at.operations ≡ true
      → insert_operation (new_operation id server_id kind payload key resolved write now) at ≡ none
  unfolding insert_operation new_operation has_active_workspace_write
  busy_insert at resolved w ws k busy = ground (
    arith,
    any-id_of_key key at.operations,
    busy_clash (new_operation id server_id kind payload key resolved write now) at.operations
        (new_holds_write resolved w ws) busy,
  )

  busy_refused :
      (at : Db) (resolved : OperationResource)
      → write ≡ true
      → str_eq resolved.workspace_id "" ≡ false
      → id_of_key key at.operations ≡ none
      → has_active_workspace_write resolved.workspace_id at.operations ≡ true
      → insert_resolved id server_id kind payload key write now at resolved
        ≡ (at, refused workspace_write_active)
  unfolding insert_resolved after_insert
  busy_refused at resolved w ws k busy = ground (arith, busy_insert at resolved w ws k busy)

  abbrev queued : Db × Outcome String
  queued = queue_operation_payload meanwhile id now server_id kind payload key resource write db

  -- A write under a new key whose resource resolves to a workspace is refused, and changes nothing,
  -- if the workspace has an active write when the row is to be inserted.
  pub queue_busy :
      {resolved : OperationResource}
      → write ≡ true
      → id_of_key key db.operations ≡ none
      → resolve_operation_resource server_id resource db ≡ granted resolved
      → (str_eq resolved.workspace_id "") ≡ false
      → id_of_key key (meanwhile db).operations ≡ none
      → has_active_workspace_write resolved.workspace_id (meanwhile db).operations ≡ true
      → queued ≡ (meanwhile db, refused workspace_write_active)
  queue_busy {resolved} w e r ws k busy =
      queue_resolved meanwhile id now server_id kind payload key resource write db e r
      ∙ busy_refused (meanwhile db) resolved w ws k busy
