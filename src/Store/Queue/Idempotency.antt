-- ===== src/Store/Queue/Idempotency.antt =====
-- An idempotency key names one operation.
use my_wio.Base.{
  ℕ, String, ◌≡◌, refl, ◌∙◌, ap, Bool, false, ◌&&◌, Option, none, some, List, [], ◌∷◌, str_eq, any,
  arith, is_some, ◌||◌, true, str_eq_refl, Option-cases, inl, inr,
}
use my_wio.Store.Operations.{Operation}
use my_wio.Store.Queue.{
  Db, Outcome, granted, refused, QueueError, OperationResource, insert_operation, new_operation,
  after_insert, insert_resolved, queue_operation_payload, id_of_key, resolve_operation_resource,
}

pub any-id_of_key :
    (key : String) (ops : List Operation)
    → any (λ o. str_eq o.idempotency_key key) ops ≡ is_some (id_of_key key ops)
unfolding id_of_key
any-id_of_key key [] = refl
any-id_of_key key (o ∷ ops) = ground (arith, any-id_of_key key ops)

module _ (meanwhile : Db → Db) (id : String) (now : ℕ) (server_id kind payload key : String)
    (resource : OperationResource) (write : Bool) (db : Db) where
  abbrev queued : Db × Outcome String
  queued = queue_operation_payload meanwhile id now server_id kind payload key resource write db

  pub queue_known : {i : String} → id_of_key key db.operations ≡ some i → queued ≡ (db, granted i)
  unfolding queue_operation_payload
  queue_known h = ground arith

  pub queue_unresolved :
      {e : QueueError}
      → id_of_key key db.operations ≡ none
      → resolve_operation_resource server_id resource db ≡ refused e
      → queued ≡ (db, refused e)
  unfolding queue_operation_payload
  queue_unresolved h r = ground arith

  pub queue_resolved :
      {resolved : OperationResource}
      → id_of_key key db.operations ≡ none
      → resolve_operation_resource server_id resource db ≡ granted resolved
      → queued ≡ insert_resolved id server_id kind payload key write now (meanwhile db) resolved
  unfolding queue_operation_payload
  queue_resolved h r = ground arith

  after_insert_names :
      (workspace_id : String) (at : Db) (outcome : Option Db) (i : String)
      → (after_insert key workspace_id write at outcome).1 ≡ granted i
      → id_of_key key (after_insert key workspace_id write at outcome).0.operations ≡ some i
  unfolding after_insert
  after_insert_names workspace_id at none i h = ground arith
  after_insert_names workspace_id at (some db') i h = ground arith

  insert_resolved_names :
      (at : Db) (resolved : OperationResource) (i : String)
      → (insert_resolved id server_id kind payload key write now at resolved).1 ≡ granted i
      → id_of_key key
          (insert_resolved id server_id kind payload key write now at resolved).0.operations
        ≡ some i
  unfolding insert_resolved
  insert_resolved_names at resolved i h = ground (
    arith,
    after_insert_names resolved.workspace_id at
        (insert_operation (new_operation id server_id kind payload key resolved write now) at) i,
  )

  -- The id that a successful request gets is that of the operation which the key names from then on.
  pub queue_names : {i : String} → queued.1 ≡ granted i → id_of_key key queued.0.operations ≡ some i
  queue_names {i} h = elim (Option-cases (id_of_key key db.operations)) [
    | inr (j, e) ↦ ground (arith, queue_known e)
    | inl e ↦ resolved_names (resolve_operation_resource server_id resource db) refl e
  ]
    where
      resolved_names :
          (r : Outcome OperationResource)
          → resolve_operation_resource server_id resource db ≡ r
          → id_of_key key db.operations ≡ none
          → id_of_key key queued.0.operations ≡ some i
      resolved_names (refused x) r e = ground (arith, queue_unresolved e r)
      resolved_names (granted resolved) r e =
          ground (arith, queue_resolved e r, insert_resolved_names (meanwhile db) resolved i)

  -- The row of a request, from its queueing on and until it is delivered.
  abbrev pub is_queued_row : Operation → Bool
  is_queued_row o =
      str_eq o.idempotency_key key
      && str_eq o.status "queued"
      && str_eq o.kind kind
      && str_eq o.payload payload

  insert_resolved_queues :
      (resolved : OperationResource) (at : Db) {i : String}
      → id_of_key key at.operations ≡ none
      → (insert_resolved id server_id kind payload key write now at resolved).1 ≡ granted i
      → any is_queued_row
          (insert_resolved id server_id kind payload key write now at resolved).0.operations
        ≡ true
  unfolding insert_resolved after_insert insert_operation new_operation
  insert_resolved_queues resolved at k g = ground (
    arith,
    any-id_of_key key at.operations,
    str_eq_refl key,
    str_eq_refl kind,
    str_eq_refl payload,
  )

  -- A request that succeeds leaves a queued row of its own, unless its key was known, when it was
  -- looked up or when the row was to be inserted.
  pub queue_queues :
      {i : String}
      → queued.1 ≡ granted i
      → (is_some (id_of_key key db.operations)
          || is_some (id_of_key key (meanwhile db).operations)
          || any is_queued_row queued.0.operations)
        ≡ true
  queue_queues {i} g = elim (Option-cases (id_of_key key db.operations)) [
    | inr (j, e) ↦ ground (arith, e)
    | inl e ↦ elim (Option-cases (id_of_key key (meanwhile db).operations)) [
      | inr (j, k) ↦ ground (arith, k)
      | inl k ↦ of_resource (resolve_operation_resource server_id resource db) refl e k
    ]
  ]
    where
      of_resource :
          (r : Outcome OperationResource)
          → resolve_operation_resource server_id resource db ≡ r
          → id_of_key key db.operations ≡ none
          → id_of_key key (meanwhile db).operations ≡ none
          → (is_some (id_of_key key db.operations)
              || is_some (id_of_key key (meanwhile db).operations)
              || any is_queued_row queued.0.operations)
            ≡ true
      of_resource (refused x) r e k = absurd (ground (arith, queue_unresolved e r))
      of_resource (granted resolved) r e k =
          ground
            (arith, queue_resolved e r, insert_resolved_queues resolved (meanwhile db) {i = i} k)

  -- A request whose key is new and whose resource resolves, with a workspace if it writes: where
  -- another connection has queued the same key in between, it changes nothing more and gets the id
  -- of that operation.
  pub queue_race :
      {resolved : OperationResource} {j : String}
      → id_of_key key db.operations ≡ none
      → resolve_operation_resource server_id resource db ≡ granted resolved
      → (write && str_eq resolved.workspace_id "") ≡ false
      → id_of_key key (meanwhile db).operations ≡ some j
      → queued ≡ (meanwhile db, granted j)
  unfolding insert_resolved insert_operation after_insert new_operation
  queue_race e r w k =
      queue_resolved e r ∙ ground (arith, any-id_of_key key (meanwhile db).operations)

-- A request that is repeated under its key on the tables that a successful request has left, with
-- another fresh id, server, kind, payload and resource, is answered with the same operation, and
-- changes nothing.
pub queue_again :
    (meanwhile meanwhile' : Db → Db) (id id' : String) (now now' : ℕ)
    (server_id server_id' kind kind' payload payload' key : String)
    (resource resource' : OperationResource) (write write' : Bool) (db db' : Db) (i : String)
    → queue_operation_payload meanwhile id now server_id kind payload key resource write db
      ≡ (db', granted i)
    → queue_operation_payload meanwhile' id' now' server_id' kind' payload' key resource' write' db'
      ≡ (db', granted i)
queue_again meanwhile meanwhile' id id' now now' server_id server_id' kind kind' payload payload'
      key resource resource' write write' db db' i h =
    queue_known meanwhile' id' now' server_id' kind' payload' key resource' write' db' (
      rw (ap (λ (r : Db × Outcome String). r.0.operations) h) at (
        queue_names meanwhile id now server_id kind payload key resource write db
          (ap (λ (r : Db × Outcome String). r.1) h)))
