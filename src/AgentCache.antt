-- ===== src/AgentCache.antt =====
-- internal/agent/operation_cache.go and `handleOperation` of internal/agent/client.go: the Agent's
-- memory of the operations it has run, in RAM and as receipts on disk.
pub mod Pruning
pub mod Memory
pub mod Once
use my_wio.Base.{
  ℕ, zero, suc, ◌+◌, ◌*◌, ◌^◌, String, Bool, true, false, ◌&&◌, ◌||◌, not, Option, none, some, List,
  [], ◌∷◌, str_eq, ltb, if◌then◌else◌, length, keep, any, find_first, is_some,
}
use my_wio.Store.Operations.{OperationResult}
use my_wio.Store.Table.{update_where}

-- An entry of the map `seen`. `completed` is the time and the result of a finished execution.
pub record Execution : Type 0 where
  pub id : String
  pub completed : Option (ℕ × OperationResult)
  pub persisted : Bool

abbrev pub completed_operation_limit : ℕ
completed_operation_limit = 128

abbrev pub completed_operation_byte_limit : ℕ
completed_operation_byte_limit = 16 * 2 ^ 20

abbrev pub completed_operation_ttl : ℕ
completed_operation_ttl = 3600 * 1000000000

unfoldable pub is_evictable : Execution → Bool
is_evictable e = is_some e.completed && e.persisted

unfoldable pub is_expired : ℕ → Execution → Bool
is_expired now e = elim e.completed [
  | none ↦ false
  | some (at, _) ↦ e.persisted && ltb (at + completed_operation_ttl) now
]

-- `completedAt.Before`, for finished executions.
unfoldable pub is_before : Execution → Execution → Bool
is_before a b = elim a.completed [
  | none ↦ false
  | some (x, _) ↦ elim b.completed [ none ↦ false | some (y, _) ↦ ltb x y ]
]

-- The oldest execution that may be evicted. The map is read in an order that Go leaves open, here that
-- of the list, which decides between executions that ended at one time.
unfoldable pub oldest : List Execution → Option Execution
oldest [] = none
oldest (e ∷ seen) =
    let rest = oldest seen in
    if is_evictable e
    then elim rest [ none ↦ some e | some o ↦ if is_before o e then some o else some e ]
    else rest

unfoldable pub forget : String → List Execution → List Execution
forget id seen = keep (λ e. not (str_eq e.id id)) seen

unfoldable pub evictable_count : List Execution → ℕ
evictable_count seen = length (keep is_evictable seen)

-- `byte_length` is `len` of a text.
module _ (byte_length : String → ℕ) where
  unfoldable pub result_bytes : Execution → ℕ
  result_bytes e = elim e.completed [
    | none ↦ 0
    | some (_, r) ↦ byte_length r.data_text + byte_length r.message
  ]

  unfoldable pub evictable_bytes : List Execution → ℕ
  evictable_bytes [] = 0
  evictable_bytes (e ∷ seen) = (if is_evictable e then result_bytes e else 0) + evictable_bytes seen

  unfoldable pub is_over_limit : List Execution → Bool
  is_over_limit seen =
      ltb completed_operation_limit (evictable_count seen)
      || ltb completed_operation_byte_limit (evictable_bytes seen)

  -- The eviction loop, on fuel.
  unfoldable pub evict : ℕ → List Execution → List Execution
  evict zero seen = seen
  evict (suc fuel) seen = elim (is_over_limit seen) [
    | false ↦ seen
    | true ↦ elim (oldest seen) [ none ↦ seen | some o ↦ evict fuel (forget o.id seen) ]
  ]

  -- `pruneCompletedOperations`. Every round of the loop forgets an entry, so that there are at most
  -- as many rounds as entries.
  unfoldable pub prune_completed_operations : ℕ → List Execution → List Execution
  prune_completed_operations now seen =
      let live = keep (λ e. not (is_expired now e)) seen in evict (length live) live

-- What `loadOperationResult` finds on disk.
pub data Receipt : Type 0 where
  missing unreadable : Receipt
  readable : OperationResult → Receipt

-- The Agent: its map, its receipts and the operations that it has begun to execute, latest first.
pub record Agent : Type 0 where
  pub seen : List Execution
  pub receipts : String → Receipt
  pub executed : List String

unfoldable pub is_missing : Receipt → Bool
is_missing missing = true
is_missing unreadable = false
is_missing (readable _) = false

abbrev pub with_receipt : String → Receipt → (String → Receipt) → String → Receipt
with_receipt id receipt receipts i = if str_eq i id then receipt else receipts i

-- What `handleOperation` sends back when it does not execute.
pub data Reply : Type 0 where
  ignored executing awaits_execution : Reply
  replayed : OperationResult → Reply

abbrev pub refuses_repeat : String → OperationResult
refuses_repeat id = record {
  operation_id = id;
  status = "failed";
  message = "could not read previous operation result; refusing to repeat operation";
  data_text = "";
}

-- `handleOperation` for an operation that is not in the map.
abbrev pub begun : String → Agent → Agent
begun id a = record a {
  seen = record { id = id; completed = none; persisted = false } ∷ a.seen;
  executed = id ∷ a.executed;
}

unfoldable pub begin_unseen : String → Agent → Agent × Reply
begin_unseen id a = elim (a.receipts id) [
  | missing ↦ (begun id a, executing)
  | unreadable ↦ (a, replayed (refuses_repeat id))
  | readable r ↦ (a, replayed r)
]

-- A receipt may become unreadable.
unfoldable pub damage : String → Agent → Agent
damage id a = record a {
  receipts =
      λ i. if str_eq i id && not (is_missing (a.receipts i)) then unreadable else a.receipts i;
}

pub data Act : Type 0 where
  delivers : String → ℕ → Act
  finishes : OperationResult → Bool → ℕ → Act
  damages : String → Act

module _ (byte_length : String → ℕ) where
  -- `handleOperation` up to the execution.
  unfoldable pub handle_operation : String → ℕ → Agent → Agent × Reply
  handle_operation id now a =
      let pruned = record a { seen = prune_completed_operations byte_length now a.seen } in
      if str_eq id "" then (a, ignored) else elim (find_first (λ e. str_eq e.id id) pruned.seen) [
        | none ↦ begin_unseen id pruned
        | some e ↦ elim e.completed [
          | none ↦ (pruned, awaits_execution)
          | some (_, r) ↦ (pruned, replayed r)
        ]
      ]

  -- Its end: the result is written to disk, which succeeds or not, and to the map. The Agent has a
  -- state directory.
  unfoldable pub finish_operation : OperationResult → Bool → ℕ → Agent → Agent
  finish_operation r saved now a = record a {
    receipts = if saved then with_receipt r.operation_id (readable r) a.receipts else a.receipts;
    seen = prune_completed_operations byte_length now (
        update_where (λ e. str_eq e.id r.operation_id)
          (λ e. record e { completed = some (now, r); persisted = saved }) a.seen);
  }

  unfoldable pub step : Act → Agent → Agent
  step (delivers id now) a = (handle_operation id now a).0
  step (finishes r saved now) a = finish_operation r saved now a
  step (damages id) a = damage id a

  unfoldable pub steps : List Act → Agent → Agent
  steps [] a = a
  steps (s ∷ ss) a = steps ss (step s a)
