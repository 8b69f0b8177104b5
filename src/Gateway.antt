-- ===== src/Gateway.antt =====
-- internal/agentgateway/gateway.go and internal/store/gemini.go: how the control plane sends the
-- pending operations of a server over its Agent's stream.
pub mod Alerts
pub mod Results
pub mod Spec
pub mod Rounds
pub mod Refinement
pub mod Flush
pub mod Cancelled
use text.Mathlib.Text.{starts_with}
use my_wio.Base.{
  ℕ, ◌-◌, String, Bool, true, false, ◌&&◌, ◌||◌, not, Option, none, some, List, [], ◌∷◌, ◌<>◌,
  str_eq, ltb, ◌==◌, if◌then◌else◌, keep,
}
use my_wio.Store.Table.{update_where, affected, order_by}
use my_wio.Store.Operations.{
  Operation, operation, is_claimed_turn, claim_gemini_delivery, pending_operations, mark_delivered,
  redelivery_ns,
}
use my_wio.Store.Queue.{Db, Outcome, granted, refused, queue_resource_operation}

-- `protocol.ControlEnvelope`.
pub record Envelope : Type 0 where
  pub operation_id : String
  pub kind : String
  pub created_at : ℕ
  pub payload : String

-- What the gateway works on: the database, the envelopes that were sent, the last one first, and
-- whether the wake channel holds a signal.
pub record Link : Type 0 where
  pub db : Db
  pub sent : List Envelope
  pub woken : Bool

abbrev pub with_operations : List Operation → Db → Db
with_operations ops db = record db { operations = ops }

-- How far the loop of `flush` gets with an operation before its state is written back.
pub data Dispatch : Type 0 where
  passed_over send_failed went_out : Dispatch

abbrev pub envelope : Operation → String → Envelope
envelope o payload = record {
  operation_id = o.id;
  kind = o.kind;
  created_at = o.created_at;
  payload = payload;
}

-- The first half of the loop's body: `decrypt` is the vault, `accepts` whether `Send` succeeds.
module _ (decrypt : String → Option String) (accepts : Envelope → Bool) (now : ℕ) where
  clear_payload : String → Option String
  clear_payload payload = if starts_with payload "v1:" then decrypt payload else some payload

  send_envelope : Envelope → Link → Link × Dispatch
  send_envelope e l =
      if accepts e then (record l { sent = e ∷ l.sent }, went_out) else (l, send_failed)

  send_claimed : Envelope → Link → List Operation × Bool → Link × Dispatch
  unfolding send_envelope
  send_claimed e l (ops, claimed) =
      let l' : Link = record l { db = with_operations ops l.db } in
      if claimed then send_envelope e l' else (l', passed_over)

  unfoldable pub dispatch : Operation → Link → Link × Dispatch
  unfolding clear_payload send_envelope send_claimed
  dispatch o l = elim (clear_payload o.payload) [
    | none ↦ (l, passed_over)
    | some payload ↦
        if is_claimed_turn o.kind
        then send_claimed (envelope o payload) l (claim_gemini_delivery o.id now l.db.operations)
        else send_envelope (envelope o payload) l
  ]

-- `isCodexTurnOperation`.
unfoldable pub is_codex_turn_operation : String → Bool
is_codex_turn_operation kind = str_eq kind "codex.turn.start" || str_eq kind "codex.turn.rewrite"

unfoldable pub is_gemini_turn_operation : String → Bool
is_gemini_turn_operation kind = str_eq kind "gemini.turn.start" || str_eq kind "gemini.turn.rewrite"

-- The JSON that the interrupts read and write: the Wio and the Codex thread of a start and of a
-- rewrite, the thread of a Gemini turn, and the two commands.
pub record Codec : Type 0 where
  pub start_threads : String → Option (String × String)
  pub rewrite_threads : String → Option (String × String)
  pub gemini_thread : String → Option String
  pub interrupt_turn : String → String → String
  pub gemini_interrupt : String → String → String

-- The switch of `queueBestEffortInterrupt`.
unfoldable pub turn_threads : Codec → String → String → Option (String × String)
turn_threads codec kind payload =
    if str_eq kind "codex.turn.start"
    then codec.start_threads payload
    else if str_eq kind "codex.turn.rewrite"
    then codec.rewrite_threads payload
    else none

unfoldable pub is_cancelled : Option Operation → Bool
is_cancelled none = false
is_cancelled (some o) = str_eq o.status "cancelled"

module _ (codec : Codec) (meanwhile : Db → Db) (fresh : String) (now : ℕ) where
  -- A queued interrupt wakes the loop; `false` is the error of a refused one.
  woken_by : Link → Db × Outcome String → Link × Bool
  woken_by l (db, granted id) = (record l { db = db; woken = true }, true)
  woken_by l (db, refused e) = (record l { db = db }, false)

  interrupt_threads : String → Operation → Link → Option (String × String) → Link × Bool
  unfolding woken_by
  interrupt_threads server_id o l none = (l, not (is_codex_turn_operation o.kind))
  interrupt_threads server_id o l (some (thread_id, codex_thread)) =
      if str_eq thread_id ""
      then (l, false)
      else woken_by l (
          queue_resource_operation meanwhile fresh now server_id "codex.turn.interrupt"
            (codec.interrupt_turn thread_id codex_thread) ("codex-cancel:" <> o.id)
            (record {
              project_id = o.project_id;
              workspace_id = o.workspace_id;
              thread_id = o.thread_id;
            })
            false l.db)

  -- `queueBestEffortInterrupt`.
  unfoldable pub queue_best_effort_interrupt : String → Operation → Link → Link × Bool
  unfolding interrupt_threads
  queue_best_effort_interrupt server_id o l =
      interrupt_threads server_id o l (turn_threads codec o.kind o.payload)

  -- The interrupt that `flush` queues for a Gemini turn.
  unfoldable pub queue_gemini_interrupt : String → Operation → Link → Link × Bool
  unfolding woken_by
  queue_gemini_interrupt server_id o l = elim (codec.gemini_thread o.payload) [
    | none ↦ (l, false)
    | some thread_id ↦ woken_by l (
        queue_resource_operation meanwhile fresh now server_id "gemini.turn.interrupt"
          (codec.gemini_interrupt thread_id o.id) ("gemini-cancel:" <> o.id)
          (record { project_id = o.project_id; workspace_id = o.workspace_id; thread_id = "" })
          false l.db)
  ]

  unfoldable pub marked : Operation → Link → Link
  marked o l =
      if is_claimed_turn o.kind
      then l
      else record l { db = with_operations (mark_delivered o.id now l.db.operations) l.db }

  -- The second half: the mark, and the interrupt of a turn that was cancelled in between. `false`
  -- is an error that ends `flush`; that of a best-effort interrupt is only logged.
  unfoldable pub settle : String → Operation → Link → Link × Bool
  unfolding marked
  settle server_id o l =
      let l' = marked o l in
      let cancelled = is_cancelled (operation o.id l'.db.operations) in
      if is_codex_turn_operation o.kind
      then if cancelled then ((queue_best_effort_interrupt server_id o l').0, true) else (l', true)
      else if is_gemini_turn_operation o.kind && cancelled
      then queue_gemini_interrupt server_id o l'
      else (l', true)

-- What happens around one round of the loop: the vault, the outcome of `Send`, what other
-- connections commit before the state is written back and inside the queueing, and a fresh id.
pub record Surroundings : Type 0 where
  pub decrypt : String → Option String
  pub codec : Codec
  pub accepts : Envelope → Bool
  pub between : Operation → Db → Db
  pub meanwhile : Db → Db
  pub fresh : Operation → String
  pub clock : ℕ

-- `return err` leaves the loop.
unfoldable pub unless_failed : (Link → Link × Bool) → Link × Bool → Link × Bool
unless_failed rest (l, true) = rest l
unless_failed rest (l, false) = (l, false)

module _ (env : Surroundings) (server_id : String) where
  after_dispatch : Operation → Link × Dispatch → Link × Bool
  after_dispatch o (l, passed_over) = (l, true)
  after_dispatch o (l, send_failed) = (l, false)
  after_dispatch o (l, went_out) =
      settle env.codec env.meanwhile (env.fresh o) env.clock server_id o
        (record l { db = env.between o l.db })

  -- One round of the loop.
  unfoldable pub deliver : Operation → Link → Link × Bool
  unfolding after_dispatch
  deliver o l = after_dispatch o (dispatch env.decrypt env.accepts env.clock o l)

  unfoldable pub deliver_each : List Operation → Link → Link × Bool
  unfolding unless_failed
  deliver_each [] l = (l, true)
  deliver_each (o ∷ os) l = unless_failed (deliver_each os) (deliver o l)

  -- `flush`.
  unfoldable pub flush : Link → Link × Bool
  unfolding deliver_each
  flush l = deliver_each (pending_operations server_id env.clock l.db.operations) l

-- `UnfinishedGeminiOperations`: the turns that a keepalive asks the Agent about.
delivered_long_ago : ℕ → Option ℕ → Bool
delivered_long_ago cutoff none = false
delivered_long_ago cutoff (some t) = ltb t cutoff

unfoldable pub is_unfinished : (String → Bool) → String → ℕ → Operation → Bool
unfolding delivered_long_ago
is_unfinished is_turn server_id cutoff o =
    str_eq o.server_id server_id
    && is_turn o.kind
    && (str_eq o.status "running"
        || (str_eq o.status "delivered" && delivered_long_ago cutoff o.delivered_at))

ids_of : List Operation → List String
ids_of [] = []
ids_of (o ∷ os) = o.id ∷ ids_of os

unfoldable pub unfinished_operations : (String → Bool) → String → ℕ → List Operation → List String
unfolding ids_of
unfinished_operations is_turn server_id now ops = ids_of (
    order_by (λ a b. ltb a.created_at b.created_at)
      (keep (is_unfinished is_turn server_id (now - redelivery_ns)) ops))
