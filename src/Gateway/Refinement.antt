-- ===== src/Gateway/Refinement.antt =====
-- The gateway keeps the promise of Spec: over tables, streams and any interleaving of connections.
use my_wio.Base.{
  ℕ, ◌≤◌, String, ◌≡◌, refl, ap, Bool, true, Option, none, some, List, [], arith, inl, inr,
}
use my_wio.Store.Operations.{Operation, operation, is_claimable, claim_gemini_delivery}
use my_wio.Store.Operations.Rows.{operation-update_where, stage, FollowsRow}
use my_wio.Store.Operations.Steps.{claimed}
use my_wio.Store.Operations.Lifecycle.{Reach, here, next, Reach-FollowsRow}
use my_wio.Store.Operations.Unique.{has_unique_ids, Reach-unique, claimed_row}
use my_wio.Store.Queue.{Db}
use my_wio.Gateway.{Envelope, Link, Codec, dispatch, settle}
use my_wio.Gateway.Spec.{
  Promise, IsLater, PromiseStep, moves, delivers, PromiseRun, starts, goes_on,
  PromiseRun-DeliversOnce, delivers_once,
}
use my_wio.Gateway.Rounds.{turns_sent, IsQuiet, IsTurnSent, dispatch_effect, settle-Writes}

unfoldable pub stage_of : Option Operation → Option ℕ
stage_of none = none
stage_of (some o) = some (stage o.status)

-- What is seen of the table and of the streams.
abbrev pub promise_of : Link → Promise
promise_of l = record {
  stages = λ j. stage_of (operation j l.db.operations);
  deliveries = λ j. turns_sent j l.sent;
}

-- What may happen, in any order: statements of other connections, and the halves of a round for
-- any operation that some `flush` has read, however old its copy of the row is.
pub data LinkStep (json_valid : String → Bool) (l : Link) : Link → Type 0 where
  others :
      (db : Db) (woken : Bool)
      → Reach json_valid l.db.operations db.operations
      → LinkStep json_valid l (record { db = db; sent = l.sent; woken = woken })
  dispatches :
      (decrypt : String → Option String) (accepts : Envelope → Bool) (now : ℕ) (o : Operation)
      → LinkStep json_valid l (dispatch decrypt accepts now o l).0
  settles :
      (codec : Codec) (meanwhile : Db → Db) (fresh : String) (now : ℕ) (server_id : String)
      (o : Operation)
      → ((db : Db) → Reach json_valid db.operations (meanwhile db).operations)
      → LinkStep json_valid l (settle codec meanwhile fresh now server_id o l).0

pub data LinkRun (json_valid : String → Bool) (l : Link) : Link → Type 0 where
  stays : LinkRun json_valid l l
  follows : {m n : Link} → LinkRun json_valid l m → LinkStep json_valid m n → LinkRun json_valid l n

FollowsRow-IsLater : (a b : Option Operation) → FollowsRow a b → IsLater (stage_of a) (stage_of b)
unfolding stage_of
FollowsRow-IsLater none b f = tt
FollowsRow-IsLater (some a) none f = f
FollowsRow-IsLater (some a) (some b) f = f.forward

claimable_stage :
    (id : String) (o : Operation) → is_claimable id o ≡ true → some (stage o.status) ≡ some 0
unfolding stage is_claimable
claimable_stage id o h = ground arith

module _ (json_valid : String → Bool) where
  Reach-IsLater :
      {ops ops' : List Operation}
      → Reach json_valid ops ops'
      → (j : String) → IsLater (stage_of (operation j ops)) (stage_of (operation j ops'))
  Reach-IsLater {ops} {ops'} r j =
      FollowsRow-IsLater (operation j ops) (operation j ops') (Reach-FollowsRow json_valid r j)

  writes_refine :
      (l l' : Link)
      → Reach json_valid l.db.operations l'.db.operations
      → l'.sent ≡ l.sent
      → PromiseStep (promise_of l) (promise_of l')
  writes_refine l l' r e = moves (Reach-IsLater r) (λ j. ap (turns_sent j) e)

  claim-Reach :
      (id : String) (now : ℕ) (ops : List Operation)
      → Reach json_valid ops (claim_gemini_delivery id now ops).0
  claim-Reach id now ops = next here (claimed id now)

  claimed_stages :
      (id : String) (now : ℕ) (ops : List Operation)
      → has_unique_ids ops ≡ true
      → (claim_gemini_delivery id now ops).1 ≡ true
      → (stage_of (operation id ops) ≡ some 0)
        × (stage_of (operation id (claim_gemini_delivery id now ops).0) ≡ some 1)
  unfolding claim_gemini_delivery stage_of
  claimed_stages id now ops u c =
      let (row, found, k) = claimed_row id ops u c in
      (
        rw found (claimable_stage id row k),
        rw
            (
              operation-update_where id (is_claimable id)
                  (λ o. record o { status = "delivered"; delivered_at = some now }) (λ o. refl) ops,
              found,
              k,
            )
            (unfold stage in refl),
      )

  module _ (decrypt : String → Option String) (accepts : Envelope → Bool) (now : ℕ) (o : Operation)
      (l l' : Link) where
    quiet_refines : IsQuiet decrypt accepts now o l l' → PromiseStep (promise_of l) (promise_of l')
    quiet_refines (inl same, d) = moves (Reach-IsLater (rw same here)) d
    quiet_refines (inr took, d) = moves (Reach-IsLater (rw took (claim-Reach o.id now _))) d

    sent_refines :
        has_unique_ids l.db.operations ≡ true
        → IsTurnSent decrypt accepts now o l l'
        → PromiseStep (promise_of l) (promise_of l')
    unfolding turns_sent
    sent_refines u (payload, k, c, took, s) =
        let (before, after) = claimed_stages o.id now l.db.operations u c in
        delivers o.id before (rw took after) (Reach-IsLater (rw took (claim-Reach o.id now _)))
          (λ j. rw (s, k) refl)

  -- Every step of the gateway and of the other connections, on a table without two rows of one id,
  -- is a step of the promise: operations go forward, and a turn is delivered only as its row leaves
  -- the queue. So the loop of `flush` implements the promise whatever happens around it.
  pub gateway_refines :
      (l l' : Link)
      → has_unique_ids l.db.operations ≡ true
      → LinkStep json_valid l l'
      → PromiseStep (promise_of l) (promise_of l')
  gateway_refines l l' u (others db woken r) = writes_refine l l' r refl
  gateway_refines l l' u (dispatches decrypt accepts now o) =
      elim (dispatch_effect decrypt accepts now o l) [
        | inl quiet ↦ quiet_refines decrypt accepts now o l l' quiet
        | inr turn ↦ sent_refines decrypt accepts now o l l' u turn
      ]
  gateway_refines l l' u (settles codec meanwhile fresh now server_id o commits) =
      let w = settle-Writes json_valid codec meanwhile commits fresh now server_id o l in
      writes_refine l l' w.0 w.1

  dispatch-Reach :
      (decrypt : String → Option String) (accepts : Envelope → Bool) (now : ℕ) (o : Operation)
      (l : Link)
      → Reach json_valid l.db.operations (dispatch decrypt accepts now o l).0.db.operations
  dispatch-Reach decrypt accepts now o l = elim (dispatch_effect decrypt accepts now o l) [
    | inl (inl same, d) ↦ rw same here
    | inl (inr took, d) ↦ rw took (claim-Reach o.id now _)
    | inr (payload, k, c, took, s) ↦ rw took (claim-Reach o.id now _)
  ]

  LinkStep-Reach :
      {l l' : Link} → LinkStep json_valid l l' → Reach json_valid l.db.operations l'.db.operations
  LinkStep-Reach (others db woken r) = r
  LinkStep-Reach {l} (dispatches decrypt accepts now o) = dispatch-Reach decrypt accepts now o l
  LinkStep-Reach {l} (settles codec meanwhile fresh now server_id o commits) =
      (settle-Writes json_valid codec meanwhile commits fresh now server_id o l).0

  run_refines :
      {l l' : Link}
      → has_unique_ids l.db.operations ≡ true
      → LinkRun json_valid l l'
      → PromiseRun (promise_of l) (promise_of l') × (has_unique_ids l'.db.operations ≡ true)
  run_refines u stays = (starts, u)
  run_refines u (follows {m} {n} r st) =
      let (pr, um) = run_refines u r in
      (goes_on pr (gateway_refines m n um st), Reach-unique json_valid (LinkStep-Reach st) um)

  delivers_once-le : (stage : Option ℕ) (n : ℕ) → delivers_once stage n ≡ true → n ≤ 1
  unfolding delivers_once
  delivers_once-le none n h = ground arith
  delivers_once-le (some stage) n h = ground arith

  nothing_sent : (stage : Option ℕ) → delivers_once stage 0 ≡ true
  unfolding delivers_once
  nothing_sent none = refl
  nothing_sent (some stage) = refl

  -- From a table without two rows of one id and before anything was sent, however the flushes of any
  -- number of streams, lost sends, late marks and the statements of other connections interleave, a
  -- turn that is claimed before it is sent goes out at most once under its id.
  pub turn_sent_at_most_once :
      {l l' : Link} (id : String)
      → has_unique_ids l.db.operations ≡ true
      → l.sent ≡ []
      → LinkRun json_valid l l'
      → turns_sent id l'.sent ≤ 1
  unfolding turns_sent
  turn_sent_at_most_once {l} {l'} id u empty r =
      delivers_once-le (stage_of (operation id l'.db.operations)) (turns_sent id l'.sent) (
        PromiseRun-DeliversOnce (run_refines u r).0
          (λ j. rw empty (nothing_sent (stage_of (operation j l.db.operations)))) id)
