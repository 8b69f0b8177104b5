-- ===== src/Gateway/Flush.antt =====
-- `flush` as a run of the steps of Refinement, and what it leaves for the next `flush`.
use my_wio.Base.{
  ℕ, ◌≤◌, String, ◌≡◌, refl, sym, subst, Bool, true, false, Option, none, some, List, [], ◌∷◌,
  str_eq, str_eq_iff, arith, Bool-cases, inl, inr,
}
use my_wio.Store.Operations.{Operation, operation, is_claimed_turn, pending_operations, is_pending}
use my_wio.Store.Operations.Rows.{stage, FollowsRow}
use my_wio.Store.Operations.Lifecycle.{Reach, Reach-FollowsRow}
use my_wio.Store.Queue.{Db}
use my_wio.Gateway.{
  Link, Dispatch, passed_over, send_failed, went_out, Surroundings, dispatch, after_dispatch,
  deliver, deliver_each, unless_failed, flush,
}
use my_wio.Gateway.Refinement.{LinkRun, follows, others, dispatches, settles}

unless_runs :
    (json_valid : String → Bool) (l : Link) (rest : Link → Link × Bool) (r : Link × Bool)
    → LinkRun json_valid l r.0
    → ((m : Link) → LinkRun json_valid l m → LinkRun json_valid l (rest m).0)
    → LinkRun json_valid l (unless_failed rest r).0
unfolding unless_failed
unless_runs json_valid l rest (m, true) h more = more m h
unless_runs json_valid l rest (m, false) h more = h

module _ (json_valid : String → Bool) (env : Surroundings) (server_id : String)
    (around : (o : Operation) (db : Db)
      → Reach json_valid db.operations (env.between o db).operations)
    (commits : (db : Db) → Reach json_valid db.operations (env.meanwhile db).operations) where
  after_runs :
      (l : Link) (o : Operation) (r : Link × Dispatch)
      → LinkRun json_valid l r.0
      → LinkRun json_valid l (after_dispatch env server_id o r).0
  unfolding after_dispatch
  after_runs l o (m, passed_over) h = h
  after_runs l o (m, send_failed) h = h
  after_runs l o (m, went_out) h =
      follows (follows h (others (env.between o m.db) m.woken (around o m.db)))
        (settles env.codec env.meanwhile (env.fresh o) env.clock server_id o commits)

  deliver_runs :
      (l : Link) (o : Operation) (m : Link)
      → LinkRun json_valid l m
      → LinkRun json_valid l (deliver env server_id o m).0
  unfolding deliver
  deliver_runs l o m h =
      after_runs l o (dispatch env.decrypt env.accepts env.clock o m)
        (follows h (dispatches env.decrypt env.accepts env.clock o))

  deliver_each_runs :
      (l : Link) (os : List Operation) (m : Link)
      → LinkRun json_valid l m
      → LinkRun json_valid l (deliver_each env server_id os m).0
  unfolding deliver_each
  deliver_each_runs l [] m h = h
  deliver_each_runs l (o ∷ os) m h =
      unless_runs json_valid l (deliver_each env server_id os) (deliver env server_id o m)
        (deliver_runs l o m h) (deliver_each_runs l os)

  -- A whole `flush` prolongs a run, where what other connections do in between are statements on
  -- the table.
  pub flush_runs :
      {l m : Link} → LinkRun json_valid l m → LinkRun json_valid l (flush env server_id m).0
  unfolding flush
  flush_runs {l} {m} h =
      deliver_each_runs l (pending_operations server_id env.clock m.db.operations) m h

turn_is_no_interrupt :
    (kind : String) → is_claimed_turn kind ≡ true → str_eq kind "operation.interrupt" ≡ false
unfolding is_claimed_turn
turn_is_no_interrupt kind k = elim (Bool-cases (str_eq kind "operation.interrupt")) [
  | inl e ↦
      absurd (
        subst (λ t. is_claimed_turn t ≡ true → ⊥) (sym ((str_eq_iff _ _).0 e)) (λ h. ground arith)
          k)
  | inr e ↦ e
]

pending-stage :
    (server_id : String) (cutoff : ℕ) (o : Operation)
    → is_claimed_turn o.kind ≡ true
    → 1 ≤ stage o.status
    → is_pending server_id cutoff o ≡ false
unfolding is_pending stage
pending-stage server_id cutoff o k h = ground (arith, turn_is_no_interrupt o.kind k)

-- A turn that has left the queue, sent or not, is never again among the pending operations: at any
-- later time and for any server, its row is there and is not picked.
pub claimed_turn_never_pending :
    (json_valid : String → Bool) {ops ops' : List Operation} {o : Operation} (id : String)
    → operation id ops ≡ some o
    → is_claimed_turn o.kind ≡ true
    → 1 ≤ stage o.status
    → Reach json_valid ops ops'
    → (server_id : String) (cutoff : ℕ)
    → (o' : Operation) × (operation id ops' ≡ some o') × (is_pending server_id cutoff o' ≡ false)
claimed_turn_never_pending json_valid {ops} {ops'} {o} id e k s r server_id cutoff =
    later (operation id ops') refl
      (subst (λ row. FollowsRow row (operation id ops')) e (Reach-FollowsRow json_valid r id))
  where
    later :
        (row : Option Operation)
        → operation id ops' ≡ row
        → FollowsRow (some o) row
        → (o' : Operation) × (operation id ops' ≡ some o')
          × (is_pending server_id cutoff o' ≡ false)
    later none e' f = elim f [ ]
    later (some o') e' f =
        (o', e', pending-stage server_id cutoff o' (rw f.same_kind k) (omega (arith, f.forward)))
