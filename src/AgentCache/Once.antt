-- ===== src/AgentCache/Once.antt =====
-- An Agent process executes no operation twice.
use my_wio.Base.{
  ℕ, ◌≡◌, refl, ap, String, str_eq_iff, str_eq_refl, Bool, true, false, not, none, some, List, [],
  ◌∷◌, str_eq, any, all, find_first, arith, Bool-cases, Option-cases, inl, inr, if◌then◌else◌,
}
use my_wio.Store.Operations.{OperationResult}
use my_wio.Store.Table.{update_where}
use my_wio.AgentCache.{
  Execution, is_evictable, prune_completed_operations, Receipt, missing, unreadable, readable,
  is_missing, Agent, with_receipt, begun, begin_unseen, handle_operation, finish_operation, damage,
  Act, delivers, finishes, damages, step, steps,
}
use my_wio.AgentCache.Memory.{is_covered, is_known, are_distinct, IsSound, all_of, prune-IsSound}

find-none :
    (id : String) (seen : List Execution)
    → find_first (λ e. str_eq e.id id) seen ≡ none
    → any (λ e. str_eq e.id id) seen ≡ false
find-none id [] h = refl
find-none id (e ∷ seen) h = ground (arith, find-none id seen)

is_known-same :
    (receipts : String → Receipt) (seen : List Execution) (i id : String)
    → str_eq i id ≡ true
    → is_known receipts seen i ≡ is_known receipts seen id
is_known-same receipts seen i id h = ap (is_known receipts seen) ((str_eq_iff i id).0 h)

-- An id that is not known was not begun.
unknown_is_new :
    (receipts : String → Receipt) (seen : List Execution) (id : String) (ids : List String)
    → all (is_known receipts seen) ids ≡ true
    → is_known receipts seen id ≡ false
    → any (λ i. str_eq i id) ids ≡ false
unknown_is_new receipts seen id [] k u = refl
unknown_is_new receipts seen id (i ∷ ids) k u =
    ground (arith, is_known-same receipts seen i id, unknown_is_new receipts seen id ids)

module _ (a : Agent) (id : String) (sound : IsSound a)
    (unseen : any (λ e. str_eq e.id id) a.seen ≡ false) where
  unknown : a.receipts id ≡ missing → is_known a.receipts a.seen id ≡ false
  unfolding is_known is_missing
  unknown m = rw (unseen, m) refl

  begun-IsSound : a.receipts id ≡ missing → IsSound (begun id a)
  unfolding is_covered is_known is_evictable are_distinct
  begun-IsSound m = record {
    covered = sound.covered;
    known = ground (
      arith,
      str_eq_refl id,
      all_of (is_known a.receipts a.seen) (is_known a.receipts (begun id a).seen) a.executed
          (λ i k. ground arith) sound.known,
    );
    distinct = ground (
      arith,
      sound.distinct,
      unknown_is_new a.receipts a.seen id a.executed sound.known (unknown m),
    );
  }

  begin_unseen-IsSound : IsSound (begin_unseen id a).0
  unfolding begin_unseen
  begin_unseen-IsSound = by_receipt (a.receipts id) refl
    where
      by_receipt : (r : Receipt) → a.receipts id ≡ r → IsSound (begin_unseen id a).0
      by_receipt missing e = rw (begin_unseen, e) (begun-IsSound e)
      by_receipt unreadable e = rw (begin_unseen, e) sound
      by_receipt (readable r) e = rw (begin_unseen, e) sound

finished : OperationResult → Bool → ℕ → List Execution → List Execution
finished r saved now =
    update_where (λ e. str_eq e.id r.operation_id)
      (λ e. record e { completed = some (now, r); persisted = saved })

abbrev receipts_after : OperationResult → Bool → (String → Receipt) → String → Receipt
receipts_after r saved receipts =
    if saved then with_receipt r.operation_id (readable r) receipts else receipts

saved_is_present :
    (r : OperationResult) (saved : Bool) (receipts : String → Receipt) (i : String)
    → not (is_missing (receipts i)) ≡ true
    → not (is_missing (receipts_after r saved receipts i)) ≡ true
unfolding is_missing
saved_is_present r true receipts i h = ground arith
saved_is_present r false receipts i h = h

finished-covered :
    (r : OperationResult) (saved : Bool) (now : ℕ) (receipts : String → Receipt)
    (seen : List Execution)
    → all (is_covered receipts) seen ≡ true
    → all (is_covered (receipts_after r saved receipts)) (finished r saved now seen) ≡ true
unfolding finished update_where is_covered is_evictable is_missing
finished-covered r saved now receipts [] c = refl
finished-covered r true now receipts (e ∷ seen) c =
    ground (arith, finished-covered r true now receipts seen)
finished-covered r false now receipts (e ∷ seen) c =
    ground (arith, finished-covered r false now receipts seen)

finished-known :
    (r : OperationResult) (saved : Bool) (now : ℕ) (id : String) (seen : List Execution)
    → any (λ e. str_eq e.id id) (finished r saved now seen) ≡ any (λ e. str_eq e.id id) seen
unfolding finished update_where
finished-known r saved now id [] = refl
finished-known r saved now id (e ∷ seen) = ground (arith, finished-known r saved now id seen)

module _ (byte_length : String → ℕ) where
  finish-IsSound :
      (r : OperationResult) (saved : Bool) (now : ℕ) (a : Agent)
      → IsSound a
      → IsSound (finish_operation byte_length r saved now a)
  unfolding finish_operation finished is_known
  finish-IsSound r saved now a s =
      prune-IsSound byte_length now
        (record a {
          receipts = receipts_after r saved a.receipts;
          seen = finished r saved now a.seen;
        })
        (record {
          covered = finished-covered r saved now a.receipts a.seen s.covered;
          known =
              all_of _ _ a.executed
                (λ i k. ground (
                  arith,
                  finished-known r saved now i a.seen,
                  saved_is_present r saved a.receipts i,
                ))
                s.known;
          distinct = s.distinct;
        })

  damage-is_missing :
      (id i : String) (a : Agent)
      → is_missing ((damage id a).receipts i) ≡ is_missing (a.receipts i)
  unfolding damage is_missing
  damage-is_missing id i a = ground arith

  damage-IsSound : (id : String) (a : Agent) → IsSound a → IsSound (damage id a)
  unfolding damage is_covered is_known
  damage-IsSound id a s = record {
    covered = all_of _ _ a.seen (λ e c. rw (damage-is_missing id e.id a) c) s.covered;
    known = all_of _ _ a.executed (λ i k. rw (damage-is_missing id i a) k) s.known;
    distinct = s.distinct;
  }

  handle-IsSound :
      (id : String) (now : ℕ) (a : Agent)
      → IsSound a
      → IsSound (handle_operation byte_length id now a).0
  unfolding handle_operation
  handle-IsSound id now a s =
      let pruned = record a { seen = prune_completed_operations byte_length now a.seen } in
      elim (Bool-cases (str_eq id "")) [
        | inl e ↦ rw (handle_operation, e) s
        | inr e ↦ elim (Option-cases (find_first (λ e. str_eq e.id id) pruned.seen)) [
          | inl n ↦
              rw (handle_operation, e, n)
                (begin_unseen-IsSound pruned id (prune-IsSound byte_length now a s)
                  (find-none id pruned.seen n))
          | inr (x, f) ↦ elim (Option-cases x.completed) [
            | inl c ↦ rw (handle_operation, e, f, c) (prune-IsSound byte_length now a s)
            | inr (c, g) ↦ rw (handle_operation, e, f, g) (prune-IsSound byte_length now a s)
          ]
        ]
      ]

  step-IsSound : (act : Act) (a : Agent) → IsSound a → IsSound (step byte_length act a)
  unfolding step
  step-IsSound (delivers id now) a s = handle-IsSound id now a s
  step-IsSound (finishes r saved now) a s = finish-IsSound r saved now a s
  step-IsSound (damages id) a s = damage-IsSound id a s

  steps-IsSound : (acts : List Act) (a : Agent) → IsSound a → IsSound (steps byte_length acts a)
  unfolding steps
  steps-IsSound [] a s = s
  steps-IsSound (act ∷ acts) a s =
      steps-IsSound acts (step byte_length act a) (step-IsSound act a s)

  -- From its start, with whatever receipts earlier processes left in its state directory, an Agent
  -- process begins to execute each operation at most once, however often and in whatever order the
  -- control plane delivers operations, they finish, results are written or not, and receipts become
  -- unreadable, the cache being pruned meanwhile.
  pub executed_once :
      (receipts : String → Receipt) (acts : List Act)
      → are_distinct
          (steps byte_length acts
            (record { seen = []; receipts = receipts; executed = [] })).executed
        ≡ true
  unfolding are_distinct
  executed_once receipts acts =
      (steps-IsSound acts (record { seen = []; receipts = receipts; executed = [] })
        (record { covered = refl; known = refl; distinct = refl })).distinct
