-- ===== src/AgentCache/Memory.antt =====
-- What the Agent remembers of the operations that it has begun, and that pruning keeps it.
use my_wio.Base.{
  ℕ, ◌≡◌, refl, subst, ap, String, str_eq_iff, Bool, true, false, ◌&&◌, ◌||◌, not, some, List, [],
  ◌∷◌, str_eq, keep, any, all, arith, Bool-cases, Option-cases, inl, inr,
}
use my_wio.AgentCache.{
  Execution, is_evictable, is_expired, oldest, forget, prune_completed_operations, Receipt,
  is_missing, Agent,
}
use my_wio.AgentCache.Pruning.{evict_invariant}

oldest-is_evictable :
    (seen : List Execution) (o : Execution) → oldest seen ≡ some o → is_evictable o ≡ true
unfolding oldest
oldest-is_evictable [] o h = cc
oldest-is_evictable (e ∷ seen) o h = ground (arith, oldest-is_evictable seen o)

oldest-all :
    (q : Execution → Bool) (seen : List Execution) (o : Execution)
    → oldest seen ≡ some o
    → all q seen ≡ true
    → q o ≡ true
unfolding oldest
oldest-all q [] o h a = cc
oldest-all q (e ∷ seen) o h a = elim (Option-cases (oldest seen)) [
  | inl n ↦ subst (λ x. q x ≡ true) {x = e} (ground arith) (ground arith)
  | inr (r, f) ↦ ground (arith, oldest-all q seen r)
]

all-keep_of :
    (q p : Execution → Bool) (seen : List Execution)
    → all q seen ≡ true
    → all q (keep p seen) ≡ true
all-keep_of q p [] a = refl
all-keep_of q p (e ∷ seen) a = ground (arith, all-keep_of q p seen)

pub same_id : (a b c : String) → str_eq a b ≡ true → str_eq a c ≡ str_eq b c
same_id a b c h = ap (λ s. str_eq s c) ((str_eq_iff a b).0 h)

-- Forgetting another id keeps an id.
any-forget :
    (id other : String) (seen : List Execution)
    → str_eq other id ≡ false
    → any (λ e. str_eq e.id id) (forget other seen) ≡ any (λ e. str_eq e.id id) seen
unfolding forget
any-forget id other [] h = refl
any-forget id other (e ∷ seen) h = ground (arith, same_id e.id other id, any-forget id other seen)

module _ (receipts : String → Receipt) where
  -- What may be evicted has its receipt on disk.
  unfoldable pub is_covered : Execution → Bool
  is_covered e = not (is_evictable e) || not (is_missing (receipts e.id))

  -- An operation that the Agent remembers, in RAM or on disk.
  unfoldable pub is_known : List Execution → String → Bool
  is_known seen id = any (λ e. str_eq e.id id) seen || not (is_missing (receipts id))

  abbrev IsSafe : String → List Execution → Type 0
  IsSafe id seen = (all is_covered seen ≡ true) × (is_known seen id ≡ true)

  covered_present :
      (id : String) (e : Execution)
      → is_covered e ≡ true
      → is_evictable e ≡ true
      → str_eq e.id id ≡ true
      → not (is_missing (receipts id)) ≡ true
  unfolding is_covered
  covered_present id e c v h =
      let present : not (is_missing (receipts e.id)) ≡ true = ground arith in
      subst (λ i. not (is_missing (receipts i)) ≡ true) ((str_eq_iff e.id id).0 h) present

  forget-IsSafe :
      (id : String) (seen : List Execution) (o : Execution)
      → oldest seen ≡ some o
      → IsSafe id seen
      → IsSafe id (forget o.id seen)
  unfolding is_known forget
  forget-IsSafe id seen o f (c, k) = (
    all-keep_of is_covered _ seen c,
    elim (Bool-cases (str_eq o.id id)) [
      | inl e ↦
          let present : not (is_missing (receipts id)) ≡ true =
            covered_present id o (oldest-all is_covered seen o f c) (oldest-is_evictable seen o f)
              e in
          ground arith
      | inr e ↦ rw (any-forget id o.id seen e) k
    ],
  )

  expired-is_evictable : (now : ℕ) (e : Execution) → is_expired now e ≡ true → is_evictable e ≡ true
  unfolding is_expired is_evictable
  expired-is_evictable now e h = ground arith

  live-is_known :
      (now : ℕ) (id : String) (seen : List Execution)
      → all is_covered seen ≡ true
      → is_known seen id ≡ true
      → is_known (keep (λ e. not (is_expired now e)) seen) id ≡ true
  unfolding is_known
  live-is_known now id [] c k = k
  live-is_known now id (e ∷ seen) c k =
      ground (arith, live-is_known now id seen, covered_present id e, expired-is_evictable now e)

  prune-covered :
      (byte_length : String → ℕ) (now : ℕ) (seen : List Execution)
      → all is_covered seen ≡ true
      → all is_covered (prune_completed_operations byte_length now seen) ≡ true
  unfolding prune_completed_operations forget
  prune-covered byte_length now seen c =
      evict_invariant byte_length (λ l. all is_covered l ≡ true)
        (λ l o f h. all-keep_of is_covered _ l h) _ (keep (λ e. not (is_expired now e)) seen)
        (all-keep_of is_covered _ seen c)

  prune-IsSafe :
      (byte_length : String → ℕ) (now : ℕ) (id : String) (seen : List Execution)
      → IsSafe id seen
      → IsSafe id (prune_completed_operations byte_length now seen)
  unfolding prune_completed_operations
  prune-IsSafe byte_length now id seen safe =
      evict_invariant byte_length (IsSafe id) (forget-IsSafe id) _
        (keep (λ e. not (is_expired now e)) seen)
        (all-keep_of is_covered _ seen safe.0, live-is_known now id seen safe.0 safe.1)

-- The invariant: evictable entries are covered, what was begun is known and was begun once.
unfoldable pub are_distinct : List String → Bool
are_distinct [] = true
are_distinct (id ∷ ids) = not (any (λ i. str_eq i id) ids) && are_distinct ids

pub record IsSound (a : Agent) : Type 0 where
  pub covered : all (is_covered a.receipts) a.seen ≡ true
  pub known : all (is_known a.receipts a.seen) a.executed ≡ true
  pub distinct : are_distinct a.executed ≡ true

pub all_of :
    {A : Type 0} (p q : A → Bool) (xs : List A)
    → ((x : A) → p x ≡ true → q x ≡ true)
    → all p xs ≡ true
    → all q xs ≡ true
all_of p q [] f h = refl
all_of p q (x ∷ xs) f h = ground (arith, f x, all_of p q xs f)

pub prune-IsSound :
    (byte_length : String → ℕ) (now : ℕ) (a : Agent)
    → IsSound a
    → IsSound (record a { seen = prune_completed_operations byte_length now a.seen })
prune-IsSound byte_length now a s = record {
  covered = prune-covered a.receipts byte_length now a.seen s.covered;
  known =
      all_of _ _ a.executed
        (λ id k. (prune-IsSafe a.receipts byte_length now id a.seen (s.covered, k)).1) s.known;
  distinct = s.distinct;
}
