-- ===== src/AgentCache/Pruning.antt =====
-- Pruning keeps the cache within its limits and never forgets what is not on disk.
use my_wio.Base.{
  ℕ, zero, suc, ◌≡◌, refl, sym, subst, String, true, false, none, some, List, [], ◌∷◌, arith,
  Bool-cases, Option-cases, inl, inr,
}
use my_wio.AgentCache.{
  Execution, oldest, forget, evictable_count, evictable_bytes, is_over_limit, evict,
}

module _ (byte_length : String → ℕ) where
  nothing_evictable :
      (seen : List Execution)
      → oldest seen ≡ none
      → (evictable_count seen ≡ 0) × (evictable_bytes byte_length seen ≡ 0)
  unfolding oldest evictable_count evictable_bytes
  nothing_evictable [] h = (refl, refl)
  nothing_evictable (e ∷ seen) h = ground (arith, nothing_evictable seen)

  evict_within :
      (fuel : ℕ) (seen : List Execution)
      → is_over_limit byte_length seen ≡ false
      → evict byte_length fuel seen ≡ seen
  unfolding evict
  evict_within zero seen h = refl
  evict_within (suc fuel) seen h = ground arith

  evict_none : (seen : List Execution) → evict byte_length zero seen ≡ seen
  unfolding evict
  evict_none seen = refl

  evict_round :
      (fuel : ℕ) (seen : List Execution) (o : Execution)
      → is_over_limit byte_length seen ≡ true
      → oldest seen ≡ some o
      → evict byte_length (suc fuel) seen ≡ evict byte_length fuel (forget o.id seen)
  unfolding evict
  evict_round fuel seen o h f = ground arith

  within_of_nothing_evictable :
      (seen : List Execution) → oldest seen ≡ none → is_over_limit byte_length seen ≡ false
  unfolding is_over_limit
  within_of_nothing_evictable seen h =
      let (count, bytes) = nothing_evictable seen h in rw (count, bytes) refl

  -- What holds of a list and of every list from which evictable entries are forgotten, holds after
  -- the loop.
  pub evict_invariant :
      (P : List Execution → Type 0)
      → ((seen : List Execution) (o : Execution)
          → oldest seen ≡ some o
          → P seen
          → P (forget o.id seen))
      → (fuel : ℕ) (seen : List Execution) → P seen
      → P (evict byte_length fuel seen)
  evict_invariant P kept zero seen h = subst P (sym (evict_none seen)) h
  evict_invariant P kept (suc fuel) seen h = elim (Bool-cases (is_over_limit byte_length seen)) [
    | inr e ↦ subst P (sym (evict_within (suc fuel) seen e)) h
    | inl e ↦ elim (Option-cases (oldest seen)) [
      | inl n ↦ absurd (ground (arith, within_of_nothing_evictable seen n))
      | inr (o, f) ↦
          subst P (sym (evict_round fuel seen o e f))
            (evict_invariant P kept fuel (forget o.id seen) (kept seen o f h))
    ]
  ]
