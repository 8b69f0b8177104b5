-- ===== src/Store/Table.antt =====
-- Database tables as lists of rows: `UPDATE … WHERE`, `RowsAffected`, `ORDER BY` and `LIMIT`.
-- The order of a table's rows carries no meaning.
use my_wio.Base.{
  ℕ, zero, suc, ◌≤◌, ◌≡◌, refl, Bool, true, false, ◌&&◌, ◌||◌, not, List, [], ◌∷◌, length, keep,
  take, any, all, arith, if◌then◌else◌, Bool-cases, inl, inr,
}

module _ {ℓ} {R : Type ℓ} where
  -- `UPDATE table SET … WHERE …`.
  unfoldable pub update_where : (R → Bool) → (R → R) → List R → List R
  update_where p f [] = []
  update_where p f (r ∷ rs) = (if p r then f r else r) ∷ update_where p f rs

  -- `RowsAffected` of such a statement.
  unfoldable pub affected : (R → Bool) → List R → ℕ
  affected p rs = length (keep p rs)

  pub update_where_none :
      (p : R → Bool) (f : R → R) (rs : List R) → affected p rs ≡ 0 → update_where p f rs ≡ rs
  unfolding update_where affected
  update_where_none p f [] h = refl
  update_where_none p f (r ∷ rs) h = ground (arith, update_where_none p f rs)

  -- A statement whose rows another one has just moved out of reach affects none.
  pub affected_again :
      (p q : R → Bool) (f : R → R) (rs : List R)
      → ((r : R) → p r ≡ true → q (f r) ≡ false)
      → ((r : R) → p r ≡ false → q r ≡ false)
      → affected q (update_where p f rs) ≡ 0
  unfolding update_where affected
  affected_again p q f [] moved other = refl
  affected_again p q f (r ∷ rs) moved other =
      ground (arith, moved r, other r, affected_again p q f rs moved other)

  -- A statement on rows apart from those of a count leaves the count.
  pub affected_apart :
      (p q : R → Bool) (f : R → R) (rs : List R)
      → ((r : R) → p r ≡ true → q r ≡ false)
      → ((r : R) → p r ≡ true → q (f r) ≡ false)
      → affected q (update_where p f rs) ≡ affected q rs
  unfolding update_where affected
  affected_apart p q f [] apart after = refl
  affected_apart p q f (r ∷ rs) apart after =
      ground (arith, apart r, after r, affected_apart p q f rs apart after)

  pub any-update_where :
      (q p : R → Bool) (f : R → R) (rs : List R)
      → ((r : R) → q (f r) ≡ q r)
      → any q (update_where p f rs) ≡ any q rs
  unfolding update_where
  any-update_where q p f [] same = refl
  any-update_where q p f (r ∷ rs) same = ground (arith, same r, any-update_where q p f rs same)

  -- Insertion into a list that is ordered by `before`, behind the rows that tie.
  unfoldable pub insert_by : (R → R → Bool) → R → List R → List R
  insert_by before r [] = r ∷ []
  insert_by before r (s ∷ rs) =
      let rest = insert_by before r rs in if before r s then r ∷ s ∷ rs else s ∷ rest

  -- `ORDER BY`, for the strict order `before`. It keeps ties in the order of the rows.
  unfoldable pub order_by : (R → R → Bool) → List R → List R
  unfolding insert_by
  order_by before [] = []
  order_by before (r ∷ rs) = insert_by before r (order_by before rs)

  pub length-insert_by :
      (before : R → R → Bool) (r : R) (rs : List R)
      → length (insert_by before r rs) ≡ suc (length rs)
  unfolding insert_by
  length-insert_by before r [] = refl
  length-insert_by before r (s ∷ rs) = ground (arith, length-insert_by before r rs)

  pub length-order_by :
      (before : R → R → Bool) (rs : List R) → length (order_by before rs) ≡ length rs
  unfolding order_by
  length-order_by before [] = refl
  length-order_by before (r ∷ rs) =
      ground (arith, length-insert_by before r (order_by before rs), length-order_by before rs)

  any-insert_by :
      (p : R → Bool) (before : R → R → Bool) (r : R) (rs : List R)
      → any p (insert_by before r rs) ≡ (p r || any p rs)
  unfolding insert_by
  any-insert_by p before r [] = refl
  any-insert_by p before r (s ∷ rs) = ground (arith, any-insert_by p before r rs)

  -- Ordering keeps the rows.
  pub any-order_by :
      (p : R → Bool) (before : R → R → Bool) (rs : List R) → any p (order_by before rs) ≡ any p rs
  unfolding order_by
  any-order_by p before [] = refl
  any-order_by p before (r ∷ rs) =
      ground (arith, any-insert_by p before r (order_by before rs), any-order_by p before rs)

  all-insert_by :
      (p : R → Bool) (before : R → R → Bool) (r : R) (rs : List R)
      → all p (insert_by before r rs) ≡ (p r && all p rs)
  unfolding insert_by
  all-insert_by p before r [] = refl
  all-insert_by p before r (s ∷ rs) = ground (arith, all-insert_by p before r rs)

  pub all-order_by :
      (p : R → Bool) (before : R → R → Bool) (rs : List R) → all p (order_by before rs) ≡ all p rs
  unfolding order_by
  all-order_by p before [] = refl
  all-order_by p before (r ∷ rs) =
      ground (arith, all-insert_by p before r (order_by before rs), all-order_by p before rs)

  pub all-keep : (p : R → Bool) (rs : List R) → all p (keep p rs) ≡ true
  all-keep p [] = refl
  all-keep p (r ∷ rs) = ground (arith, all-keep p rs)

  pub all-take : (p : R → Bool) (n : ℕ) (rs : List R) → all p rs ≡ true → all p (take n rs) ≡ true
  all-take p zero rs h = refl
  all-take p (suc n) [] h = refl
  all-take p (suc n) (r ∷ rs) h = ground (arith, all-take p n rs)

  pub take_of_short : (n : ℕ) (rs : List R) → length rs ≤ n → take n rs ≡ rs
  take_of_short zero [] h = refl
  take_of_short zero (r ∷ rs) h = absurd (omega arith)
  take_of_short (suc n) [] h = refl
  take_of_short (suc n) (r ∷ rs) h = ground (arith, take_of_short n rs)

  -- No row stands before an earlier one.
  abbrev pub IsOrdered : (R → R → Bool) → List R → Type 0
  IsOrdered before [] = Unit
  IsOrdered before (r ∷ rs) = (all (λ s. not (before s r)) rs ≡ true) × IsOrdered before rs

  module _ (before : R → R → Bool) (asymmetric : (a b : R) → before a b ≡ true → before b a ≡ false)
      (negatively_transitive : (a b c : R)
        → before b a ≡ false
        → before c b ≡ false
        → before c a ≡ false) where
    none_before :
        (r s : R) (rs : List R)
        → before s r ≡ false
        → all (λ t. not (before t s)) rs ≡ true
        → all (λ t. not (before t r)) rs ≡ true
    none_before r s [] h a = refl
    none_before r s (t ∷ rs) h a = ground (arith, negatively_transitive r s t, none_before r s rs)

    insert_by-IsOrdered :
        (r : R) (rs : List R) → IsOrdered before rs → IsOrdered before (insert_by before r rs)
    unfolding insert_by
    insert_by-IsOrdered r [] h = (refl, tt)
    insert_by-IsOrdered r (s ∷ rs) h = elim (Bool-cases (before r s)) [
      | inl e ↦ rw e (ground (arith, asymmetric r s, none_before r s rs), h)
      | inr e ↦ rw e (
        ground (arith, all-insert_by (λ t. not (before t s)) before r rs),
        insert_by-IsOrdered r rs h.1,
      )
    ]

    pub order_by-IsOrdered : (rs : List R) → IsOrdered before (order_by before rs)
    unfolding order_by
    order_by-IsOrdered [] = tt
    order_by-IsOrdered (r ∷ rs) = insert_by-IsOrdered r (order_by before rs) (order_by-IsOrdered rs)

    pub take-IsOrdered : (n : ℕ) (rs : List R) → IsOrdered before rs → IsOrdered before (take n rs)
    take-IsOrdered zero rs h = tt
    take-IsOrdered (suc n) [] h = tt
    take-IsOrdered (suc n) (r ∷ rs) h =
        (all-take (λ s. not (before s r)) n rs h.0, take-IsOrdered n rs h.1)

    module _ (early : R → Bool)
        (early_closed : (a b : R) → before b a ≡ false → early b ≡ true → early a ≡ true)
        (q : R → Bool) where
      none_early :
          (r : R) (rs : List R)
          → all (λ s. not (before s r)) rs ≡ true
          → early r ≡ false
          → any (λ s. early s && q s) rs ≡ false
      none_early r [] a e = refl
      none_early r (s ∷ rs) a e = ground (arith, early_closed r s, none_early r rs)

      -- A prefix of an ordered list that reaches past the early rows holds all of them.
      pub any-take :
          (n : ℕ) (rs : List R)
          → IsOrdered before rs
          → any (λ s. not (early s)) (take n rs) ≡ true
          → any (λ s. early s && q s) (take n rs) ≡ any (λ s. early s && q s) rs
      any-take zero rs o h = cc
      any-take (suc n) [] o h = refl
      any-take (suc n) (r ∷ rs) o h = elim (Bool-cases (early r)) [
        | inl e ↦ rw (any-take n rs o.1 (ground arith)) refl
        | inr e ↦
            rw (e, none_early r rs o.0 e, none_early r (take n rs) (all-take _ n rs o.0) e) refl
      ]
