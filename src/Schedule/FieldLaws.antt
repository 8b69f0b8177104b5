-- ===== src/Schedule/FieldLaws.antt =====
-- Which values a parsed cron field allows.
use my_wio.Base.{
  ℕ, zero, suc, ◌+◌, ◌-◌, ◌%◌, ◌≤◌, ◌<◌, ◌≡◌, ◌≢◌, ◌⊎◌, inl, inr, refl, Bool, true, false, ◌&&◌,
  ◌||◌, List, [], ◌∷◌, ◌++◌, ltb, leb, ◌==◌, arith, ℤ, pos, negsuc, Bool-cases,
}
use native.Mathlib.Nat.{mod-eq_of_lt, mod-eq-sub-mod}
use my_wio.Text.{Text, trim_space, split, text_eq, int_limit}
use my_wio.Schedule.Field.{
  FieldSet, has, add_int, range_values, range_fuel, key, keys, parse_step, parse_range, check_range,
  parse_item, parse_items, field_of, parse_field, parsed, bind-eq-parsed,
}

-- Membership in an arithmetic progression, one step on.
progression_step :
    (s n step : ℕ)
    → 0 < step
    → s ≤ n
    → ((n - s) % step == 0) ≡ (s == n || (leb (s + step) n && ((n - (s + step)) % step == 0)))
progression_step s n step p h = elim (Bool-cases (ltb (n - s) step)) [
  | inl near ↦ ground (arith, mod-eq_of_lt {n = n - s} {m = step})
  | inr far ↦ ground (arith, mod-eq-sub-mod {n = n - s} {m = step}, regroup)
]
  where
    regroup : n - s - step ≡ n - (s + step)
    regroup = omega arith

add_int_small : (s step : ℕ) → s + step < int_limit → add_int (pos s) step ≡ pos (s + step)
unfolding add_int
add_int_small s step h = ground arith

-- Without overflow the loop collects exactly the values from the start to the end that lie whole
-- steps away from the start.
pub has-range_values :
    (fuel s end_ step n : ℕ)
    → 0 < step
    → end_ + step < int_limit
    → end_ < fuel + s
    → has (range_values fuel (pos s) end_ step) n ≡ (leb s n && leb n end_ && ((n - s) % step == 0))
unfolding range_values
has-range_values zero s end_ step n p q f = ground arith
has-range_values (suc fuel) s end_ step n p q f = elim (Bool-cases (leb s end_)) [
  | inl inside ↦
      rw (add_int_small s step (ground arith))
        (ground (arith, has-range_values fuel (s + step) end_ step n, progression_step s n step p))
  | inr over ↦ ground arith
]

-- However the loop runs, also where a huge step wraps round, it collects no value above its end.
has-range_values-le :
    (fuel : ℕ) (v : ℤ) (end_ step n : ℕ) → has (range_values fuel v end_ step) n ≡ true → n ≤ end_
unfolding range_values
has-range_values-le zero v end_ step n h = cc
has-range_values-le (suc fuel) v end_ step n h =
    ground (arith, has-range_values-le fuel (add_int v step) end_ step n)

has-append : (vs ws : List ℤ) (n : ℕ) → has (vs ++ ws) n ≡ (has vs n || has ws n)
has-append [] ws n = refl
has-append (v ∷ vs) ws n = ground (arith, has-append vs ws n)

-- The values that Sunday's two spellings leave.
has-keys_sunday :
    (vs : List ℤ) (n : ℕ) → has (keys true vs) n ≡ true → (n ≢ 7) × ((n ≡ 0) ⊎ (has vs n ≡ true))
unfolding key
has-keys_sunday [] n h = cc
has-keys_sunday (v ∷ vs) n h = ground (arith, has-keys_sunday vs n)

has-keys_plain : (vs : List ℤ) (n : ℕ) → has (keys false vs) n ≡ has vs n
unfolding key
has-keys_plain [] n = refl
has-keys_plain (v ∷ vs) n = ground (arith, has-keys_plain vs n)

-- What a bound on a field's values says: no value lies above the maximum, and Sunday is 0, not 7.
abbrev InBounds : ℕ → Bool → ℕ → Type 0
InBounds maximum sunday_seven n = (n ≤ maximum) × (sunday_seven ≡ true → n ≢ 7)

range-InBounds :
    (fuel : ℕ) (v : ℤ) (end_ step maximum : ℕ) (sunday_seven : Bool) (n : ℕ)
    → end_ ≤ maximum
    → has (keys sunday_seven (range_values fuel v end_ step)) n ≡ true
    → InBounds maximum sunday_seven n
range-InBounds fuel v end_ step maximum true n le h = ground (
  arith,
  has-keys_sunday (range_values fuel v end_ step) n h,
  has-range_values-le fuel v end_ step n,
)
range-InBounds fuel v end_ step maximum false n le h = ground (
  arith,
  has-keys_plain (range_values fuel v end_ step) n,
  has-range_values-le fuel v end_ step n,
)

-- What a successful item is made of.
abbrev pub ItemOf : Text → ℕ → ℕ → Bool → List ℤ → Type 0
ItemOf item minimum maximum sunday_seven vs =
    (base : Text) × (step start end_ : ℕ) × (parse_step item ≡ parsed (base, step))
    × (parse_range base minimum maximum ≡ parsed (pos start, pos end_))
    × (minimum ≤ start)
    × (start ≤ end_)
    × (end_ ≤ maximum)
    × (vs ≡ keys sunday_seven (range_values range_fuel (pos start) end_ step))

check_range-parsed :
    (minimum maximum : ℕ) (start end_ : ℤ) {a b : ℕ}
    → check_range minimum maximum start end_ ≡ parsed (a, b)
    → (start ≡ pos a) × (end_ ≡ pos b) × (minimum ≤ a) × (a ≤ b) × (b ≤ maximum)
unfolding check_range
check_range-parsed minimum maximum (pos s) (pos e) h = ground arith
check_range-parsed minimum maximum (pos s) (negsuc e) h = ground arith
check_range-parsed minimum maximum (negsuc s) e h = ground arith

pub parse_item-ItemOf :
    (item : Text) (minimum maximum : ℕ) (sunday_seven : Bool) {vs : List ℤ}
    → parse_item item minimum maximum sunday_seven ≡ parsed vs
    → ItemOf item minimum maximum sunday_seven vs
unfolding parse_item
parse_item-ItemOf [] minimum maximum sunday_seven h = cc
parse_item-ItemOf (c ∷ s) minimum maximum sunday_seven h =
    let ((base, step), e1, h1) = bind-eq-parsed (parse_step (c ∷ s)) _ h in
    let ((first, last), e2, h2) = bind-eq-parsed (parse_range base minimum maximum) _ h1 in
    let ((start, end_), e3, h3) = bind-eq-parsed (check_range minimum maximum first last) _ h2 in
    let (es, ee, from, order, upto) = check_range-parsed minimum maximum first last e3 in
    (base, step, start, end_, e1, cc, from, order, upto, cc)

-- No field allows a value above its maximum, and no weekday is 7.
parse_item-InBounds :
    (item : Text) (maximum minimum : ℕ) (sunday_seven : Bool) (n : ℕ) {vs : List ℤ}
    → parse_item item minimum maximum sunday_seven ≡ parsed vs
    → has vs n ≡ true
    → InBounds maximum sunday_seven n
parse_item-InBounds item maximum minimum sunday_seven n h m =
    let (_, step, start, end_, _, _, _, _, upto, e) =
      parse_item-ItemOf item minimum maximum sunday_seven h in
    range-InBounds range_fuel (pos start) end_ step maximum sunday_seven n upto (rw e at m)

parse_items-InBounds :
    (items : List Text) (maximum minimum : ℕ) (sunday_seven : Bool) (n : ℕ) {vs : List ℤ}
    → parse_items items minimum maximum sunday_seven ≡ parsed vs
    → has vs n ≡ true
    → InBounds maximum sunday_seven n
unfolding parse_items
parse_items-InBounds [] maximum minimum sunday_seven n h m = ground arith
parse_items-InBounds (item ∷ items) maximum minimum sunday_seven n h m =
    let (vs, e1, h1) =
      bind-eq-parsed (parse_item (trim_space item) minimum maximum sunday_seven) _ h in
    let (ws, e2, h2) = bind-eq-parsed (parse_items items minimum maximum sunday_seven) _ h1 in
    ground (
      arith,
      has-append vs ws n,
      parse_item-InBounds (trim_space item) maximum minimum sunday_seven n e1,
      parse_items-InBounds items maximum minimum sunday_seven n e2,
    )

field_of-values :
    (raw : Text) (vs : List ℤ) {f : FieldSet} → field_of raw vs ≡ parsed f → f.values ≡ vs
unfolding field_of
field_of-values raw [] h = cc
field_of-values raw (v ∷ vs) h = ground arith

-- A parsed field allows no value above its maximum, and no 7 as a weekday.
pub parse_field-InBounds :
    (raw : Text) (minimum maximum : ℕ) (sunday_seven : Bool) {f : FieldSet}
    → parse_field raw minimum maximum sunday_seven ≡ parsed f
    → (n : ℕ) → has f.values n ≡ true
    → (n ≤ maximum) × (sunday_seven ≡ true → n ≢ 7)
unfolding parse_field
parse_field-InBounds raw minimum maximum sunday_seven h n m =
    elim (Bool-cases (text_eq (trim_space raw) [])) [
      | inl e ↦ absurd (ground arith)
      | inr e ↦
          let (vs, e1, h1) =
            bind-eq-parsed (parse_items (split (trim_space raw) b',') minimum maximum sunday_seven)
              (field_of (trim_space raw)) (rw e at h) in
          parse_items-InBounds (split (trim_space raw) b',') maximum minimum sunday_seven n e1
            (rw (field_of-values (trim_space raw) vs h1) at m)
    ]

parse_step-positive :
    (item base : Text) (step : ℕ) → parse_step item ≡ parsed (base, step) → 0 < step
unfolding parse_step
parse_step-positive item base step h = ground arith

-- A range or a single value, with a step, allows exactly the values from its start to its end
-- that lie whole steps away from the start, as long as the loop's counter cannot overflow.
pub parse_item_exact :
    (item base : Text) (minimum maximum step start end_ : ℕ) {vs : List ℤ}
    → maximum < range_fuel
    → end_ + step < int_limit
    → parse_step item ≡ parsed (base, step)
    → parse_range base minimum maximum ≡ parsed (pos start, pos end_)
    → parse_item item minimum maximum false ≡ parsed vs
    → (n : ℕ) → has vs n ≡ (leb start n && leb n end_ && ((n - start) % step == 0))
parse_item_exact item base minimum maximum step start end_ small fits stepped ranged h n =
    let (b, st, s, e, e1, e2, _, _, upto, v) = parse_item-ItemOf item minimum maximum false h in
    ground (
      arith,
      has-keys_plain (range_values range_fuel (pos start) end_ step) n,
      has-range_values range_fuel start end_ step n,
      parse_step-positive item base step,
    )
