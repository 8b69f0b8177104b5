-- ===== src/Schedule/Field.antt =====
-- internal/schedule/schedule.go, `parseField`: the set of values that one cron field allows.
use my_wio.Base.{
  ℕ, zero, suc, ◌+◌, ◌-◌, Bool, ◌&&◌, ◌||◌, none, some, List, [], ◌∷◌, ◌++◌, ltb, leb,
  if◌then◌else◌, any, ◌≡◌, refl, ℤ, pos, negsuc, pos_part, ltb_ℤ, leb_ℤ, eqb_ℤ,
}
use my_wio.Text.{Text, codes, trim_space, split, count_of, cut_at, atoi, text_eq, int_limit}

-- The errors of `parseField`, one for each message.
pub data FieldError : Type 0 where
  field_is_empty empty_list_item multiple_step_separators step_must_be_positive : FieldError
  multiple_range_separators range_start_is_invalid range_end_is_invalid : FieldError
  value_is_invalid field_has_no_values : FieldError
  range_is_outside : ℤ → ℤ → FieldError

pub data Parsed (E A : Type 0) : Type 0 where
  parsed : A → Parsed E A
  invalid : E → Parsed E A

infixl 5 ◌>>=◌
abbrev pub ◌>>=◌ : {E A B : Type 0} → Parsed E A → (A → Parsed E B) → Parsed E B
parsed a >>= f = f a
invalid e >>= f = invalid e

pub bind-eq-parsed :
    {E A B : Type 0} (m : Parsed E A) (f : A → Parsed E B) {b : B}
    → (m >>= f) ≡ parsed b
    → (a : A) × (m ≡ parsed a) × (f a ≡ parsed b)
bind-eq-parsed (parsed a) f h = (a, refl, h)
bind-eq-parsed (invalid e) f h = cc

-- The keys of `values`, a `map[int]bool` whose values are all true.
pub record FieldSet : Type 0 where
  pub values : List ℤ
  pub any_value : Bool

abbrev pub has : List ℤ → ℕ → Bool
has values n = any (λ v. eqb_ℤ v (pos n)) values

-- `value += step` on 64-bit integers, for a positive step.
unfoldable pub add_int : ℤ → ℕ → ℤ
add_int (pos m) n =
    if ltb (m + n) int_limit then pos (m + n) else negsuc (int_limit + int_limit - (m + n) - 1)
add_int (negsuc m) n = if leb n m then negsuc (m - n) else pos (n - m - 1)

-- `for value := start; value <= end; value += step`, on fuel.
unfoldable pub range_values : ℕ → ℤ → ℕ → ℕ → List ℤ
unfolding add_int
range_values zero value end_ step = []
range_values (suc fuel) value end_ step =
    let rest = range_values fuel (add_int value step) end_ step in
    if leb_ℤ value (pos end_) then value ∷ rest else []

-- The rounds of the loop: 60 values at most, and twice as many where a huge step wraps round.
abbrev pub range_fuel : ℕ
range_fuel = 256

-- Sunday is written 0 or 7.
unfoldable pub key : Bool → ℤ → ℤ
key sunday_seven value = if sunday_seven && eqb_ℤ value (pos 7) then pos 0 else value

abbrev pub keys : Bool → List ℤ → List ℤ
keys sunday_seven [] = []
keys sunday_seven (v ∷ vs) = key sunday_seven v ∷ keys sunday_seven vs

-- The text before the step, and the step.
unfoldable pub parse_step : Text → Parsed FieldError (Text × ℕ)
parse_step item =
    if ltb 1 (count_of item b'/')
    then invalid multiple_step_separators
    else elim (cut_at item b'/') [
      | none ↦ parsed (item, 1)
      | some (base, after) ↦ elim (atoi after) [
        | none ↦ invalid step_must_be_positive
        | some (negsuc _) ↦ invalid step_must_be_positive
        | some (pos zero) ↦ invalid step_must_be_positive
        | some (pos (suc n)) ↦ parsed (base, suc n)
      ]
    ]

unfoldable pub parse_number : Text → FieldError → Parsed FieldError ℤ
parse_number s e = elim (atoi s) [ none ↦ invalid e | some n ↦ parsed n ]

-- The first and the last value of the range.
unfoldable pub parse_range : Text → ℕ → ℕ → Parsed FieldError (ℤ × ℤ)
unfolding parse_number
parse_range base minimum maximum =
    if text_eq base (codes "*") || text_eq base (codes "?")
    then parsed (pos minimum, pos maximum)
    else if ltb 1 (count_of base b'-')
    then invalid multiple_range_separators
    else elim (cut_at base b'-') [
      | none ↦ parse_number base value_is_invalid >>= λ start. parsed (start, start)
      | some (before, after) ↦ parse_number before range_start_is_invalid >>= λ start.
          parse_number after range_end_is_invalid >>= λ end_. parsed (start, end_)
    ]

unfoldable pub check_range : ℕ → ℕ → ℤ → ℤ → Parsed FieldError (ℕ × ℕ)
check_range minimum maximum start end_ =
    if ltb_ℤ start (pos minimum) || ltb_ℤ (pos maximum) end_ || ltb_ℤ end_ start
    then invalid (range_is_outside start end_)
    else parsed (pos_part start, pos_part end_)

-- The body of the loop over the list's items.
unfoldable pub parse_item : Text → ℕ → ℕ → Bool → Parsed FieldError (List ℤ)
parse_item item minimum maximum sunday_seven = elim item [
  | [] ↦ invalid empty_list_item
  | c ∷ s ↦ parse_step (c ∷ s) >>= λ stepped. parse_range stepped.0 minimum maximum >>= λ range.
      check_range minimum maximum range.0 range.1 >>= λ bounds.
      parsed (keys sunday_seven (range_values range_fuel (pos bounds.0) bounds.1 stepped.1))
]

unfoldable pub parse_items : List Text → ℕ → ℕ → Bool → Parsed FieldError (List ℤ)
parse_items [] minimum maximum sunday_seven = parsed []
parse_items (item ∷ items) minimum maximum sunday_seven =
    parse_item (trim_space item) minimum maximum sunday_seven >>= λ values.
    parse_items items minimum maximum sunday_seven >>= λ rest. parsed (values ++ rest)

unfoldable pub field_of : Text → List ℤ → Parsed FieldError FieldSet
field_of raw [] = invalid field_has_no_values
field_of raw (v ∷ vs) =
    parsed
      (record { values = v ∷ vs; any_value = text_eq raw (codes "*") || text_eq raw (codes "?") })

unfoldable pub parse_field : Text → ℕ → ℕ → Bool → Parsed FieldError FieldSet
parse_field untrimmed minimum maximum sunday_seven =
    let raw = trim_space untrimmed in
    if text_eq raw []
    then invalid field_is_empty
    else parse_items (split raw b',') minimum maximum sunday_seven >>= field_of raw
