-- ===== src/Schedule/FieldErrors.antt =====
-- A cron field always has values.
use my_wio.Base.{
  ℕ, suc, ◌≤◌, ◌≡◌, ◌≢◌, refl, ◌∙◌, ap, Bool, List, [], ◌∷◌, ◌++◌, arith, inl, inr, pos, ℤ,
  Bool-cases,
}
use my_wio.Text.{Text, trim_space, split, text_eq, add_to_first}
use my_wio.Schedule.Field.{
  field_has_no_values, range_values, keys, parse_step, parse_range, check_range, parse_item,
  parse_items, field_of, parse_field, Parsed, parsed, invalid, ◌>>=◌, bind-eq-parsed, FieldError,
}
use my_wio.Schedule.FieldLaws.{parse_item-ItemOf}

add_to_first-ne-nil : (c : ℕ) (ts : List Text) → add_to_first c ts ≢ []
unfolding add_to_first
add_to_first-ne-nil c [] h = cc
add_to_first-ne-nil c (t ∷ ts) h = cc

split-ne-nil : (s : Text) (sep : ℕ) → split s sep ≢ []
unfolding split
split-ne-nil [] sep h = cc
split-ne-nil (c ∷ s) sep h = ground (arith, add_to_first-ne-nil c (split s sep))

keys-range-ne-nil :
    (sunday_seven : Bool) (fuel s end_ step : ℕ)
    → s ≤ end_
    → keys sunday_seven (range_values (suc fuel) (pos s) end_ step) ≢ []
unfolding range_values
keys-range-ne-nil sunday_seven fuel s end_ step h = ground arith

parse_item_values :
    (item : Text) (minimum maximum : ℕ) (sunday_seven : Bool)
    → parse_item item minimum maximum sunday_seven ≢ parsed []
parse_item_values item minimum maximum sunday_seven h =
    let (_, step, start, end_, _, _, _, order, _, e) =
      parse_item-ItemOf item minimum maximum sunday_seven h in
    keys-range-ne-nil sunday_seven 255 start end_ step order (cc)

parse_item_errors :
    (item : Text) (minimum maximum : ℕ) (sunday_seven : Bool)
    → parse_item item minimum maximum sunday_seven ≢ invalid field_has_no_values
unfolding parse_item parse_step parse_range check_range
parse_item_errors [] minimum maximum sunday_seven h = cc
parse_item_errors (c ∷ s) minimum maximum sunday_seven h = ground arith

parse_items_errors :
    (items : List Text) (minimum maximum : ℕ) (sunday_seven : Bool)
    → parse_items items minimum maximum sunday_seven ≢ invalid field_has_no_values
unfolding parse_items
parse_items_errors [] minimum maximum sunday_seven h = cc
parse_items_errors (item ∷ items) minimum maximum sunday_seven h = ground (
  arith,
  parse_item_errors (trim_space item) minimum maximum sunday_seven,
  parse_items_errors items minimum maximum sunday_seven,
)

append-eq-nil : (vs ws : List ℤ) → vs ++ ws ≡ [] → vs ≡ []
append-eq-nil [] ws h = refl
append-eq-nil (v ∷ vs) ws h = cc

parse_items_values :
    (items : List Text) (minimum maximum : ℕ) (sunday_seven : Bool)
    → items ≢ []
    → parse_items items minimum maximum sunday_seven ≢ parsed []
unfolding parse_items
parse_items_values [] minimum maximum sunday_seven ne h = ne refl
parse_items_values (item ∷ items) minimum maximum sunday_seven ne h =
    let (vs, e1, h1) =
      bind-eq-parsed (parse_item (trim_space item) minimum maximum sunday_seven) _ h in
    let (ws, e2, h2) = bind-eq-parsed (parse_items items minimum maximum sunday_seven) _ h1 in
    parse_item_values (trim_space item) minimum maximum sunday_seven
      (e1 ∙ ap parsed (append-eq-nil vs ws (cc)))

field_of_errors :
    (raw : Text) (vs : List ℤ) → field_of raw vs ≡ invalid field_has_no_values → vs ≡ []
unfolding field_of
field_of_errors raw [] h = refl
field_of_errors raw (v ∷ vs) h = cc

-- The check for a field without values can never fail: every list item yields a value.
pub parse_field-ne-field_has_no_values :
    (raw : Text) (minimum maximum : ℕ) (sunday_seven : Bool)
    → parse_field raw minimum maximum sunday_seven ≢ invalid field_has_no_values
unfolding parse_field
parse_field-ne-field_has_no_values raw minimum maximum sunday_seven h =
    elim (Bool-cases (text_eq (trim_space raw) [])) [
      | inl e ↦ ground arith
      | inr e ↦
          items_of (parse_items (split (trim_space raw) b',') minimum maximum sunday_seven) refl
            (rw e at h)
    ]
  where
    items_of :
        (r : Parsed FieldError (List ℤ))
        → parse_items (split (trim_space raw) b',') minimum maximum sunday_seven ≡ r
        → (r >>= field_of (trim_space raw)) ≡ invalid field_has_no_values
        → ⊥
    items_of (parsed vs) e h =
        parse_items_values (split (trim_space raw) b',') minimum maximum sunday_seven
          (split-ne-nil (trim_space raw) b',')
          (e ∙ ap parsed (field_of_errors (trim_space raw) vs h))
    items_of (invalid x) e h =
        parse_items_errors (split (trim_space raw) b',') minimum maximum sunday_seven (ground arith)
