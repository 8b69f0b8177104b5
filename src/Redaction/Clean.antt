-- ===== src/Redaction/Clean.antt =====
-- What a redacted value still holds.
use my_wio.Base.{Bool, true, false, ◌&&◌, ◌||◌, not, ◌≡◌, refl, sym, ap, arith}
use my_wio.Text.{Text, text_eq}
use my_wio.Text.Laws.{text_eq-eq}
use my_wio.Redaction.{
  Json, null, boolean, number, text, array, object, Items, no_items, item, Fields, no_fields, field,
  is_secret_key, is_counter_key, redacted, is_count_value, redacted_field, redact_value,
  redact_items, redact_fields,
}

module _ {Number : Type 0} (is_count : Number → Bool) where
  unfoldable pub is_redacted : Json Number → Bool
  is_redacted (text t) = text_eq t redacted
  is_redacted _ = false

  -- A value under a secret key is a counter of a known name, or the mark.
  unfoldable pub is_allowed : Text → Json Number → Bool
  is_allowed key value =
      not (is_secret_key key)
      || (is_counter_key key && is_count_value is_count value)
      || is_redacted value

  -- No field at any depth holds a secret.
  unfoldable mutual
    pub is_clean : Json Number → Bool
    is_clean null = true
    is_clean (boolean b) = true
    is_clean (number n) = true
    is_clean (text t) = true
    is_clean (array items) = is_clean_items items
    is_clean (object fields) = is_clean_fields fields

    pub is_clean_items : Items Number → Bool
    is_clean_items no_items = true
    is_clean_items (item value items) = is_clean value && is_clean_items items

    pub is_clean_fields : Fields Number → Bool
    is_clean_fields no_fields = true
    is_clean_fields (field key value fields) =
        is_allowed key value && is_clean value && is_clean_fields fields

  count-is_clean :
      (value : Json Number) → is_count_value is_count value ≡ true → is_clean value ≡ true
  unfolding is_count_value is_clean
  count-is_clean (number n) h = refl
  count-is_clean null h = refl
  count-is_clean (boolean b) h = refl
  count-is_clean (text t) h = refl
  count-is_clean (array items) h = absurd (ground arith)
  count-is_clean (object inner) h = absurd (ground arith)

  field-is_clean :
      (key : Text) (value inner : Json Number)
      → is_clean inner ≡ true
      → (is_allowed key (redacted_field is_count key value inner)
          && is_clean (redacted_field is_count key value inner))
        ≡ true
  unfolding redacted_field is_allowed is_redacted is_clean
  field-is_clean key value inner h = ground (arith, count-is_clean value)

  mutual
    unfolding redact_value is_clean

    value-is_clean : (value : Json Number) → is_clean (redact_value is_count value) ≡ true
    value-is_clean null = refl
    value-is_clean (boolean b) = refl
    value-is_clean (number n) = refl
    value-is_clean (text t) = refl
    value-is_clean (array items) = items-is_clean items
    value-is_clean (object fields) = fields-is_clean fields

    items-is_clean : (items : Items Number) → is_clean_items (redact_items is_count items) ≡ true
    items-is_clean no_items = refl
    items-is_clean (item value items) = ground (arith, value-is_clean value, items-is_clean items)

    fields-is_clean :
        (fields : Fields Number) → is_clean_fields (redact_fields is_count fields) ≡ true
    fields-is_clean no_fields = refl
    fields-is_clean (field key value fields) = ground (
      arith,
      field-is_clean key value (redact_value is_count value) (value-is_clean value),
      fields-is_clean fields,
    )

  marked : (value : Json Number) → is_redacted value ≡ true → text redacted ≡ value
  unfolding is_redacted
  marked (text t) h = ap text (sym (text_eq-eq t redacted h))
  marked null h = absurd (ground arith)
  marked (boolean b) h = absurd (ground arith)
  marked (number n) h = absurd (ground arith)
  marked (array items) h = absurd (ground arith)
  marked (object inner) h = absurd (ground arith)

  allowed_field :
      (key : Text) (value inner : Json Number)
      → is_allowed key value ≡ true
      → inner ≡ value
      → redacted_field is_count key value inner ≡ value
  unfolding is_allowed redacted_field
  allowed_field key value inner a e = ground (arith, marked value)

  mutual
    unfolding redact_value is_clean

    value_kept : (value : Json Number) → is_clean value ≡ true → redact_value is_count value ≡ value
    value_kept null h = refl
    value_kept (boolean b) h = refl
    value_kept (number n) h = refl
    value_kept (text t) h = refl
    value_kept (array items) h = ap array (items_kept items h)
    value_kept (object inner) h = ap object (fields_kept inner h)

    items_kept :
        (items : Items Number) → is_clean_items items ≡ true → redact_items is_count items ≡ items
    items_kept no_items h = refl
    items_kept (item value items) h = ground (arith, value_kept value, items_kept items)

    fields_kept :
        (inner : Fields Number)
        → is_clean_fields inner ≡ true
        → redact_fields is_count inner ≡ inner
    fields_kept no_fields h = refl
    fields_kept (field key value rest) h = ground (
      arith,
      allowed_field key value (redact_value is_count value),
      value_kept value,
      fields_kept rest,
    )

  -- Redaction leaves no secret: at every depth, a field whose key names a secret holds the mark, or
  -- the number of one of the known counters.
  pub redact_value-is_clean : (value : Json Number) → is_clean (redact_value is_count value) ≡ true
  redact_value-is_clean value = value-is_clean value

  -- It changes nothing else: a value that holds no secret stays as it is, and a second redaction
  -- changes nothing.
  pub redact_value_again :
      (value : Json Number)
      → (is_clean value ≡ true → redact_value is_count value ≡ value)
        × (redact_value is_count (redact_value is_count value) ≡ redact_value is_count value)
  redact_value_again value =
      (value_kept value, value_kept (redact_value is_count value) (value-is_clean value))
