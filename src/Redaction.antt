-- ===== src/Redaction.antt =====
-- internal/security/security.go: how secrets are taken out of JSON before it is recorded or published.
pub mod Clean
use my_wio.Base.{
  ℕ, Bool, true, false, ◌&&◌, ◌||◌, not, Option, none, some, List, [], ◌∷◌, map, any, if◌then◌else◌,
}
use my_wio.Text.{Text, codes, to_lower, text_eq, contains_text}

-- A decoded JSON value, over the numbers that the decoder gives. A Go map has no order; its fields
-- are a list here, and no statement depends on their order.
mutual
  pub data Json (Number : Type 0) : Type 0 where
    null : Json Number
    boolean : Bool → Json Number
    number : Number → Json Number
    text : Text → Json Number
    array : Items Number → Json Number
    object : Fields Number → Json Number

  pub data Items (Number : Type 0) : Type 0 where
    no_items : Items Number
    item : Json Number → Items Number → Items Number

  pub data Fields (Number : Type 0) : Type 0 where
    no_fields : Fields Number
    field : Text → Json Number → Fields Number → Fields Number

-- `secretKeys`.
unfoldable pub secret_keys : List Text
secret_keys =
    codes "token"
    ∷ codes "secret"
    ∷ codes "password"
    ∷ codes "authorization"
    ∷ codes "private_key"
    ∷ codes "api_key"
    ∷ []

unfoldable pub is_secret_key : Text → Bool
unfolding secret_keys
is_secret_key key = any (λ needle. contains_text (map to_lower key) needle) secret_keys

-- The keys of the known counters.
unfoldable pub is_counter_key : Text → Bool
is_counter_key key =
    let lower = map to_lower key in
    text_eq lower (codes "input_tokens")
    || text_eq lower (codes "output_tokens")
    || text_eq lower (codes "total_tokens")
    || text_eq lower (codes "cached_tokens")
    || text_eq lower (codes "cache_creation_input_tokens")
    || text_eq lower (codes "cache_read_input_tokens")

abbrev pub redacted : Text
redacted = codes "[REDACTED]"

-- `is_count` is the test for a number that is not negative and has no fraction.
module _ {Number : Type 0} (is_count : Number → Bool) where
  unfoldable pub is_count_value : Json Number → Bool
  is_count_value (number n) = is_count n
  is_count_value _ = false

  -- What becomes of a field, given its redacted value.
  unfoldable pub redacted_field : Text → Json Number → Json Number → Json Number
  redacted_field key value inner =
      if is_counter_key key && is_count_value value
      then value
      else if is_secret_key key
      then text redacted
      else inner

  -- `redactValue`.
  unfoldable mutual
    unfolding redacted_field

    pub redact_value : Json Number → Json Number
    redact_value null = null
    redact_value (boolean b) = boolean b
    redact_value (number n) = number n
    redact_value (text t) = text t
    redact_value (array items) = array (redact_items items)
    redact_value (object fields) = object (redact_fields fields)

    pub redact_items : Items Number → Items Number
    redact_items no_items = no_items
    redact_items (item value items) = item (redact_value value) (redact_items items)

    pub redact_fields : Fields Number → Fields Number
    redact_fields no_fields = no_fields
    redact_fields (field key value fields) =
        field key (redacted_field key value (redact_value value)) (redact_fields fields)

  -- `RedactJSON`: what cannot be decoded, or not be encoded again, is returned as it is.
  unfoldable pub redact_json :
      (Text → Option (Json Number)) → (Json Number → Option Text) → Text → Text
  redact_json decode encode raw = elim (decode raw) [
    | none ↦ raw
    | some value ↦ elim (encode (redact_value value)) [ none ↦ raw | some out ↦ out ]
  ]
