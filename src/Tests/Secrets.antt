-- ===== src/Tests/Secrets.antt =====
-- Runs of the redaction in internal/security/security.go.
use my_wio.Base.{Bool, true, false, ◌≡◌, refl, ℤ, pos, negsuc}
use my_wio.Text.{has_prefix, contains_text, to_lower, codes}
use my_wio.Redaction.{
  is_count_value, is_secret_key, is_counter_key, Json, number, text, object, array, no_fields,
  field, item, no_items, redacted, redact_value,
}
use my_wio.Redaction.Clean.{is_clean, redact_value-is_clean}

abbrev is_count : ℤ → Bool
is_count (pos n) = true
is_count (negsuc n) = false

abbrev login : Json ℤ
login = object (
    field (codes "Api_Key") (text (codes "s3cret")) (
      field (codes "input_tokens") (number (pos 7)) (
        field (codes "output_tokens") (text (codes "s3cret")) (
          field (codes "args")
            (array (item (object (field (codes "password") (number (pos 1)) no_fields)) no_items))
            no_fields))))

redacts :
    redact_value is_count login
    ≡ object (
        field (codes "Api_Key") (text redacted) (
          field (codes "input_tokens") (number (pos 7)) (
            field (codes "output_tokens") (text redacted) (
              field
                (codes "args")
                (array
                  (item (object (field (codes "password") (text redacted) no_fields)) no_items))
                no_fields))))
unfolding redact_value is_counter_key to_lower is_secret_key is_count_value contains_text has_prefix
redacts = refl

redact_value-is_clean_example : is_clean is_count (redact_value is_count login) ≡ true
redact_value-is_clean_example = redact_value-is_clean is_count login
