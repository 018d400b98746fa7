-- ===== src/Audit/Metadata/Tests.antt =====
-- The metadata validator at given values, and the theorem at one of them.
use himitsu.Prelude.{◌≤◌, ◌≡◌, refl, true, false}
use himitsu.Text.{codes}
use himitsu.Audit.Metadata.{
  Value, string, number, object, end, field, is_forbidden_key, is_forbidden_from, forbidden_words,
  starts_with_word, validate_metadata, validate_items, validate_fields,
}
use himitsu.Audit.Metadata.Safety.{
  here, in_object, first_field, later_field, IsClean, validate_metadata_deep,
}

abbrev inner : Value
inner = object (field (codes "slug") (string (codes "web")) end)

abbrev outer : Value
outer = object (field (codes "count") (number 2) (field (codes "after") inner end))

outer_is_valid : validate_metadata outer 0 ≡ true
unfolding validate_metadata validate_items validate_fields is_forbidden_key is_forbidden_from
    forbidden_words starts_with_word
outer_is_valid = refl

a_secret_value_is_not :
    validate_metadata (object (field (codes "secret_value") inner end)) 0 ≡ false
unfolding validate_metadata validate_items validate_fields is_forbidden_key is_forbidden_from
    forbidden_words starts_with_word
a_secret_value_is_not = refl

validate_metadata_deep_example : (1 ≤ 8) × IsClean inner
validate_metadata_deep_example =
    validate_metadata_deep outer inner 1 outer_is_valid (in_object (later_field (first_field here)))
