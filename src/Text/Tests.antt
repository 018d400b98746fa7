-- ===== src/Text/Tests.antt =====
-- Slugs of given texts, and the theorem at one of them.
use himitsu.Prelude.{◌≤◌, ◌≡◌, refl, true, none, some, length}
use himitsu.Text.{
  codes, is_space, trim_start, keep_before, trim_end, trim, lower_unit, to_lower, is_slug_unit,
  is_slug_from, is_slug,
}
use himitsu.Text.Slug.{normalize_slug, normalize_slug_idempotent}

web_app : normalize_slug (codes " Web-App ") ≡ some (codes "web-app")
unfolding normalize_slug is_space trim_start keep_before trim_end trim lower_unit to_lower
    is_slug_unit is_slug_from is_slug
web_app = refl

no_double_hyphen : normalize_slug (codes "web--app") ≡ none
unfolding normalize_slug is_space trim_start keep_before trim_end trim lower_unit to_lower
    is_slug_unit is_slug_from is_slug
no_double_hyphen = refl

normalize_slug_idempotent_example :
    (is_slug (codes "web-app") ≡ true)
    × (length (codes "web-app") ≤ 80)
    × (normalize_slug (codes "web-app") ≡ some (codes "web-app"))
normalize_slug_idempotent_example =
    normalize_slug_idempotent (codes " Web-App ") (codes "web-app") web_app
