-- ===== src/Text/Slug.antt =====
-- Normalising a slug, `slug.trim().toLowerCase()` with the test on its form and length, as
-- normalizeProjectSlug, normalizeEnvironmentSlug and normalizeOrganizationSlug do it.
use himitsu.Prelude.{
  ℕ, ◌≡◌, ◌≤◌, refl, Bool, true, false, ◌||◌, not, Option, none, some, [], ◌∷◌, ltb, length, ◌==◌,
  if◌then◌else◌, arith,
}
use himitsu.Text.{
  Text, is_space, trim_start, keep_before, trim_end, trim, lower_unit, to_lower, is_slug_unit,
  is_slug_from, is_slug,
}

-- `none` where the code throws INVALID_INPUT.
unfoldable pub normalize_slug : Text → Option Text
normalize_slug slug =
    let normalized = to_lower (trim slug) in
    if not (is_slug normalized) || ltb 80 (length normalized) then none else some normalized

-- A letter, digit or hyphen is no white space, and is its own lower case.
slug_unit_fixed :
    (c : ℕ) → is_slug_unit c || c == b'-' ≡ true → (is_space c ≡ false) × (lower_unit c ≡ c)
unfolding is_slug_unit is_space lower_unit
slug_unit_fixed c h = ground arith

abbrev AllSlugUnits : Text → Type 0
AllSlugUnits [] = Unit
AllSlugUnits (c ∷ s) = (is_slug_unit c || c == b'-' ≡ true) × AllSlugUnits s

is_slug_from-AllSlugUnits :
    (inside : Bool) (s : Text) → is_slug_from inside s ≡ true → AllSlugUnits s
unfolding is_slug_from
is_slug_from-AllSlugUnits inside [] h = tt
is_slug_from-AllSlugUnits inside (c ∷ s) h =
    ground (arith, is_slug_from-AllSlugUnits true s, is_slug_from-AllSlugUnits false s)

trim_end_fixed : (s : Text) → AllSlugUnits s → trim_end s ≡ s
unfolding trim_end keep_before
trim_end_fixed [] h = refl
trim_end_fixed (c ∷ []) (u, h) = rw (slug_unit_fixed c u).0
trim_end_fixed (c ∷ d ∷ s) (u, h) = rw (trim_end_fixed (d ∷ s) h)

trim_fixed : (s : Text) → AllSlugUnits s → trim s ≡ s
unfolding trim trim_start
trim_fixed [] h = trim_end_fixed [] tt
trim_fixed (c ∷ s) (u, h) = rw (slug_unit_fixed c u).0 (trim_end_fixed (c ∷ s) (u, h))

to_lower_fixed : (s : Text) → AllSlugUnits s → to_lower s ≡ s
unfolding to_lower
to_lower_fixed [] h = refl
to_lower_fixed (c ∷ s) (u, h) = rw ((slug_unit_fixed c u).1, to_lower_fixed s h)

pub normalize_slug-some :
    (s : Text) {t : Text}
    → normalize_slug s ≡ some t
    → (is_slug t ≡ true) × (length t ≤ 80) × (t ≡ to_lower (trim s))
unfolding normalize_slug
normalize_slug-some s h = ground arith

-- A normalised slug has the form of a slug, at most 80 characters, and is unchanged by
-- normalising it again.
pub normalize_slug_idempotent :
    (s t : Text)
    → normalize_slug s ≡ some t
    → (is_slug t ≡ true) × (length t ≤ 80) × (normalize_slug t ≡ some t)
unfolding normalize_slug is_slug
normalize_slug_idempotent s t h =
    let (form, short, _) = normalize_slug-some s h in
    let units = is_slug_from-AllSlugUnits false t form in
    (form, short, rw (trim_fixed t units, to_lower_fixed t units) (ground arith))
