-- ===== src/Text/Fields.antt =====
-- What the name and the slug of a row may be after an update, in packages/environments/src/index.ts
-- and packages/projects/src/index.ts.
use himitsu.Prelude.{ℕ, ◌≡◌, ◌≤◌, true, Option, none, some, length}
use himitsu.Text.{Text, trim, to_lower, is_slug}

-- The name that was there, or the given one, trimmed, of 1 to `limit` units.
abbrev pub Renamed : ℕ → Option Text → Text → Text → Type 0
Renamed limit none before now = now ≡ before
Renamed limit (some name) before now = (now ≡ trim name) × (1 ≤ length now) × (length now ≤ limit)

-- The slug that was there, or the given one in lower case, trimmed, in the form of a slug.
abbrev pub Reslugged : Option Text → Text → Text → Type 0
Reslugged none before now = now ≡ before
Reslugged (some slug) before now =
    (now ≡ to_lower (trim slug)) × (is_slug now ≡ true) × (length now ≤ 80)
