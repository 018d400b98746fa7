-- ===== src/Projects/Changes/Given.antt =====
-- What an update of a project in packages/projects/src/index.ts does with each of its fields.
use himitsu.Prelude.{
  ◌≤◌, length, or_else, if◌then◌else◌, ◌≡◌, sym, Option, none, some, List, ◌==◌, arith,
}
use himitsu.Text.Fields.{Renamed, Reslugged}
use himitsu.Text.{trim, Text}
use himitsu.Errors.{ok}
use himitsu.Exec.{kept_or}
use himitsu.Projects.{
  default_slugs, normalize_project_slug, project_name, project_description,
  validate_default_environments,
}
use himitsu.Projects.Changes.Creation.{name_bounds, slug_form}
use himitsu.Projects.Changes.Defaults.{AreDefaults, validate_default_environments-AreDefaults}

pub name_kept :
    (given : Option Text) (before n : Text)
    → kept_or project_name before given ≡ ok n
    → Renamed 120 given before n
name_kept none before n h = ground arith
name_kept (some t) before n h = name_bounds t n h

pub slug_kept :
    (given : Option Text) (before s : Text)
    → kept_or normalize_project_slug before given ≡ ok s
    → Reslugged given before s
slug_kept none before s h = ground arith
slug_kept (some t) before s h = slug_form t s h

-- The description that was there, or none for null and for blanks, or the given one, trimmed.
abbrev pub Redescribed : Option (Option Text) → Option Text → Option Text → Type 0
Redescribed none before now = now ≡ before
Redescribed (some none) before now = now ≡ none
Redescribed (some (some t)) before now =
    (now ≡ (if length (trim t) == 0 then none else some (trim t))) × (length (trim t) ≤ 4000)

pub description_kept :
    (given : Option (Option Text)) (before d : Option Text)
    → kept_or project_description before given ≡ ok d
    → Redescribed given before d
unfolding project_description
description_kept none before d h = ground arith
description_kept (some none) before d h = ground arith
description_kept (some (some t)) before d h = (ground arith, ground arith)

pub defaults_kept :
    (given stored : Option (List Text)) (before slugs : List Text)
    → validate_default_environments stored ≡ ok before
    → kept_or (λ values. validate_default_environments (some values)) before given ≡ ok slugs
    → AreDefaults (or_else given (or_else stored default_slugs)) slugs
defaults_kept none stored before slugs shown h =
    let same : before ≡ slugs = ground (arith, h) in
    rw (sym same) (validate_default_environments-AreDefaults stored before shown)
defaults_kept (some values) stored before slugs shown h =
    validate_default_environments-AreDefaults (some values) slugs h
