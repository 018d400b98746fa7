-- ===== src/Projects/Tests.antt =====
-- The table of a small organization without projects, its defaults, and its tags.
use himitsu.Prelude.{◌≡◌, refl, some, [], ◌∷◌}
use himitsu.Text.{codes}
use himitsu.Errors.{ok}
use himitsu.Evaluation.{evaluation}
use himitsu.Projects.{normalize_project_slug, normalize_all, validate_default_environments}

defaults_are_normalised :
    validate_default_environments (some (codes " Dev" ∷ codes "prod" ∷ []))
    ≡ ok (codes "dev" ∷ codes "prod" ∷ [])
unfolding evaluation normalize_project_slug normalize_all validate_default_environments
defaults_are_normalised = refl
