-- ===== src/Projects/Changes/Defaults.antt =====
-- The default environments of a new project: their slugs, and the rows that the trigger inserts.
use himitsu.Prelude.{
  map, all, Option-cases, ℕ, suc, ◌+◌, ◌≤◌, ◌≡◌, refl, ap, sym, ◌∙◌, inl, inr, true, Option, none,
  or_else, List, [], ◌∷◌, length, count_where, arith,
}
use himitsu.Text.Slug.{normalize_slug, normalize_slug-some}
use himitsu.Text.{is_slug, to_lower, trim, Text, distinct_texts}
use himitsu.Errors.{Result, ok, err, Result-cases}
use himitsu.Exec.{bind-ok}
use himitsu.Database.{Database, EnvironmentRow}
use himitsu.Environments.{is_active_in, insert_environment}
use himitsu.Projects.{
  normalize_project_slug, validate_default_environments, default_slugs, normalize_all, cons_ok,
}
use himitsu.Projects.Changes.{environment_name, is_production, create_default_project_environments}

abbrev default_row : ℕ → (ℕ → ℕ) → ℕ → Text → EnvironmentRow
default_row project ids n slug = record {
  id = ids n;
  project_id = project;
  name = environment_name slug;
  slug = slug;
  display_order = n;
  protected = is_production slug;
  deleted_at = none;
  purge_after = none;
  deleted_by_project_at = none;
}

-- The rows with the default environments in front, the last one first.
abbrev pub with_defaults : ℕ → (ℕ → ℕ) → ℕ → List Text → List EnvironmentRow → List EnvironmentRow
with_defaults project ids n [] rows = rows
with_defaults project ids n (slug ∷ rest) rows =
    with_defaults project ids (suc n) rest (default_row project ids n slug ∷ rows)

pub insert_environment-ok :
    (row added : EnvironmentRow) (db db' : Database)
    → insert_environment row db ≡ (ok added, db')
    → db' ≡ record db { environments = row ∷ db.environments }
unfolding insert_environment
insert_environment-ok row added db db' h = ground arith

pub defaults_inserted :
    (project : ℕ) (ids : ℕ → ℕ) (n : ℕ) (slugs : List Text) (db db' : Database)
    → create_default_project_environments project ids n slugs db ≡ (ok tt, db')
    → db' ≡ record db { environments = with_defaults project ids n slugs db.environments }
unfolding create_default_project_environments
defaults_inserted project ids n [] db db' h = sym (ap (λ (r : Result (Unit {0}) × Database). r.1) h)
defaults_inserted project ids n (slug ∷ rest) db db' h =
    let (added, db1, first, others) =
      bind-ok (insert_environment (default_row project ids n slug))
        (λ _. create_default_project_environments project ids (suc n) rest) db db' tt h in
    let one = insert_environment-ok (default_row project ids n slug) added db db1 first in
    defaults_inserted project ids (suc n) rest db1 db' others
    ∙ ap
        (λ (b : Database). record b {
          environments = with_defaults project ids (suc n) rest b.environments;
        })
        one

pub count_with_defaults :
    (project : ℕ) (ids : ℕ → ℕ) (n : ℕ) (slugs : List Text) (rows : List EnvironmentRow)
    → count_where (is_active_in project) (with_defaults project ids n slugs rows)
      ≡ length slugs + count_where (is_active_in project) rows
count_with_defaults project ids n [] rows = omega arith
count_with_defaults project ids n (slug ∷ rest) rows =
    ground
      (arith, count_with_defaults project ids (suc n) rest (default_row project ids n slug ∷ rows))

cons_ok-length :
    (s : Result Text) (rest : Result (List Text)) (slugs : List Text)
    → cons_ok s rest ≡ ok slugs
    → (tail : List Text) × (rest ≡ ok tail) × (length slugs ≡ suc (length tail))
cons_ok-length (err e) rest slugs h = cc
cons_ok-length (ok s) (err e) slugs h = cc
cons_ok-length (ok s) (ok rest) slugs h = (rest, refl, ground arith)

length-normalize_all :
    (values slugs : List Text) → normalize_all values ≡ ok slugs → length slugs ≡ length values
unfolding normalize_all
length-normalize_all [] slugs h = ground arith
length-normalize_all (v ∷ values) slugs h =
    let (tail, same, longer) =
      cons_ok-length (normalize_project_slug v) (normalize_all values) slugs h in
    ground (arith, longer, length-normalize_all values tail same)

-- The slugs that `validateDefaultEnvironments` returns are 1 to 20, without repetition.
pub default_slugs_bounds :
    (values : Option (List Text)) (slugs : List Text)
    → validate_default_environments values ≡ ok slugs
    → (1 ≤ length slugs) × (length slugs ≤ 20) × (distinct_texts slugs ≡ true)
unfolding validate_default_environments
default_slugs_bounds values slugs h =
    elim (Result-cases (normalize_all (or_else values default_slugs))) [
      | inl (e, bad) ↦ ground arith
      | inr (all, good) ↦
          ground (arith, length-normalize_all (or_else values default_slugs) all good)
    ]

-- Default environments: the slugs of these values in their order, 1 to 20 and none of them twice.
abbrev pub AreDefaults : List Text → List Text → Type 0
AreDefaults values slugs =
    (slugs ≡ map (λ v. to_lower (trim v)) values)
    × (all is_slug slugs ≡ true)
    × (1 ≤ length slugs)
    × (length slugs ≤ 20)
    × (distinct_texts slugs ≡ true)

normalize_all-map :
    (values slugs : List Text)
    → normalize_all values ≡ ok slugs
    → (slugs ≡ map (λ v. to_lower (trim v)) values) × (all is_slug slugs ≡ true)
unfolding normalize_all normalize_project_slug
normalize_all-map [] slugs h = (ground (arith, h), ground (arith, h))
normalize_all-map (v ∷ rest) slugs h = elim (Option-cases (normalize_slug v)) [
  | inl bad ↦ ground (arith, bad, h)
  | inr (s, good) ↦ elim (Result-cases (normalize_all rest)) [
    | inl (e, bad) ↦ ground (arith, good, bad, h)
    | inr (ss, more) ↦
        let (same, formed) = normalize_all-map rest ss more in
        let (form, _, first) = normalize_slug-some v {t = s} good in
        let slugs_are : slugs ≡ s ∷ ss = ground (arith, good, more, h) in
        rw slugs_are (ground (arith, same, first), ground (arith, formed, form))
  ]
]

pub validate_default_environments-AreDefaults :
    (values : Option (List Text)) (slugs : List Text)
    → validate_default_environments values ≡ ok slugs
    → AreDefaults (or_else values default_slugs) slugs
unfolding validate_default_environments
validate_default_environments-AreDefaults values slugs h =
    let (low, high, once) = default_slugs_bounds values slugs h in
    let normal : normalize_all (or_else values default_slugs) ≡ ok slugs =
      elim (Result-cases (normalize_all (or_else values default_slugs))) [
        | inl (e, bad) ↦ ground (arith, bad, h)
        | inr (ss, good) ↦ ground (arith, good, h)
      ] in
    let (same, formed) = normalize_all-map (or_else values default_slugs) slugs normal in
    (same, formed, low, high, once)
