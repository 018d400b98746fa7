-- ===== src/Environments/Creation.antt =====
-- What `create` of packages/environments/src/index.ts guarantees.
use himitsu.Prelude.{
  ℕ, ◌+◌, ◌<◌, ◌≤◌, ◌≡◌, ◌≢◌, refl, ap, inl, inr, Bool, true, false, Option, none, some, List, [],
  ◌∷◌, ◌++◌, any, All, count_where, length, or_else, ◌==◌, if◌then◌else◌, arith,
}
use himitsu.Text.{Text, text_eq_iff, trim, to_lower, is_slug}
use himitsu.Text.Slug.{normalize_slug-some}
use himitsu.Authz.{environment_create}
use himitsu.Tenant.{require, logged}
use himitsu.Tenant.Recording.{recorded}
use himitsu.Errors.{ok, slug_exists, Result-cases}
use himitsu.Exec.{Exec, catch_unique, catch_unique-eq-ok}
use himitsu.Audit.{AuditEvent, ResourceType, environment_created}
use himitsu.Database.{Database, EnvironmentRow}
use himitsu.Environments.{
  Environment, failed, from_row, is_active_in, max_environments, normalize_environment_slug,
  validate_environment_name, require_active_project, next_display_order, insert_environment,
  event_of, summary, insert_new, create,
}
use himitsu.Environments.Invariant.{clashes, IsWellFormed}

module _ (actor id project : ℕ) (name slug : Text) (protected : Option Bool) where
  abbrev new_row : Database → Text → Text → EnvironmentRow
  new_row db valid_name valid_slug = record {
    id = id;
    project_id = project;
    name = valid_name;
    slug = valid_slug;
    display_order = next_display_order project db.environments;
    protected = or_else protected false;
    deleted_at = none;
    purge_after = none;
    deleted_by_project_at = none;
  }

  abbrev creation_event : Database → EnvironmentRow → AuditEvent
  creation_event db row =
      event_of db.org_id actor environment_created ResourceType.environment id project (some id)
        none (some (summary row))

  abbrev with_row : Database → EnvironmentRow → Database
  with_row db row = record db { environments = row ∷ db.environments }

  record Created (db db' : Database) (result : Environment) : Type 0 where
    valid_name : Text
    valid_slug : Text
    named : validate_environment_name name ≡ ok valid_name
    slugged : normalize_environment_slug slug ≡ ok valid_slug
    open_project : require_active_project project db ≡ ok tt
    permitted : require actor (some project) (or_else protected false) environment_create db ≡ ok tt
    room : count_where (is_active_in project) db.environments < max_environments
    free : any (clashes (new_row db valid_name valid_slug)) db.environments ≡ false
    tables :
        db'
        ≡ logged
            (creation_event db (new_row db valid_name valid_slug))
            (with_row db (new_row db valid_name valid_slug))
    returned : result ≡ from_row db.org_id (new_row db valid_name valid_slug)

  abbrev attempt : Exec Database Environment
  attempt = insert_new actor id project name slug (or_else protected false)

  create-attempt :
      (db db' : Database) (result : Environment)
      → create actor id project name slug protected db ≡ (ok result, db')
      → (require_active_project project db ≡ ok tt)
        × (require actor (some project) (or_else protected false) environment_create db ≡ ok tt)
        × (count_where (is_active_in project) db.environments < max_environments)
        × (catch_unique (failed slug_exists) attempt db ≡ (ok result, db'))
  unfolding create
  create-attempt db db' result h = (ground arith, ground arith, ground arith, ground arith)

  attempt_valid :
      (db db' : Database) (result : Environment)
      → attempt db ≡ (ok result, db')
      → (n s : Text) × (validate_environment_name name ≡ ok n)
        × (normalize_environment_slug slug ≡ ok s)
  unfolding insert_new
  attempt_valid db db' result h = elim (Result-cases (validate_environment_name name)) [
    | inl (e, bad) ↦ ground arith
    | inr (n, named) ↦ elim (Result-cases (normalize_environment_slug slug)) [
      | inl (e, bad) ↦ ground arith
      | inr (s, slugged) ↦ (n, s, named, slugged)
    ]
  ]

  attempt-ok :
      (db db' : Database) (result : Environment) (n s : Text)
      → validate_environment_name name ≡ ok n
      → normalize_environment_slug slug ≡ ok s
      → attempt db ≡ (ok result, db')
      → (any (clashes (new_row db n s)) db.environments ≡ false)
        × (db' ≡ logged (creation_event db (new_row db n s)) (with_row db (new_row db n s)))
        × (result ≡ from_row db.org_id (new_row db n s))
  unfolding insert_new insert_environment
  attempt-ok db db' result n s named slugged h =
      let logging = recorded (creation_event db (new_row db n s)) (with_row db (new_row db n s)) in
      (ground arith, ground (arith, logging), ground (arith, logging))

next_order_above :
    (project bound : ℕ) (rows : List EnvironmentRow)
    → next_display_order project rows ≤ bound
    → All (λ (e : EnvironmentRow). is_active_in project e ≡ true → e.display_order < bound) rows
unfolding next_display_order
next_order_above project bound [] h = tt
next_order_above project bound (e ∷ rest) h =
    (λ active. ground arith, next_order_above project bound rest (ground arith))

slug_unused :
    (row : EnvironmentRow) (rows : List EnvironmentRow)
    → any (clashes row) rows ≡ false
    → All (λ (e : EnvironmentRow). e.project_id ≡ row.project_id → e.slug ≢ row.slug) rows
slug_unused row [] h = tt
slug_unused row (e ∷ rest) h =
    (λ same equal. ground (arith, text_eq_iff e.slug row.slug), slug_unused row rest (ground arith))

pub name_bounds :
    (name n : Text)
    → validate_environment_name name ≡ ok n
    → (n ≡ trim name) × (1 ≤ length n) × (length n ≤ 80)
unfolding validate_environment_name
name_bounds name n h = ground arith

pub slug_form :
    (slug s : Text)
    → normalize_environment_slug slug ≡ ok s
    → (s ≡ to_lower (trim slug)) × (is_slug s ≡ true) × (length s ≤ 80)
unfolding normalize_environment_slug
slug_form slug s h = ground (arith, normalize_slug-some slug {t = s})

module _ (actor id project : ℕ) (name slug : Text) (protected : Option Bool) where
  -- A creation that returns adds one active environment to its project, which then has 50 at most,
  -- and none to any other. The new environment comes behind all active ones of the project in
  -- display order, has a trimmed name of 1 to 80 characters and a slug in normal form of at most 80,
  -- which no row of the project has, deleted rows included; the table constraints still hold, and
  -- one event is appended.
  pub create_effect :
      (db db' : Database) (result : Environment)
      → IsWellFormed db.environments
      → create actor id project name slug protected db ≡ (ok result, db')
      → IsWellFormed db'.environments
        × ((p : ℕ)
            → count_where (is_active_in p) db'.environments
              ≡ count_where (is_active_in p) db.environments + (if project == p then 1 else 0))
        × (count_where (is_active_in project) db'.environments ≤ max_environments)
        × All
            (λ (e : EnvironmentRow).
              is_active_in project e ≡ true → e.display_order < result.display_order)
            db.environments
        × ((result.name ≡ trim name) × (1 ≤ length result.name) × (length result.name ≤ 80))
        × ((result.slug ≡ to_lower (trim slug))
            × (is_slug result.slug ≡ true)
            × (length result.slug ≤ 80))
        × All
            (λ (e : EnvironmentRow). e.project_id ≡ project → e.slug ≢ result.slug)
            db.environments
        × ((event : AuditEvent) × (db'.audit_events ≡ db.audit_events ++ event ∷ []))
  unfolding from_row
  create_effect db db' result well h =
      let (_, _, room, tried) =
        create-attempt actor id project name slug protected db db' result h in
      let done =
        catch_unique-eq-ok (failed slug_exists) (attempt actor id project name slug protected) db
          db' result tried in
      let (n, s, named, slugged) =
        attempt_valid actor id project name slug protected db db' result done in
      let (free, tables, returned) =
        attempt-ok actor id project name slug protected db db' result n s named slugged done in
      let row = new_row actor id project name slug protected db n s in
      (
        rw tables (record { keyed = (free, well.keyed); dated = (λ _. (refl, refl), well.dated) }),
        λ p. rw tables (ground arith),
        rw tables (ground arith),
        rw returned (next_order_above project _ db.environments (omega arith)),
        rw returned (name_bounds name n named),
        rw returned (slug_form slug s slugged),
        rw returned (slug_unused row db.environments free),
        (
          creation_event actor id project name slug protected db row,
          ap (λ (b : Database). b.audit_events) tables,
        ),
      )
