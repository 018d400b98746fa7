-- ===== src/Projects/Changes.antt =====
-- `create`, `update` and `setArchived` of packages/projects/src/index.ts, with the trigger
-- `create_default_project_environments` of packages/database/migrations/0008_environments.sql,
-- which fires on each new project.
pub mod Tagging
pub mod Defaults
pub mod Creation
pub mod Given
pub mod Settings
pub mod Update
mod Tests
use himitsu.Prelude.{
  ℕ, suc, ◌-◌, Bool, true, false, ◌&&◌, ◌||◌, not, Option, none, some, List, [], ◌∷◌, any,
  update_where, ◌==◌, or_else, if◌then◌else◌,
}
use himitsu.Text.{Text, text_eq, codes, between}
use himitsu.Authz.{project_create, project_update, project_archive}
use himitsu.Errors.{Result, ok, err, unique_violation, slug_exists}
use himitsu.Exec.{Exec, pure, query, write, ◌>>=◌, ◌>>◌, catch_unique, kept_or}
use himitsu.Audit.{project_created, project_updated, project_archived}
use himitsu.Audit.Metadata.{string, uuid, boolean, array, Items, nil, item, Fields, end, field}
use himitsu.Database.{Database, ProjectRow}
use himitsu.Tenant.{require, record_in_transaction}
use himitsu.Environments.{insert_environment}
use himitsu.Projects.{
  Project, failed, has_id, normalize_project_slug, project_name, project_description,
  validate_default_environments, event_of, replace_tags, get_by_id,
}

-- `initcap(replace(value, '-', ' '))`; `inside` holds behind a letter or digit.
pub initcap_from : Bool → Text → Text
initcap_from inside [] = []
initcap_from inside (c ∷ s) =
    let next_word = initcap_from false s in
    let word = initcap_from true s in
    if c == b'-' || c == b' '
    then b' ' ∷ next_word
    else if not inside && between b'a' b'z' c
    then (c - 32) ∷ word
    else c ∷ word

pub environment_name : Text → Text
unfolding initcap_from
environment_name slug = initcap_from false slug

pub is_production : Text → Bool
is_production slug = text_eq slug (codes "production") || text_eq slug (codes "prod")

-- The trigger's `INSERT INTO environments … WITH ORDINALITY`; `environment_id` numbers the UUIDs.
pub create_default_project_environments : ℕ → (ℕ → ℕ) → ℕ → List Text → Exec Database (Unit {0})
create_default_project_environments project_id environment_id display_order [] = pure tt
create_default_project_environments project_id environment_id display_order (slug ∷ rest) = do
  insert_environment (record {
    id = environment_id display_order;
    project_id = project_id;
    name = environment_name slug;
    slug = slug;
    display_order = display_order;
    protected = is_production slug;
    deleted_at = none;
    purge_after = none;
    deleted_by_project_at = none;
  })
  create_default_project_environments project_id environment_id (suc display_order) rest

-- `PRIMARY KEY (id)` and `UNIQUE (org_id, slug)`, which counts deleted rows too.
pub insert_project : ProjectRow → Exec Database (Unit {0})
insert_project row db =
    if any (λ (p : ProjectRow). p.id == row.id || text_eq p.slug row.slug) db.projects
    then (err unique_violation, db)
    else (ok tt, record db { projects = row ∷ db.projects })

abbrev pub with_settings : Text → Text → Option Text → List Text → ProjectRow → ProjectRow
with_settings name slug description default_environments p = record p {
  name = name;
  slug = slug;
  description = description;
  default_environments = some default_environments;
}

-- `UPDATE projects SET name, slug, description, settings WHERE id AND deleted_at IS NULL`.
pub update_project : ℕ → Text → Text → Option Text → List Text → Exec Database (Unit {0})
update_project project_id name slug description default_environments db =
    if any (has_id project_id false) db.projects
      && any (λ (p : ProjectRow). not (p.id == project_id) && text_eq p.slug slug) db.projects
    then (err unique_violation, db)
    else (
      ok tt,
      record db {
        projects =
            update_where (has_id project_id false)
              (with_settings name slug description default_environments) db.projects;
      },
    )

abbrev strings : List Text → Items
strings [] = nil
strings (s ∷ rest) = item (string s) (strings rest)

abbrev uuids : List ℕ → Items
uuids [] = nil
uuids (n ∷ rest) = item (uuid n) (uuids rest)

abbrev pub creation_summary : Project → Fields
creation_summary p = field (codes "name") (string p.name) (
    field (codes "slug") (string p.slug) (
      field (codes "defaultEnvironments") (array (strings p.default_environments))
        (field (codes "tagIds") (array (uuids p.tag_ids)) end)))

abbrev pub name_and_slug : Project → Fields
name_and_slug p = field (codes "name") (string p.name) (field (codes "slug") (string p.slug) end)

-- `if (input.tagIds !== undefined) await this.#replaceTags(…)`.
abbrev pub retag : ℕ → Option (List ℕ) → Exec Database (Unit {0})
retag project_id none = pure tt
retag project_id (some tag_ids) = replace_tags project_id tag_ids

abbrev pub archive : Bool → ℕ → ProjectRow → ProjectRow
archive archived now p = record p { archived_at = if archived then some now else none }

module _ (actor_user_id : ℕ) where
  -- The `try` block of `create`.
  pub insert_new :
      ℕ → (ℕ → ℕ) → Text → Text → Option Text → List Text → Option (List ℕ) → Exec Database Project
  insert_new project_id environment_id name slug description default_environments tag_ids = do
    valid_name ← query (λ _. project_name name)
    valid_slug ← query (λ _. normalize_project_slug slug)
    valid_description ← query (λ _. project_description description)
    insert_project (record {
      id = project_id;
      name = valid_name;
      slug = valid_slug;
      description = valid_description;
      default_environments = some default_environments;
      archived_at = none;
      deleted_at = none;
      purge_after = none;
    })
    create_default_project_environments project_id environment_id 0 default_environments
    replace_tags project_id (or_else tag_ids [])
    project ← get_by_id actor_user_id project_id true
    org_id ← query (λ db. ok db.org_id)
    record_in_transaction (
        event_of org_id actor_user_id project_created project_id none
          (some (creation_summary project)))
    pure project

  -- `project_id` and `environment_id` are the UUIDs that `gen_random_uuid()` gives the new rows.
  pub create :
      ℕ
      → (ℕ → ℕ)
      → Text
      → Text
      → Option Text
      → Option (List Text)
      → Option (List ℕ)
      → Exec Database Project
  create project_id environment_id name slug description default_environments tag_ids = do
    query (require actor_user_id none false project_create)
    environments ← query (λ _. validate_default_environments default_environments)
    catch_unique (failed slug_exists)
        (insert_new project_id environment_id name slug description environments tag_ids)

  -- The `try` block of `update`.
  pub write_settings :
      ℕ → Project → Text → Text → Option Text → List Text → Option (List ℕ) → Exec Database Project
  write_settings project_id before name slug description default_environments tag_ids = do
    update_project project_id name slug description default_environments
    retag project_id tag_ids
    after ← get_by_id actor_user_id project_id false
    org_id ← query (λ db. ok db.org_id)
    record_in_transaction (
        event_of org_id actor_user_id project_updated project_id (some (name_and_slug before))
          (some (name_and_slug after)))
    pure after

  -- A description is absent, null or a text.
  pub update :
      ℕ
      → Option Text
      → Option Text
      → Option (Option Text)
      → Option (List Text)
      → Option (List ℕ)
      → Exec Database Project
  update project_id name slug description default_environments tag_ids = do
    before ← get_by_id actor_user_id project_id false
    query (require actor_user_id (some project_id) false project_update)
    new_name ← query (λ _. kept_or project_name before.name name)
    new_slug ← query (λ _. kept_or normalize_project_slug before.slug slug)
    new_description ← query (λ _. kept_or project_description before.description description)
    environments ← query (λ _.
        kept_or (λ values. validate_default_environments (some values)) before.default_environments
          default_environments)
    catch_unique (failed slug_exists)
        (write_settings project_id before new_name new_slug new_description environments tag_ids)

  pub set_archived : ℕ → Bool → Exec Database Project
  set_archived project_id archived = do
    get_by_id actor_user_id project_id false
    query (require actor_user_id (some project_id) false project_archive)
    write (λ db. record db {
      projects =
          update_where (has_id project_id false) (archive archived db.transaction_now) db.projects;
    })
    project ← get_by_id actor_user_id project_id false
    org_id ← query (λ db. ok db.org_id)
    record_in_transaction (
        event_of org_id actor_user_id project_archived project_id none
          (some (field (codes "archived") (boolean archived) end)))
    pure project
