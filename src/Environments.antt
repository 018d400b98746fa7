-- ===== src/Environments.antt =====
-- EnvironmentService of packages/environments/src/index.ts, over the tables. A table
-- is a list in no particular order.
pub mod Changes
pub mod Deletion
pub mod Invariant
pub mod Creation
mod Tests
use himitsu.Prelude.{
  ℕ, ◌+◌, ◌*◌, Bool, false, ◌&&◌, ◌||◌, Option, none, some, List, [], ◌∷◌, map, filter, find, any,
  length, count_where, ltb, leb, ◌==◌, max, or_else, is_none, sort_by, if◌then◌else◌,
}
use himitsu.Text.{Text, text_eq, trim, codes}
use himitsu.Text.Slug.{normalize_slug}
use himitsu.Authz.{environment_read, environment_create}
use himitsu.Errors.{
  Error, unique_violation, EnvironmentErrorCode, invalid_input, slug_exists, not_found, Result, ok,
  err,
}
use himitsu.Exec.{Exec, pure, query, ◌>>=◌, ◌>>◌, required, catch_unique}
use himitsu.Audit.{
  AuditEvent, AuditAction, AuditActor, ResourceId, ResourceType, environment_created,
}
use himitsu.Audit.Metadata.{boolean, string, uuid, Fields, end, field}
use himitsu.Database.{Database, ProjectRow, EnvironmentRow}
use himitsu.Tenant.{require, record_in_transaction}

pub record Environment : Type 0 where
  pub id : ℕ
  pub org_id : ℕ
  pub project_id : ℕ
  pub name : Text
  pub slug : Text
  pub display_order : ℕ
  pub protected : Bool
  pub deleted_at : Option ℕ
  pub purge_after : Option ℕ

abbrev pub failed : EnvironmentErrorCode → Error
failed code = Error.environment code

abbrev pub max_environments : ℕ
max_environments = 50

pub from_row : ℕ → EnvironmentRow → Environment
from_row org_id row = record {
  id = row.id;
  org_id = org_id;
  project_id = row.project_id;
  name = row.name;
  slug = row.slug;
  display_order = row.display_order;
  protected = row.protected;
  deleted_at = row.deleted_at;
  purge_after = row.purge_after;
}

-- `normalizeEnvironmentSlug`.
pub normalize_environment_slug : Text → Result Text
normalize_environment_slug slug = required (normalize_slug slug) (failed invalid_input)

-- `validateEnvironmentName`.
pub validate_environment_name : Text → Result Text
validate_environment_name name =
    let normalized = trim name in
    if ltb (length normalized) 1 || ltb 80 (length normalized)
    then err (failed invalid_input)
    else ok normalized

-- The recovery window of the service's constructor, in milliseconds.
pub recovery_ms : ℕ → Result ℕ
recovery_ms recovery_days =
    if ltb recovery_days 1 || ltb 365 recovery_days
    then err (failed invalid_input)
    else ok (recovery_days * 24 * 60 * 60 * 1000)

abbrev pub is_active_in : ℕ → EnvironmentRow → Bool
is_active_in project_id e = e.project_id == project_id && is_none e.deleted_at

-- `WHERE id = $1` with, unless deleted rows are included, `AND deleted_at IS NULL`.
abbrev pub has_id : ℕ → Bool → EnvironmentRow → Bool
has_id environment_id include_deleted e =
    e.id == environment_id && (include_deleted || is_none e.deleted_at)

pub find_environment : ℕ → Bool → Database → Result EnvironmentRow
find_environment environment_id include_deleted db =
    required (find (has_id environment_id include_deleted) db.environments) (failed not_found)

-- `#requireActiveProject`.
pub require_active_project : ℕ → Database → Result (Unit {0})
require_active_project project_id db =
    if count_where (λ (p : ProjectRow). p.id == project_id && is_none p.deleted_at) db.projects == 1
    then ok tt
    else err (failed not_found)

-- `ORDER BY display_order, id`.
abbrev pub display_before : EnvironmentRow → EnvironmentRow → Bool
display_before a b =
    ltb a.display_order b.display_order || (a.display_order == b.display_order && leb a.id b.id)

pub active_environments : ℕ → Database → List Environment
active_environments project_id db =
    map (from_row db.org_id)
      (sort_by display_before (filter (is_active_in project_id) db.environments))

abbrev pub event_of :
    ℕ
    → ℕ
    → AuditAction
    → ResourceType
    → ℕ
    → ℕ
    → Option ℕ
    → Option Fields
    → Option Fields
    → AuditEvent
event_of org_id actor action type id project environment before after = record {
  org_id = org_id;
  actor = AuditActor.user actor;
  action = action;
  resource_type = type;
  resource_id = some (ResourceId.uuid id);
  project_id = some project;
  environment_id = environment;
  before = before;
  after = after;
  details = none;
}

abbrev pub summary : EnvironmentRow → Fields
summary e =
    field (codes "name") (string e.name)
      (field (codes "slug") (string e.slug) (field (codes "protected") (boolean e.protected) end))

-- `COALESCE(max(display_order) + 1, 0)` over the active environments of the project.
pub next_display_order : ℕ → List EnvironmentRow → ℕ
next_display_order project_id [] = 0
next_display_order project_id (e ∷ rest) =
    let others = next_display_order project_id rest in
    if is_active_in project_id e then max (e.display_order + 1) others else others

-- The keys of the table: `PRIMARY KEY (id)` and `UNIQUE (org_id, project_id, slug)`, which counts
-- deleted rows too.
abbrev pub same_slot : ℕ → Text → EnvironmentRow → Bool
same_slot project_id slug e = e.project_id == project_id && text_eq e.slug slug

unfoldable pub insert_environment : EnvironmentRow → Exec Database EnvironmentRow
insert_environment row db =
    if any (λ (e : EnvironmentRow). e.id == row.id || same_slot row.project_id row.slug e)
      db.environments
    then (err unique_violation, db)
    else (ok row, record db { environments = row ∷ db.environments })

module _ (actor_user_id : ℕ) where
  -- `#get`.
  pub get_row : ℕ → Bool → Exec Database EnvironmentRow
  get_row environment_id include_deleted = do
    row ← query (find_environment environment_id include_deleted)
    query (require actor_user_id (some row.project_id) false environment_read)
    pure row

  pub get : ℕ → Bool → Exec Database Environment
  get environment_id include_deleted = do
    row ← get_row environment_id include_deleted
    query (λ db. ok (from_row db.org_id row))

  pub list : ℕ → Exec Database (List Environment)
  list project_id = do
    query (require_active_project project_id)
    query (require actor_user_id (some project_id) false environment_read)
    query (λ db. ok (active_environments project_id db))

  -- The `try` block of `create`.
  pub insert_new : ℕ → ℕ → Text → Text → Bool → Exec Database Environment
  insert_new environment_id project_id name slug protected = do
    valid_name ← query (λ _. validate_environment_name name)
    valid_slug ← query (λ _. normalize_environment_slug slug)
    order ← query (λ db. ok (next_display_order project_id db.environments))
    row ← insert_environment (record {
      id = environment_id;
      project_id = project_id;
      name = valid_name;
      slug = valid_slug;
      display_order = order;
      protected = protected;
      deleted_at = none;
      purge_after = none;
      deleted_by_project_at = none;
    })
    org_id ← query (λ db. ok db.org_id)
    record_in_transaction (
        event_of org_id actor_user_id environment_created ResourceType.environment row.id project_id
          (some row.id) none (some (summary row)))
    pure (from_row org_id row)

  -- `environment_id` is the UUID that `gen_random_uuid()` gives the new row.
  pub create : ℕ → ℕ → Text → Text → Option Bool → Exec Database Environment
  create environment_id project_id name slug protected = do
    query (require_active_project project_id)
    query (require actor_user_id (some project_id) (or_else protected false) environment_create)
    query (λ db.
        if leb max_environments (count_where (is_active_in project_id) db.environments)
        then err (failed invalid_input)
        else ok tt)
    catch_unique (failed slug_exists)
        (insert_new environment_id project_id name slug (or_else protected false))
