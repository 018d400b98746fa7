-- ===== src/Projects.antt =====
-- ProjectService of packages/projects/src/index.ts, over the tables: its validation, its reads and
-- its tags. The writes stand in `Changes` and `Deletion`. The rows of `list` and the tags of a
-- project come in the order of the table: the code orders them by lower-cased name, under the
-- database's collation.
pub mod Changes
pub mod Deletion
mod Tests
use himitsu.Prelude.{
  ℕ, ◌+◌, Bool, false, ◌&&◌, ◌||◌, not, Option, none, some, List, [], ◌∷◌, ◌++◌, map, filter, find,
  all, length, elem, ltb, leb, ◌==◌, or_else, is_none, sort_by, if◌then◌else◌,
}
use himitsu.Text.{Text, text_eq, trim, codes, distinct_texts}
use himitsu.Text.Slug.{normalize_slug}
use himitsu.Authz.{project_read}
use himitsu.Errors.{
  Error, ProjectErrorCode, invalid_input, not_found, tag_not_found, Result, ok, err,
}
use himitsu.Exec.{Exec, query, write, guard, ◌>>=◌, ◌>>◌, required}
use himitsu.Audit.{AuditEvent, AuditAction, AuditActor, ResourceId, ResourceType}
use himitsu.Audit.Metadata.{Fields}
use himitsu.Database.{Database, ProjectRow, EnvironmentRow, ProjectTagRow}
use himitsu.Tenant.{require}
use himitsu.Environments.{is_active_in, display_before}

pub record ProjectEnvironmentSummary : Type 0 where
  pub id : ℕ
  pub name : Text
  pub slug : Text
  pub protected : Bool

pub record Project : Type 0 where
  pub id : ℕ
  pub org_id : ℕ
  pub name : Text
  pub slug : Text
  pub description : Option Text
  pub default_environments : List Text
  pub tag_ids : List ℕ
  pub environments : List ProjectEnvironmentSummary
  pub archived_at : Option ℕ
  pub deleted_at : Option ℕ
  pub purge_after : Option ℕ

abbrev pub failed : ProjectErrorCode → Error
failed code = Error.project code

-- `normalizeProjectSlug`.
pub normalize_project_slug : Text → Result Text
normalize_project_slug slug = required (normalize_slug slug) (failed invalid_input)

-- `projectName`.
pub project_name : Text → Result Text
project_name name =
    let normalized = trim name in
    if ltb (length normalized) 1 || ltb 120 (length normalized)
    then err (failed invalid_input)
    else ok normalized

-- `projectDescription`; `none` stands for null and undefined.
pub project_description : Option Text → Result (Option Text)
project_description none = ok none
project_description (some description) =
    let normalized = trim description in
    if length normalized == 0
    then ok none
    else if ltb 4000 (length normalized)
    then err (failed invalid_input)
    else ok (some normalized)

abbrev cons_ok : Result Text → Result (List Text) → Result (List Text)
cons_ok (err e) rest = err e
cons_ok (ok s) (err e) = err e
cons_ok (ok s) (ok rest) = ok (s ∷ rest)

-- `environments.map(normalizeProjectSlug)`.
pub normalize_all : List Text → Result (List Text)
normalize_all [] = ok []
normalize_all (s ∷ rest) = cons_ok (normalize_project_slug s) (normalize_all rest)

abbrev pub default_slugs : List Text
default_slugs = codes "development" ∷ codes "staging" ∷ codes "production" ∷ []

abbrev unique_slugs : Result (List Text) → Result (List Text)
unique_slugs (err e) = err e
unique_slugs (ok slugs) = if distinct_texts slugs then ok slugs else err (failed invalid_input)

-- `validateDefaultEnvironments`.
pub validate_default_environments : Option (List Text) → Result (List Text)
unfolding normalize_all
validate_default_environments values =
    let environments = or_else values default_slugs in
    let normalized = unique_slugs (normalize_all environments) in
    if ltb (length environments) 1 || ltb 20 (length environments)
    then err (failed invalid_input)
    else normalized

pub tag_ids_of : ℕ → List ProjectTagRow → List ℕ
tag_ids_of project_id [] = []
tag_ids_of project_id (t ∷ rest) =
    let others = tag_ids_of project_id rest in
    if t.project_id == project_id then t.tag_id ∷ others else others

pub summary_of : EnvironmentRow → ProjectEnvironmentSummary
summary_of e = record { id = e.id; name = e.name; slug = e.slug; protected = e.protected }

abbrev view : Database → ProjectRow → Result (List Text) → Result Project
view db row (err e) = err e
view db row (ok default_environments) = ok (record {
  id = row.id;
  org_id = db.org_id;
  name = row.name;
  slug = row.slug;
  description = row.description;
  default_environments = default_environments;
  tag_ids = tag_ids_of row.id db.project_tags;
  environments =
      map summary_of (sort_by display_before (filter (is_active_in row.id) db.environments));
  archived_at = row.archived_at;
  deleted_at = row.deleted_at;
  purge_after = row.purge_after;
})

-- `fromRow`, with the joins of `projectSelect`: it validates the stored default environments anew.
pub from_row : Database → ProjectRow → Result Project
from_row db row = view db row (validate_default_environments row.default_environments)

abbrev pub has_id : ℕ → Bool → ProjectRow → Bool
has_id project_id include_deleted p =
    p.id == project_id && (include_deleted || is_none p.deleted_at)

abbrev pub has_slug : Text → Bool → ProjectRow → Bool
has_slug slug include_deleted p = text_eq p.slug slug && (include_deleted || is_none p.deleted_at)

unfoldable pub find_project : ℕ → Bool → Database → Result ProjectRow
find_project project_id include_deleted db =
    required (find (has_id project_id include_deleted) db.projects) (failed not_found)

abbrev all_views : Database → List ProjectRow → Result (List Project)
all_views db [] = ok []
all_views db (row ∷ rest) = cons_view (from_row db row) (all_views db rest)
  where
    cons_view : Result Project → Result (List Project) → Result (List Project)
    cons_view (err e) rest = err e
    cons_view (ok p) (err e) = err e
    cons_view (ok p) (ok rest) = ok (p ∷ rest)

abbrev pub event_of : ℕ → ℕ → AuditAction → ℕ → Option Fields → Option Fields → AuditEvent
event_of org_id actor action project_id before after = record {
  org_id = org_id;
  actor = AuditActor.user actor;
  action = action;
  resource_type = ResourceType.project;
  resource_id = some (ResourceId.uuid project_id);
  project_id = some project_id;
  environment_id = none;
  before = before;
  after = after;
  details = none;
}

-- `[...new Set(tagIds)]`: first occurrences, in order.
abbrev pub unique : List ℕ → List ℕ
unique [] = []
unique (t ∷ rest) = t ∷ filter (λ x. not (x == t)) (unique rest)

abbrev pub tag_rows : ℕ → List ℕ → List ProjectTagRow
tag_rows project_id ids = map (λ t. record { project_id = project_id; tag_id = t }) ids

-- `#replaceTags`.
pub replace_tags : ℕ → List ℕ → Exec Database (Unit {0})
replace_tags project_id tag_ids = do
  guard (leb (length (unique tag_ids)) 50) (failed invalid_input)
  query (λ db.
      if all (λ t. elem t db.tags) (unique tag_ids) then ok tt else err (failed tag_not_found))
  write (λ db. record db {
    project_tags =
        tag_rows project_id (unique tag_ids)
        ++ filter (λ (t : ProjectTagRow). not (t.project_id == project_id)) db.project_tags;
  })

module _ (actor_user_id : ℕ) where
  -- `#getById` and `getById`.
  pub get_by_id : ℕ → Bool → Exec Database Project
  get_by_id project_id include_deleted = do
    row ← query (find_project project_id include_deleted)
    query (require actor_user_id (some row.id) false project_read)
    query (λ db. from_row db row)

  pub get_by_slug : Text → Bool → Exec Database Project
  get_by_slug slug include_deleted = do
    normalized ← query (λ _. normalize_project_slug slug)
    row ←
        query (λ db.
          required (find (has_slug normalized include_deleted) db.projects) (failed not_found))
    query (require actor_user_id (some row.id) false project_read)
    query (λ db. from_row db row)

  pub list : Exec Database (List Project)
  list = do
    query (require actor_user_id none false project_read)
    query (λ db. all_views db (filter (λ (p : ProjectRow). is_none p.deleted_at) db.projects))
