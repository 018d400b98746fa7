-- ===== src/Projects/Changes/Creation.antt =====
-- What `create` of packages/projects/src/index.ts guarantees.
use himitsu.Prelude.{
  ℕ, ◌+◌, ◌≤◌, ◌≡◌, refl, ap, sym, ◌∙◌, Bool, true, false, ◌||◌, Option, none, some, or_else, List,
  [], ◌∷◌, ◌++◌, any, length, count_where, ◌==◌, arith,
}
use himitsu.Text.{Text, distinct_texts, text_eq, trim, to_lower, is_slug}
use himitsu.Text.Slug.{normalize_slug-some}
use himitsu.Errors.{Result, ok, slug_exists}
use himitsu.Exec.{query, ◌>>=◌, ◌>>◌, catch_unique-eq-ok, bind-ok, query-ok, pure}
use himitsu.Audit.{AuditEvent, project_created}
use himitsu.Database.{Database, ProjectRow, ProjectTagRow}
use himitsu.Authz.{project_read, project_create}
use himitsu.Tenant.{require, record_in_transaction, logged}
use himitsu.Tenant.Recording.{recorded}
use himitsu.Environments.{is_active_in}
use himitsu.Projects.{
  Project, failed, normalize_project_slug, project_name, project_description,
  validate_default_environments, replace_tags, get_by_id, find_project, event_of,
}
use himitsu.Projects.Changes.{
  create_default_project_environments, insert_project, insert_new, create, creation_summary,
}
use himitsu.Projects.Changes.Tagging.{replace_tags_effect}
use himitsu.Projects.Changes.Defaults.{
  with_defaults, defaults_inserted, count_with_defaults, default_slugs_bounds,
}

free_slug :
    (id : ℕ) (slug : Text) (rows : List ProjectRow)
    → any (λ (p : ProjectRow). p.id == id || text_eq p.slug slug) rows ≡ false
    → any (λ (p : ProjectRow). text_eq p.slug slug) rows ≡ false
free_slug id slug [] h = refl
free_slug id slug (p ∷ rest) h = ground (arith, free_slug id slug rest)

insert_project-ok :
    (row : ProjectRow) (db db' : Database)
    → insert_project row db ≡ (ok tt, db')
    → (any (λ (p : ProjectRow). text_eq p.slug row.slug) db.projects ≡ false)
      × (db' ≡ record db { projects = row ∷ db.projects })
unfolding insert_project
insert_project-ok row db db' h =
    (free_slug row.id row.slug db.projects (ground arith), ground arith)

pub view_reads :
    (actor id : ℕ) (deleted : Bool) (db db' : Database) (p : Project)
    → get_by_id actor id deleted db ≡ (ok p, db')
    → db' ≡ db
unfolding get_by_id
view_reads actor id deleted db db' p h =
    let (row, found, h1) = query-ok (find_project id deleted) _ db db' p h in
    let (_, readable, h2) =
      query-ok (require actor (some row.id) false project_read) _ db db' p h1 in
    sym (ap (λ (r : Result Project × Database). r.1) h2)

module _ (actor id : ℕ) (ids : ℕ → ℕ) (name slug : Text) (description : Option Text)
    (tags : Option (List ℕ)) where
  abbrev new_project : Text → Text → Option Text → List Text → ProjectRow
  new_project n s d slugs = record {
    id = id;
    name = n;
    slug = s;
    description = d;
    default_environments = some slugs;
    archived_at = none;
    deleted_at = none;
    purge_after = none;
  }

  abbrev creation_event : ℕ → Project → AuditEvent
  creation_event org_id p =
      event_of org_id actor project_created id none (some (creation_summary p))

  creation_logged :
      (db db' : Database) (p result : Project)
      → (query (λ b. ok b.org_id) >>= λ org_id.
            record_in_transaction (creation_event org_id p) >> pure p)
          db
        ≡ (ok result, db')
      → (db' ≡ logged (creation_event db.org_id p) db) × (result ≡ p)
  creation_logged db db' p result h =
      let logging = recorded (creation_event db.org_id p) db in
      (ground (arith, logging), ground (arith, logging))

  with_new : Database → ProjectRow → List Text → List ProjectTagRow → AuditEvent → Database
  with_new db row slugs tagged event = record db {
    projects = row ∷ db.projects;
    environments = with_defaults id ids 0 slugs db.environments;
    project_tags = tagged;
    audit_events = db.audit_events ++ event ∷ [];
  }

  tables_of :
      (row : ProjectRow) (slugs : List Text) (event : AuditEvent)
      (db db4 db5 db6 db7 db' : Database)
      → db4 ≡ record db { projects = row ∷ db.projects }
      → db5 ≡ record db4 { environments = with_defaults id ids 0 slugs db4.environments }
      → db6 ≡ record db5 { project_tags = db6.project_tags }
      → db7 ≡ db6
      → db' ≡ logged event db7
      → db' ≡ with_new db row slugs db6.project_tags event
  unfolding with_new
  tables_of row slugs event db db4 db5 db6 db7 db' e4 e5 e6 e7 e8 =
      e8
      ∙ ap (logged event) (e7 ∙ e6)
      ∙ ap (λ (b : Database). logged event (record b { project_tags = db6.project_tags })) e5
      ∙ ap
          (λ (b : Database). logged event (record b {
            environments = with_defaults id ids 0 slugs b.environments;
            project_tags = db6.project_tags;
          }))
          e4

  -- The tables of a creation that returns.
  record Created (slugs : List Text) (db db' : Database) (result : Project) : Type 0 where
    valid_name : Text
    valid_slug : Text
    valid_description : Option Text
    named : project_name name ≡ ok valid_name
    slugged : normalize_project_slug slug ≡ ok valid_slug
    unused : any (λ (p : ProjectRow). text_eq p.slug valid_slug) db.projects ≡ false
    tagged : List ProjectTagRow
    event : AuditEvent
    tables :
        db'
        ≡ with_new db (new_project valid_name valid_slug valid_description slugs) slugs tagged event

  insert_new-ok :
      (slugs : List Text) (db db' : Database) (result : Project)
      → insert_new actor id ids name slug description slugs tags db ≡ (ok result, db')
      → Created slugs db db' result
  unfolding insert_new
  insert_new-ok slugs db db' result h =
      let (n, named, h1) = query-ok (λ _. project_name name) _ db db' result h in
      let (s, slugged, h2) = query-ok (λ _. normalize_project_slug slug) _ db db' result h1 in
      let (d, _, h3) = query-ok (λ _. project_description description) _ db db' result h2 in
      let (_, db4, inserted, h4) =
        bind-ok (insert_project (new_project n s d slugs)) _ db db' result h3 in
      let (_, db5, defaults, h5) =
        bind-ok (create_default_project_environments id ids 0 slugs) _ db4 db' result h4 in
      let (_, db6, retagged, h6) =
        bind-ok (replace_tags id (or_else tags [])) _ db5 db' result h5 in
      let (p, db7, viewed, h7) = bind-ok (get_by_id actor id true) _ db6 db' result h6 in
      let (unused, projects) = insert_project-ok (new_project n s d slugs) db db4 inserted in
      let (_, _, _, _, _, tag_table) = replace_tags_effect id (or_else tags []) db5 db6 retagged in
      record {
        valid_name = n;
        valid_slug = s;
        valid_description = d;
        named = named;
        slugged = slugged;
        unused = unused;
        tagged = db6.project_tags;
        event = creation_event db7.org_id p;
        tables =
            tables_of (new_project n s d slugs) slugs (creation_event db7.org_id p) db db4 db5 db6
              db7 db' projects (defaults_inserted id ids 0 slugs db4 db5 defaults) tag_table
              (view_reads actor id true db6 db7 p viewed) ((creation_logged db7 db' p result h7).0);
      }

pub name_bounds :
    (name n : Text) → project_name name ≡ ok n → (n ≡ trim name) × (1 ≤ length n) × (length n ≤ 120)
unfolding project_name
name_bounds name n h = ground arith

pub slug_form :
    (slug s : Text)
    → normalize_project_slug slug ≡ ok s
    → (s ≡ to_lower (trim slug)) × (is_slug s ≡ true) × (length s ≤ 80)
unfolding normalize_project_slug
slug_form slug s h = ground (arith, normalize_slug-some slug {t = s})

-- A creation of a project that returns adds one project, whose name is trimmed and has 1 to 120
-- characters, whose slug is in normal form with 80 at most, and whose slug no row had, deleted rows
-- included; it adds the default environments in the order of their slugs, 1 to 20 without
-- repetition, numbered from 0 and protected exactly where the slug is that of production; and it
-- appends one event.
pub create_project_effect :
    (actor id : ℕ) (ids : ℕ → ℕ) (name slug : Text) (description : Option Text)
    (defaults : Option (List Text)) (tags : Option (List ℕ)) (db db' : Database) (result : Project)
    → create actor id ids name slug description defaults tags db ≡ (ok result, db')
    → (row : ProjectRow) × (slugs : List Text) × (event : AuditEvent) × (db'.projects
        ≡ row ∷ db.projects)
      × ((row.name ≡ trim name) × (1 ≤ length row.name) × (length row.name ≤ 120))
      × ((row.slug ≡ to_lower (trim slug)) × (is_slug row.slug ≡ true) × (length row.slug ≤ 80))
      × (any (λ (p : ProjectRow). text_eq p.slug row.slug) db.projects ≡ false)
      × (validate_default_environments defaults ≡ ok slugs)
      × ((1 ≤ length slugs) × (length slugs ≤ 20) × (distinct_texts slugs ≡ true))
      × (db'.environments ≡ with_defaults id ids 0 slugs db.environments)
      × (count_where (is_active_in id) db'.environments
          ≡ length slugs + count_where (is_active_in id) db.environments)
      × (db'.audit_events ≡ db.audit_events ++ event ∷ [])
unfolding create with_new
create_project_effect actor id ids name slug description defaults tags db db' result h =
    let (_, permitted, h1) = query-ok (require actor none false project_create) _ db db' result h in
    let (slugs, valid, tried) =
      query-ok (λ _. validate_default_environments defaults) _ db db' result h1 in
    let attempt = insert_new actor id ids name slug description slugs tags in
    let done = catch_unique-eq-ok (failed slug_exists) attempt db db' result tried in
    let c = insert_new-ok actor id ids name slug description tags slugs db db' result done in
    let rows = ap (λ (b : Database). b.environments) c.tables in
    (
      new_project actor id ids name slug description tags c.valid_name c.valid_slug
          c.valid_description slugs,
      slugs,
      c.event,
      ap (λ (b : Database). b.projects) c.tables,
      name_bounds name c.valid_name c.named,
      slug_form slug c.valid_slug c.slugged,
      c.unused,
      valid,
      default_slugs_bounds defaults slugs valid,
      rows,
      rw rows (count_with_defaults id ids 0 slugs db.environments),
      ap (λ (b : Database). b.audit_events) c.tables,
    )
