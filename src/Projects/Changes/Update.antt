-- ===== src/Projects/Changes/Update.antt =====
-- What `update` of packages/projects/src/index.ts guarantees.
use himitsu.Prelude.{
  or_else, filter, ℕ, ◌≡◌, ap, sym, ◌∙◌, false, not, Option, some, List, [], ◌∷◌, ◌++◌, any, find,
  count_of_find,
}
use himitsu.Text.Fields.{Renamed, Reslugged}
use himitsu.Text.{Text}
use himitsu.Authz.{project_update}
use himitsu.Errors.{ok, slug_exists}
use himitsu.Exec.{kept_or, catch_unique-eq-ok, bind-ok, query-ok}
use himitsu.Audit.{AuditEvent}
use himitsu.Database.{Database, ProjectRow}
use himitsu.Tenant.{require}
use himitsu.Projects.{
  default_slugs, Project, failed, has_id, normalize_project_slug, project_name, project_description,
  validate_default_environments, get_by_id,
}
use himitsu.Projects.Changes.{write_settings, update}
use himitsu.Projects.Changes.Creation.{view_reads}
use himitsu.Projects.Changes.Defaults.{AreDefaults}
use himitsu.Projects.Changes.Given.{
  Redescribed, name_kept, slug_kept, description_kept, defaults_kept,
}
use himitsu.Projects.Changes.Settings.{
  Retagged, slug_of_another, read_row, viewed_fields, write_settings-ok, row_found,
}

module _ (actor id : ℕ) where
  update-steps :
      (name slug : Option Text) (description : Option (Option Text))
      (environments : Option (List Text)) (tags : Option (List ℕ)) (db db' : Database)
      (result : Project)
      → update actor id name slug description environments tags db ≡ (ok result, db')
      → (before : Project) × (n : Text) × (s : Text) × (d : Option Text) × (slugs : List Text)
        × (get_by_id actor id false db ≡ (ok before, db))
        × (require actor (some id) false project_update db ≡ ok tt)
        × (kept_or project_name before.name name ≡ ok n)
        × (kept_or normalize_project_slug before.slug slug ≡ ok s)
        × (kept_or project_description before.description description ≡ ok d)
        × (kept_or
              (λ values. validate_default_environments (some values))
              before.default_environments
              environments
            ≡ ok slugs)
        × (write_settings actor id before n s d slugs tags db ≡ (ok result, db'))
  unfolding update
  update-steps name slug description environments tags db db' result h =
      let (before, db1, read, h1) = bind-ok (get_by_id actor id false) _ db db' result h in
      let same = view_reads actor id false db db1 before read in
      let (_, permitted, h2) =
        query-ok (require actor (some id) false project_update) _ db db' result (rw same at h1) in
      let (n, named, h3) =
        query-ok (λ _. kept_or project_name before.name name) _ db db' result h2 in
      let (s, slugged, h4) =
        query-ok (λ _. kept_or normalize_project_slug before.slug slug) _ db db' result h3 in
      let (d, described, h5) =
        query-ok (λ _. kept_or project_description before.description description) _ db db' result
          h4 in
      let (slugs, defaults, tried) =
        query-ok
          (λ _.
            kept_or (λ values. validate_default_environments (some values))
              before.default_environments environments)
          _ db db' result h5 in
      (
        before,
        n,
        s,
        d,
        slugs,
        read ∙ ap (λ (b : Database). (ok before, b)) same,
        permitted,
        named,
        slugged,
        described,
        defaults,
        catch_unique-eq-ok (failed slug_exists) (write_settings actor id before n s d slugs tags) db
            db' result tried,
      )

  settled :
      (name slug : Option Text) (description : Option (Option Text))
      (environments : Option (List Text)) (tags : Option (List ℕ)) (db db' : Database)
      (result before : Project) (row : ProjectRow) (n s : Text) (d : Option Text)
      (slugs : List Text)
      → get_by_id actor id false db ≡ (ok before, db)
      → find (has_id id false) db.projects ≡ some row
      → kept_or project_name before.name name ≡ ok n
      → kept_or normalize_project_slug before.slug slug ≡ ok s
      → kept_or project_description before.description description ≡ ok d
      → kept_or
          (λ values. validate_default_environments (some values))
          before.default_environments
          environments
        ≡ ok slugs
      → write_settings actor id before n s d slugs tags db ≡ (ok result, db')
      → (event : AuditEvent) × Renamed 120 name row.name result.name
        × Reslugged slug row.slug result.slug
        × Redescribed description row.description result.description
        × AreDefaults (or_else environments (or_else row.default_environments default_slugs)) slugs
        × (any (slug_of_another id result.slug) db.projects ≡ false)
        × (find (has_id id false) db'.projects
            ≡ some (record row {
              name = result.name;
              slug = result.slug;
              description = result.description;
              default_environments = some slugs;
            }))
        × (filter (λ (p : ProjectRow). not (has_id id false p)) db'.projects
            ≡ filter (λ (p : ProjectRow). not (has_id id false p)) db.projects)
        × Retagged id tags db.project_tags db'.project_tags
        × (db' ≡ record db {
          projects = db'.projects;
          project_tags = db'.project_tags;
          audit_events = db.audit_events ++ event ∷ [];
        })
  settled name slug description environments tags db db' result before row n s d slugs read found
        named slugged described defaults done =
      let there =
        count_of_find (has_id id false) (has_id id false) (λ x t. t) db.projects row found in
      let (free, retagged, shown, (event, tables)) =
        write_settings-ok actor id before result n s d slugs tags db db' there done in
      let (new_name, new_slug, new_description) = shown row found in
      let (old_name, old_slug, old_description, stored) =
        viewed_fields actor id row db before found read in
      let rows = ap (λ (b : Database). b.projects) tables in
      let (changed, others) =
        row_found actor id row db.projects db'.projects result n s d slugs found rows new_name
          new_slug new_description in
      (
        event,
        rw (new_name, sym old_name) (name_kept name before.name n named),
        rw (new_slug, sym old_slug) (slug_kept slug before.slug s slugged),
        rw (new_description, sym old_description)
            (description_kept description before.description d described),
        defaults_kept environments row.default_environments before.default_environments slugs stored
            defaults,
        rw new_slug free,
        changed,
        others,
        retagged,
        tables
            ∙ ap
                (λ (r : List ProjectRow). record db {
                  projects = r;
                  project_tags = db'.project_tags;
                  audit_events = db.audit_events ++ event ∷ [];
                })
                (sym rows),
      )

  -- An update of a project that returns comes from an actor who may update it. The active row of the
  -- id is found with the name, slug and description that were given, or else with what it had: the
  -- name trimmed with 1 to 120 characters, the slug in normal form with 80 at most, the description
  -- trimmed with 4000 at most and none if it is null or blank. Its default environments are the
  -- slugs of those given, or else of those stored, or else of the standard three: 1 to 20, none of
  -- them twice. Nothing else of the row changes, and no other row does; no other row, deleted ones
  -- included, has the new slug. Tags that were given are those of the project, each once, and the
  -- tags of other projects stay. No other table changes but the audit log, by one event.
  pub update_project_effect :
      (name slug : Option Text) (description : Option (Option Text))
      (environments : Option (List Text)) (tags : Option (List ℕ)) (db db' : Database)
      (result : Project)
      → update actor id name slug description environments tags db ≡ (ok result, db')
      → (row : ProjectRow) × (slugs : List Text) × (event : AuditEvent) × (find
            (has_id id false)
            db.projects
          ≡ some row)
        × (require actor (some id) false project_update db ≡ ok tt)
        × Renamed 120 name row.name result.name
        × Reslugged slug row.slug result.slug
        × Redescribed description row.description result.description
        × AreDefaults (or_else environments (or_else row.default_environments default_slugs)) slugs
        × (any (slug_of_another id result.slug) db.projects ≡ false)
        × (find (has_id id false) db'.projects
            ≡ some (record row {
              name = result.name;
              slug = result.slug;
              description = result.description;
              default_environments = some slugs;
            }))
        × (filter (λ (p : ProjectRow). not (has_id id false p)) db'.projects
            ≡ filter (λ (p : ProjectRow). not (has_id id false p)) db.projects)
        × Retagged id tags db.project_tags db'.project_tags
        × (db' ≡ record db {
          projects = db'.projects;
          project_tags = db'.project_tags;
          audit_events = db.audit_events ++ event ∷ [];
        })
  update_project_effect name slug description environments tags db db' result h =
      let (before, n, s, d, slugs, read, permitted, named, slugged, described, defaults, done) =
        update-steps name slug description environments tags db db' result h in
      let (row, found) = read_row actor id db db before read in
      let (
        event, new_name, new_slug, new_description, new_defaults, free, changed, others, retagged,
        tables,
      ) =
        settled name slug description environments tags db db' result before row n s d slugs read
          found named slugged described defaults done in
      (
        row, slugs, event, found, permitted, new_name, new_slug, new_description, new_defaults,
        free, changed, others, retagged, tables,
      )
