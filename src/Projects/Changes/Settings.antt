-- ===== src/Projects/Changes/Settings.antt =====
-- What the statements of `update` of packages/projects/src/index.ts write.
use himitsu.Prelude.{
  ◌≢◌, refl, elem, distinct, filter, find-update_where, filter-update_where, ℕ, ◌≡◌, ap, sym, ◌∙◌,
  inl, inr, Bool, true, false, ◌&&◌, not, Option, none, some, List, [], ◌∷◌, ◌++◌, any, find,
  update_where, ◌==◌, Option-cases, arith,
}
use himitsu.Text.{Text, text_eq}
use himitsu.Authz.{project_read}
use himitsu.Errors.{Result-cases, Result, ok}
use himitsu.Exec.{pure, query, ◌>>=◌, ◌>>◌, bind-ok, query-ok}
use himitsu.Audit.{AuditEvent, project_updated}
use himitsu.Database.{ProjectTagRow, Database, ProjectRow}
use himitsu.Tenant.{require, record_in_transaction, logged}
use himitsu.Tenant.Recording.{recorded}
use himitsu.Projects.{
  tag_ids_of, from_row, Project, has_id, find_project, validate_default_environments, event_of,
  get_by_id,
}
use himitsu.Projects.Changes.{with_settings, update_project, retag, name_and_slug, write_settings}
use himitsu.Projects.Changes.Creation.{view_reads}
use himitsu.Projects.Changes.Tagging.{replace_tags_effect}

abbrev pub slug_of_another : ℕ → Text → ProjectRow → Bool
slug_of_another id slug p = not (p.id == id) && text_eq p.slug slug

update_project-ok :
    (id : ℕ) (name slug : Text) (description : Option Text) (environments : List Text)
    (db db' : Database)
    → any (has_id id false) db.projects ≡ true
    → update_project id name slug description environments db ≡ (ok tt, db')
    → (any (slug_of_another id slug) db.projects ≡ false)
      × (db' ≡ record db {
        projects =
            update_where
              (has_id id false)
              (with_settings name slug description environments)
              db.projects;
      })
unfolding update_project
update_project-ok id name slug description environments db db' there h =
    (ground arith, ground arith)

retag-ok :
    (id : ℕ) (tags : Option (List ℕ)) (db db' : Database)
    → retag id tags db ≡ (ok tt, db')
    → db' ≡ record db { project_tags = db'.project_tags }
retag-ok id none db db' h =
    let same = ap (λ (r : Result (Unit {0}) × Database). r.1) h in
    sym same ∙ ap (λ (b : Database). record db { project_tags = b.project_tags }) same
retag-ok id (some tags) db db' h =
    let (_, _, _, _, _, tables) = replace_tags_effect id tags db db' h in tables

-- The tags of the project are those that were given, if any were; the others stay.
abbrev pub Retagged : ℕ → Option (List ℕ) → List ProjectTagRow → List ProjectTagRow → Type 0
Retagged id none before now = now ≡ before
Retagged id (some tags) before now =
    ((n : ℕ) → elem n (tag_ids_of id now) ≡ elem n tags)
    × (distinct (tag_ids_of id now) ≡ true)
    × ((other : ℕ) → other ≢ id → tag_ids_of other now ≡ tag_ids_of other before)

retag-Retagged :
    (id : ℕ) (tags : Option (List ℕ)) (db db' : Database)
    → retag id tags db ≡ (ok tt, db')
    → Retagged id tags db.project_tags db'.project_tags
retag-Retagged id none db db' h =
    ap (λ (r : Result (Unit {0}) × Database). r.1.project_tags) (sym h)
retag-Retagged id (some tags) db db' h =
    let (asked, once, _, _, others, _) = replace_tags_effect id tags db db' h in
    (asked, once, others)

pub read_row :
    (actor id : ℕ) (db db' : Database) (p : Project)
    → get_by_id actor id false db ≡ (ok p, db')
    → (row : ProjectRow) × (find (has_id id false) db.projects ≡ some row)
unfolding get_by_id find_project
read_row actor id db db' p h = elim (Option-cases (find (has_id id false) db.projects)) [
  | inl missing ↦ ground (arith, missing)
  | inr found ↦ found
]

module _ (actor id : ℕ) where
  abbrev update_event : ℕ → Project → Project → AuditEvent
  update_event org_id before after =
      event_of org_id actor project_updated id (some (name_and_slug before))
        (some (name_and_slug after))

  update_logged :
      (before p result : Project) (db db' : Database)
      → (query (λ b. ok b.org_id) >>= λ org_id.
            record_in_transaction (update_event org_id before p) >> pure p)
          db
        ≡ (ok result, db')
      → (result ≡ p) × (db' ≡ logged (update_event db.org_id before p) db)
  update_logged before p result db db' h =
      let logging = recorded (update_event db.org_id before p) db in
      (ground (arith, logging), ground (arith, logging))

  rewritten_tables :
      (rows : List ProjectRow) (event : AuditEvent) (db db1 db2 db3 db' : Database)
      → db1 ≡ record db { projects = rows }
      → db2 ≡ record db1 { project_tags = db2.project_tags }
      → db3 ≡ db2
      → db' ≡ logged event db3
      → db' ≡ record db {
        projects = rows;
        project_tags = db2.project_tags;
        audit_events = db.audit_events ++ event ∷ [];
      }
  rewritten_tables rows event db db1 db2 db3 db' e1 e2 e3 e4 =
      e4
      ∙ ap (logged event) (e3 ∙ e2)
      ∙ ap (λ (b : Database). logged event (record b { project_tags = db2.project_tags })) e1

  pub viewed_fields :
      (row : ProjectRow) (db : Database) (p : Project)
      → find (has_id id false) db.projects ≡ some row
      → get_by_id actor id false db ≡ (ok p, db)
      → (p.name ≡ row.name)
        × (p.slug ≡ row.slug)
        × (p.description ≡ row.description)
        × (validate_default_environments row.default_environments ≡ ok p.default_environments)
  unfolding get_by_id find_project from_row
  viewed_fields row db p found h =
      let (seen, reading, h1) = query-ok (find_project id false) _ db db p h in
      let (_, _, h2) = query-ok (require actor (some seen.id) false project_read) _ db db p h1 in
      let same : seen ≡ row = ground (arith, reading, found) in
      elim (Result-cases (validate_default_environments seen.default_environments)) [
        | inl (e, bad) ↦ ground (arith, bad, h2)
        | inr (slugs, good) ↦ (
          ground (arith, good, h2, same),
          ground (arith, good, h2, same),
          ground (arith, good, h2, same),
          rw (sym same) (good ∙ ground (arith, good, h2)),
        )
      ]

  pub write_settings-ok :
      (before result : Project) (name slug : Text) (description : Option Text)
      (environments : List Text) (tags : Option (List ℕ)) (db db' : Database)
      → any (has_id id false) db.projects ≡ true
      → write_settings actor id before name slug description environments tags db ≡ (ok result, db')
      → (any (slug_of_another id slug) db.projects ≡ false)
        × Retagged id tags db.project_tags db'.project_tags
        × ((row : ProjectRow)
            → find (has_id id false) db.projects ≡ some row
            → (result.name ≡ name) × (result.slug ≡ slug) × (result.description ≡ description))
        × ((event : AuditEvent) × (db' ≡ record db {
          projects =
              update_where
                (has_id id false)
                (with_settings name slug description environments)
                db.projects;
          project_tags = db'.project_tags;
          audit_events = db.audit_events ++ event ∷ [];
        }))
  unfolding write_settings
  write_settings-ok before result name slug description environments tags db db' there h =
      let (_, db1, written, h1) =
        bind-ok (update_project id name slug description environments) _ db db' result h in
      let (_, db2, retagged, h2) = bind-ok (retag id tags) _ db1 db' result h1 in
      let (p, db3, viewed, h3) = bind-ok (get_by_id actor id false) _ db2 db' result h2 in
      let (free, projects) =
        update_project-ok id name slug description environments db db1 there written in
      let rows =
        update_where (has_id id false) (with_settings name slug description environments)
          db.projects in
      let event = update_event db3.org_id before p in
      let changes = with_settings name slug description environments in
      let same = view_reads actor id false db2 db3 p viewed in
      let (answered, logging) = update_logged before p result db3 db' h3 in
      let tagged : db'.project_tags ≡ db2.project_tags =
        ap (λ (b : Database). b.project_tags) (logging ∙ ap (logged event) same) in
      let untagged : db1.project_tags ≡ db.project_tags =
        ap (λ (b : Database). b.project_tags) projects in
      let renamed : db2.projects ≡ rows =
        ap (λ (b : Database). b.projects) (retag-ok id tags db1 db2 retagged)
        ∙ ap (λ (b : Database). b.projects) projects in
      let tables =
        rewritten_tables rows event db db1 db2 db3 db' projects (retag-ok id tags db1 db2 retagged)
          same logging in
      (
        free,
        rw (tagged, sym untagged) (retag-Retagged id tags db1 db2 retagged),
        λ row found.
            let (named, slugged, described, _) =
              viewed_fields (changes row) db2 p
                (rw renamed
                  (find-update_where (has_id id false) changes (λ x. refl) db.projects row found))
                (viewed ∙ ap (λ (b : Database). (ok p, b)) same) in
            rw answered (named, slugged, described),
        (
          event,
          tables
              ∙ ap
                  (λ (b : Database). record db {
                    projects = rows;
                    project_tags = b.project_tags;
                    audit_events = db.audit_events ++ event ∷ [];
                  })
                  (sym tables),
        ),
      )

  pub row_found :
      (row : ProjectRow) (rows rows' : List ProjectRow) (result : Project) (n s : Text)
      (d : Option Text) (slugs : List Text)
      → find (has_id id false) rows ≡ some row
      → rows' ≡ update_where (has_id id false) (with_settings n s d slugs) rows
      → result.name ≡ n
      → result.slug ≡ s
      → result.description ≡ d
      → (find (has_id id false) rows'
          ≡ some (record row {
            name = result.name;
            slug = result.slug;
            description = result.description;
            default_environments = some slugs;
          }))
        × (filter (λ (p : ProjectRow). not (has_id id false p)) rows'
            ≡ filter (λ (p : ProjectRow). not (has_id id false p)) rows)
  row_found row rows rows' result n s d slugs found written named slugged described =
      let changes = with_settings n s d slugs in
      (
        rw (written, named, slugged, described)
            (find-update_where (has_id id false) changes (λ x. refl) rows row found),
        rw written (filter-update_where (has_id id false) changes (λ x. refl) rows),
      )
