-- ===== src/Projects/Changes/Tests.antt =====
-- Runs of the creation of a project and of `#replaceTags`, and the theorems at those runs.
use himitsu.Prelude.{
  distinct, ℕ, ◌+◌, ◌≤◌, ◌≡◌, ◌≢◌, refl, true, false, none, some, List, [], ◌∷◌, ◌++◌, any, all,
  elem, length, count_where, not, filter, find, or_else,
}
use himitsu.Text.{Text, codes, text_eq, trim, to_lower, is_slug, distinct_texts}
use himitsu.Text.Fields.{Renamed, Reslugged}
use himitsu.Projects.{
  default_slugs, Project, project_name, project_description, normalize_project_slug, normalize_all,
  validate_default_environments, tag_ids_of, summary_of, from_row, find_project, get_by_id,
  replace_tags, has_id,
}
use himitsu.Projects.Changes.Defaults.{AreDefaults, with_defaults}
use himitsu.Errors.{ok}
use himitsu.Audit.{AuditEvent}
use himitsu.Database.{Database, ProjectRow}
use himitsu.Evaluation.{evaluation}
use himitsu.Evaluation.Office.{office}
use himitsu.Environments.{is_active_in, insert_environment}
use himitsu.Projects.Changes.{
  initcap_from, environment_name, is_production, create_default_project_environments,
  insert_project, insert_new, create, update_project, write_settings, update,
}
use himitsu.Authz.{project_update}
use himitsu.Tenant.{require}
use himitsu.Projects.Changes.Creation.{create_project_effect}
use himitsu.Projects.Changes.Given.{Redescribed}
use himitsu.Projects.Changes.Settings.{Retagged, slug_of_another}
use himitsu.Projects.Changes.Update.{update_project_effect}
use himitsu.Projects.Changes.Tagging.{replace_tags_effect}

initial_capitals : environment_name (codes "pre-prod") ≡ codes "Pre Prod"
unfolding environment_name initcap_from
initial_capitals = refl

created :
    (result : Project) × (db : Database) × (create 5 8
        (λ n. 50 + n)
        (codes " Api")
        (codes "API")
        none
        (some (codes "dev" ∷ codes "prod" ∷ []))
        (some (41 ∷ 41 ∷ []))
        office
      ≡ (ok result, db))
unfolding evaluation project_name project_description normalize_project_slug normalize_all
    validate_default_environments tag_ids_of summary_of from_row find_project get_by_id replace_tags
    insert_environment initcap_from environment_name is_production
    create_default_project_environments insert_project insert_new create
created = (_, _, refl)

create_project_effect_example :
    (row : ProjectRow) × (slugs : List Text) × (event : AuditEvent) × (created.1.projects
      ≡ row ∷ office.projects)
    × ((row.name ≡ trim (codes " Api")) × (1 ≤ length row.name) × (length row.name ≤ 120))
    × ((row.slug ≡ to_lower (trim (codes "API")))
        × (is_slug row.slug ≡ true)
        × (length row.slug ≤ 80))
    × (any (λ (p : ProjectRow). text_eq p.slug row.slug) office.projects ≡ false)
    × (validate_default_environments (some (codes "dev" ∷ codes "prod" ∷ [])) ≡ ok slugs)
    × ((1 ≤ length slugs) × (length slugs ≤ 20) × (distinct_texts slugs ≡ true))
    × (created.1.environments ≡ with_defaults 8 (λ n. 50 + n) 0 slugs office.environments)
    × (count_where (is_active_in 8) created.1.environments
        ≡ length slugs + count_where (is_active_in 8) office.environments)
    × (created.1.audit_events ≡ office.audit_events ++ event ∷ [])
create_project_effect_example =
    create_project_effect 5 8 (λ n. 50 + n) (codes " Api") (codes "API") none
      (some (codes "dev" ∷ codes "prod" ∷ [])) (some (41 ∷ 41 ∷ [])) office created.1 created.0
      created.2

retagged : (db : Database) × (replace_tags 7 (41 ∷ 40 ∷ 41 ∷ []) office ≡ (ok tt, db))
unfolding replace_tags
retagged = (_, refl)

replace_tags_effect_example :
    ((n : ℕ) → elem n (tag_ids_of 7 retagged.0.project_tags) ≡ elem n (41 ∷ 40 ∷ 41 ∷ []))
    × (distinct (tag_ids_of 7 retagged.0.project_tags) ≡ true)
    × (length (tag_ids_of 7 retagged.0.project_tags) ≤ 50)
    × (all (λ t. elem t office.tags) (tag_ids_of 7 retagged.0.project_tags) ≡ true)
    × ((other : ℕ)
        → other ≢ 7
        → tag_ids_of other retagged.0.project_tags ≡ tag_ids_of other office.project_tags)
    × (retagged.0 ≡ record office { project_tags = retagged.0.project_tags })
replace_tags_effect_example = replace_tags_effect 7 (41 ∷ 40 ∷ 41 ∷ []) office retagged.0 retagged.1

updated :
    (result : Project) × (db : Database) × (update 5 7
        (some (codes "Shop"))
        none
        (some none)
        none
        (some (41 ∷ []))
        office
      ≡ (ok result, db))
unfolding evaluation project_name project_description normalize_project_slug normalize_all
    validate_default_environments tag_ids_of summary_of from_row find_project get_by_id replace_tags
    update_project write_settings update
updated = (_, _, refl)

update_project_effect_example :
    (row : ProjectRow) × (slugs : List Text) × (event : AuditEvent) × (find
        (has_id 7 false)
        office.projects
      ≡ some row)
    × (require 5 (some 7) false project_update office ≡ ok tt)
    × Renamed 120 (some (codes "Shop")) row.name updated.0.name
    × Reslugged none row.slug updated.0.slug
    × Redescribed (some none) row.description updated.0.description
    × AreDefaults (or_else none (or_else row.default_environments default_slugs)) slugs
    × (any (slug_of_another 7 updated.0.slug) office.projects ≡ false)
    × (find (has_id 7 false) updated.1.projects
        ≡ some (record row {
          name = updated.0.name;
          slug = updated.0.slug;
          description = updated.0.description;
          default_environments = some slugs;
        }))
    × (filter (λ (p : ProjectRow). not (has_id 7 false p)) updated.1.projects
        ≡ filter (λ (p : ProjectRow). not (has_id 7 false p)) office.projects)
    × Retagged 7 (some (41 ∷ [])) office.project_tags updated.1.project_tags
    × (updated.1 ≡ record office {
      projects = updated.1.projects;
      project_tags = updated.1.project_tags;
      audit_events = office.audit_events ++ event ∷ [];
    })
update_project_effect_example =
    update_project_effect 5 7 (some (codes "Shop")) none (some none) none (some (41 ∷ [])) office
      updated.1 updated.0 updated.2
