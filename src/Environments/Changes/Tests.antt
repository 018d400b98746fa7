-- ===== src/Environments/Changes/Tests.antt =====
-- Runs of `update` and `reorder`, and the theorems at those runs.
use himitsu.Prelude.{
  get_elem?, ◌≡◌, refl, true, false, ◌||◌, not, none, some, List, [], ◌∷◌, ◌++◌, All, any, map,
  filter, find, count_where, distinct, or_else,
}
use himitsu.Text.{text_eq, codes}
use himitsu.Text.Fields.{Renamed, Reslugged}
use himitsu.Errors.{ok}
use himitsu.Audit.{AuditEvent}
use himitsu.Authz.{environment_update}
use himitsu.Database.{Database, EnvironmentRow}
use himitsu.Evaluation.{evaluation}
use himitsu.Evaluation.Office.{office}
use himitsu.Tenant.{require}
use himitsu.Environments.{
  Environment, has_id, is_active_in, from_row, find_environment, require_active_project,
  active_environments, validate_environment_name, normalize_environment_slug, get_row, list,
}
use himitsu.Environments.Invariant.{HasKeys}
use himitsu.Environments.Changes.{
  update_environment, position_in, order_covers, rewrite_row, update, reorder,
}
use himitsu.Environments.Changes.Update.{update_effect}
use himitsu.Environments.Changes.Reordering.{without_order, reorder_effect}

office-HasKeys : HasKeys office.environments
unfolding text_eq
office-HasKeys = (refl, (refl, tt))

renamed :
    (result : Environment) × (db : Database) × (update 5 20
        (some (codes "QA"))
        none
        (some true)
        office
      ≡ (ok result, db))
unfolding evaluation from_row find_environment validate_environment_name normalize_environment_slug
    get_row update_environment rewrite_row update
renamed = (_, _, refl)

update_effect_example :
    (e : EnvironmentRow) × (find (has_id 20 false) office.environments ≡ some e)
    × (require 5
          (some e.project_id)
          (e.protected || or_else (some true) false)
          environment_update
          office
        ≡ ok tt)
    × HasKeys renamed.1.environments
    × Renamed 80 (some (codes "QA")) e.name renamed.0.name
    × Reslugged none e.slug renamed.0.slug
    × (renamed.0.id ≡ 20)
    × (renamed.0.protected ≡ or_else (some true) e.protected)
    × (find (has_id 20 false) renamed.1.environments
        ≡ some (record e {
          name = renamed.0.name;
          slug = renamed.0.slug;
          protected = or_else (some true) e.protected;
        }))
    × (filter (λ (o : EnvironmentRow). not (has_id 20 false o)) renamed.1.environments
        ≡ filter (λ (o : EnvironmentRow). not (has_id 20 false o)) office.environments)
    × ((event : AuditEvent) × (renamed.1.audit_events ≡ office.audit_events ++ event ∷ []))
update_effect_example =
    update_effect 5 20 (some (codes "QA")) none (some true) office renamed.1 renamed.0
      office-HasKeys renamed.2

swapped :
    (result : List Environment) × (db : Database) × (reorder 5 7 (21 ∷ 20 ∷ []) office
      ≡ (ok result, db))
unfolding evaluation from_row require_active_project active_environments order_covers list
    position_in reorder
swapped = (_, _, refl)

reorder_effect_example :
    (distinct (21 ∷ 20 ∷ []) ≡ true)
    × (count_where (is_active_in 7) office.environments ≡ 2)
    × All
        (λ (e : EnvironmentRow).
          is_active_in 7 e ≡ true → get_elem? (21 ∷ 20 ∷ []) e.display_order ≡ some e.id)
        swapped.1.environments
    × (map without_order swapped.1.environments ≡ map without_order office.environments)
    × (filter (λ e. not (is_active_in 7 e)) swapped.1.environments
        ≡ filter (λ e. not (is_active_in 7 e)) office.environments)
    × (any (λ (e : EnvironmentRow). e.protected) (filter (is_active_in 7) office.environments)
          ≡ true
        → require 5 (some 7) true environment_update office ≡ ok tt)
    × (swapped.0 ≡ active_environments 7 swapped.1)
reorder_effect_example = reorder_effect 5 7 (21 ∷ 20 ∷ []) office swapped.1 swapped.0 swapped.2
