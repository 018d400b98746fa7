-- ===== src/Environments/Tests.antt =====
-- Runs of the environment service at one small organization, and the theorems at those runs.
use himitsu.Prelude.{
  ℕ, ◌+◌, ◌≡◌, refl, true, false, none, some, [], ◌∷◌, ◌++◌, ◌<◌, ◌≤◌, ◌≢◌, All, length,
  count_where, ◌==◌, if◌then◌else◌, arith,
}
use himitsu.Text.{codes, text_eq, trim, to_lower, is_slug}
use himitsu.Audit.{AuditEvent}
use himitsu.Errors.{Error, ok, err, not_found}
use himitsu.Authz.{AuthorizationDecision}
use himitsu.Evaluation.{evaluation}
use himitsu.Evaluation.Office.{office}
use himitsu.Database.{Database, EnvironmentRow}
use himitsu.Environments.{
  Environment, failed, is_active_in, max_environments, from_row, find_environment,
  require_active_project, next_display_order, insert_environment, validate_environment_name,
  normalize_environment_slug, get_row, get, insert_new, create,
}
use himitsu.Environments.Invariant.{IsWellFormed}
use himitsu.Environments.Creation.{create_effect}
use himitsu.Environments.Deletion.{in_environment, bury_all, dig_up_all, delete, restore}
use himitsu.Environments.Deletion.Runs.{deletion_event}
use himitsu.Environments.Deletion.RoundTrip.{restore-delete}
use himitsu.Environments.Deletion.Effect.{delete_effect}

environments : Unit {0}
unfolding evaluation from_row find_environment require_active_project next_display_order
    insert_environment validate_environment_name normalize_environment_slug get_row get insert_new
    create bury_all dig_up_all delete restore
environments = tt

-- A member may not delete environments.
member_may_not_delete :
    (d : AuthorizationDecision) × ((delete 500 1000 6 20 true office).0 ≡ err (Error.forbidden d))
unfolding environments
member_may_not_delete = (_, refl)

abbrev buried_view : Environment
buried_view = record {
  id = 20;
  org_id = 1;
  project_id = 7;
  name = codes "Staging";
  slug = b'a' ∷ codes "staging";
  display_order = b'a';
  protected = false;
  deleted_at = some 1000;
  purge_after = some 1500;
}

deleted : (db : Database) × (delete 500 1000 5 20 true office ≡ (ok buried_view, db))
unfolding environments
deleted = (_, refl)

office-IsWellFormed : IsWellFormed office.environments
unfolding text_eq
office-IsWellFormed = record {
  keyed = (refl, (refl, tt));
  dated = (λ _. (refl, refl), (λ _. (refl, refl), tt));
}

project_is_active : require_active_project 7 office ≡ ok tt
unfolding environments
project_is_active = refl

restore-delete_example :
    (db'' : Database) × (restore 500 1499 5 20 deleted.0
      ≡ (ok (record buried_view { deleted_at = none; purge_after = none }), db''))
    × (db''.environments ≡ office.environments)
    × (db''.secrets ≡ office.secrets)
    × (db''.projects ≡ office.projects)
    × (db''.memberships ≡ office.memberships)
    × (db''.overrides ≡ office.overrides)
restore-delete_example =
    restore-delete 500 1000 1499 5 20 true office deleted.0 buried_view office-IsWellFormed
      (λ p. cc, (λ p. cc, tt)) ((λ p. cc, λ _. (refl, refl)), ((λ p. cc, λ _. (refl, refl)), tt))
      deleted.1 project_is_active (omega arith)

delete_effect_example :
    ((p : ℕ)
      → count_where (is_active_in p) deleted.0.environments
          + (if buried_view.project_id == p then 1 else 0)
        ≡ count_where (is_active_in p) office.environments)
    × (1 ≤ count_where (is_active_in 7) deleted.0.environments)
    × (find_environment 20 false deleted.0 ≡ err (failed not_found))
    × (count_where (in_environment 20) deleted.0.secrets ≡ 0)
    × ((e : EnvironmentRow) × (find_environment 20 false office ≡ ok e)
        × (deleted.0.audit_events
            ≡ office.audit_events ++ deletion_event 500 1000 5 20 office e ∷ []))
delete_effect_example =
    delete_effect 500 1000 5 20 true office deleted.0 buried_view office-IsWellFormed.keyed
      deleted.1

abbrev new_view : Environment
new_view = record {
  id = 22;
  org_id = 1;
  project_id = 7;
  name = codes "QA";
  slug = codes "qa-1";
  display_order = 99;
  protected = false;
  deleted_at = none;
  purge_after = none;
}

created :
    (db : Database) × (create 5 22 7 (codes " QA ") (codes "QA-1") none office ≡ (ok new_view, db))
unfolding environments
created = (_, refl)

create_effect_example :
    IsWellFormed created.0.environments
    × ((p : ℕ)
        → count_where (is_active_in p) created.0.environments
          ≡ count_where (is_active_in p) office.environments + (if 7 == p then 1 else 0))
    × (count_where (is_active_in 7) created.0.environments ≤ max_environments)
    × All
        (λ (e : EnvironmentRow). is_active_in 7 e ≡ true → e.display_order < new_view.display_order)
        office.environments
    × ((new_view.name ≡ trim (codes " QA "))
        × (1 ≤ length new_view.name)
        × (length new_view.name ≤ 80))
    × ((new_view.slug ≡ to_lower (trim (codes "QA-1")))
        × (is_slug new_view.slug ≡ true)
        × (length new_view.slug ≤ 80))
    × All (λ (e : EnvironmentRow). e.project_id ≡ 7 → e.slug ≢ new_view.slug) office.environments
    × ((event : AuditEvent) × (created.0.audit_events ≡ office.audit_events ++ event ∷ []))
create_effect_example =
    create_effect 5 22 7 (codes " QA ") (codes "QA-1") none office created.0 new_view
      office-IsWellFormed created.1
