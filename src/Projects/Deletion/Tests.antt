-- ===== src/Projects/Deletion/Tests.antt =====
-- Runs of the deletion and the restoration of a project, and the theorems at those runs.
use himitsu.Prelude.{◌≡◌, refl, false, [], ◌∷◌, ◌++◌, any, arith}
use himitsu.Errors.{ok, err, recovery_expired}
use himitsu.Audit.{AuditEvent}
use himitsu.Database.{Database}
use himitsu.Evaluation.{evaluation}
use himitsu.Evaluation.Office.{office}
use himitsu.Environments.{is_active_in}
use himitsu.Projects.{
  Project, failed, has_id, normalize_project_slug, normalize_all, validate_default_environments,
  tag_ids_of, summary_of, from_row, find_project, get_by_id,
}
use himitsu.Projects.Deletion.{in_project, bury_all, dig_up_all, delete, restore}
use himitsu.Projects.Deletion.Effect.{
  other_projects, other_environments, other_secrets, delete_project_effect,
}
use himitsu.Projects.Deletion.RoundTrip.{restore-delete_project}

projects : Unit {0}
unfolding evaluation normalize_project_slug normalize_all validate_default_environments tag_ids_of
    summary_of from_row find_project get_by_id bury_all dig_up_all delete restore
projects = tt

deleted : (result : Project) × (db : Database) × (delete 500 1000 5 7 office ≡ (ok result, db))
unfolding projects
deleted = (_, _, refl)

-- At the end of the window the project is gone for good.
too_late : (restore 500 1500 5 7 deleted.1).0 ≡ err (failed recovery_expired)
unfolding projects deleted
too_late = refl

restore-delete_project_example :
    (before : Project) × (db'' : Database) × (get_by_id 5 7 false office ≡ (ok before, office))
    × (restore 500 1499 5 7 deleted.1 ≡ (ok before, db''))
    × (db'' ≡ record office { audit_events = db''.audit_events })
restore-delete_project_example =
    restore-delete_project 500 1000 1499 5 7 office deleted.1 deleted.0 (refl, λ _. refl, tt)
      ((λ p. cc, λ _. refl), ((λ p. cc, λ _. refl), tt))
      ((λ p. cc, λ _. refl), ((λ p. cc, λ _. refl), tt)) deleted.2 (omega arith)

delete_project_effect_example :
    (any (has_id 7 false) deleted.1.projects ≡ false)
    × (any (is_active_in 7) deleted.1.environments ≡ false)
    × (any (in_project 7) deleted.1.secrets ≡ false)
    × (other_projects 7 deleted.1.projects ≡ other_projects 7 office.projects)
    × (other_environments 7 deleted.1.environments ≡ other_environments 7 office.environments)
    × (other_secrets 7 deleted.1.secrets ≡ other_secrets 7 office.secrets)
    × ((event : AuditEvent) × (deleted.1.audit_events ≡ office.audit_events ++ event ∷ []))
delete_project_effect_example =
    delete_project_effect 500 1000 5 7 office deleted.1 deleted.0 deleted.2
