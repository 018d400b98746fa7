-- ===== src/Projects/Deletion/Effect.antt =====
-- What the deletion of a project leaves.
use himitsu.Prelude.{
  ℕ, ◌+◌, ◌≡◌, refl, ap, false, List, [], ◌∷◌, ◌++◌, any, filter, not, update_where, ◌==◌, arith,
}
use himitsu.Errors.{ok}
use himitsu.Audit.{AuditEvent}
use himitsu.Database.{Database, ProjectRow, EnvironmentRow, SecretRow}
use himitsu.Environments.{is_active_in}
use himitsu.Projects.{Project, has_id}
use himitsu.Projects.Deletion.{bury, bury_environment, in_project, bury_secret, bury_all, delete}
use himitsu.Projects.Deletion.Runs.{deletion_event, delete-ok}

-- The rows of the other projects.
abbrev pub other_projects : ℕ → List ProjectRow → List ProjectRow
other_projects id = filter (λ p. not (p.id == id))

abbrev pub other_environments : ℕ → List EnvironmentRow → List EnvironmentRow
other_environments id = filter (λ e. not (e.project_id == id))

abbrev pub other_secrets : ℕ → List SecretRow → List SecretRow
other_secrets id = filter (λ s. not (s.project_id == id))

module _ (id now purge : ℕ) where
  projects_buried :
      (rows : List ProjectRow)
      → (any (has_id id false) (update_where (has_id id false) (bury now purge) rows) ≡ false)
        × (other_projects id (update_where (has_id id false) (bury now purge) rows)
            ≡ other_projects id rows)
  projects_buried [] = (refl, refl)
  projects_buried (p ∷ rest) =
      (ground (arith, projects_buried rest), ground (arith, projects_buried rest))

  environments_buried :
      (rows : List EnvironmentRow)
      → (any (is_active_in id) (update_where (is_active_in id) (bury_environment now) rows) ≡ false)
        × (other_environments id (update_where (is_active_in id) (bury_environment now) rows)
            ≡ other_environments id rows)
  environments_buried [] = (refl, refl)
  environments_buried (e ∷ rest) =
      (ground (arith, environments_buried rest), ground (arith, environments_buried rest))

  secrets_buried :
      (rows : List SecretRow)
      → (any (in_project id) (update_where (in_project id) (bury_secret now) rows) ≡ false)
        × (other_secrets id (update_where (in_project id) (bury_secret now) rows)
            ≡ other_secrets id rows)
  secrets_buried [] = (refl, refl)
  secrets_buried (s ∷ rest) =
      (ground (arith, secrets_buried rest), ground (arith, secrets_buried rest))

-- A deletion of a project that returns leaves no active row of the project, no active environment
-- and no active secret in it, changes no row of another project, and appends one event.
pub delete_project_effect :
    (recovery_ms now actor id : ℕ) (db db' : Database) (result : Project)
    → delete recovery_ms now actor id db ≡ (ok result, db')
    → (any (has_id id false) db'.projects ≡ false)
      × (any (is_active_in id) db'.environments ≡ false)
      × (any (in_project id) db'.secrets ≡ false)
      × (other_projects id db'.projects ≡ other_projects id db.projects)
      × (other_environments id db'.environments ≡ other_environments id db.environments)
      × (other_secrets id db'.secrets ≡ other_secrets id db.secrets)
      × ((event : AuditEvent) × (db'.audit_events ≡ db.audit_events ++ event ∷ []))
unfolding bury_all
delete_project_effect recovery_ms now actor id db db' result h =
    let tables = (delete-ok recovery_ms now actor id db db' result h).tables in
    let purge = now + recovery_ms in
    (
      rw tables ((projects_buried id now purge db.projects).0),
      rw tables ((environments_buried id now purge db.environments).0),
      rw tables ((secrets_buried id now purge db.secrets).0),
      rw tables ((projects_buried id now purge db.projects).1),
      rw tables ((environments_buried id now purge db.environments).1),
      rw tables ((secrets_buried id now purge db.secrets).1),
      (deletion_event recovery_ms now actor id db, ap (λ (b : Database). b.audit_events) tables),
    )
