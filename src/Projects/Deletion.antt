-- ===== src/Projects/Deletion.antt =====
-- `delete` and `restore` of packages/projects/src/index.ts: a soft deletion that takes the active
-- environments and secrets of the project along, and a recovery window.
pub mod Runs
pub mod Rows
pub mod Effect
mod Tests
pub mod RoundTrip
use himitsu.Prelude.{
  ℕ, ◌+◌, Bool, true, false, ◌&&◌, Option, none, some, update_where, ltb, ◌==◌, or_else, is_none,
  is_some, equals_stamp,
}
use himitsu.Text.{codes}
use himitsu.Authz.{project_delete}
use himitsu.Errors.{ok, not_found, recovery_expired}
use himitsu.Exec.{Exec, pure, query, write, guard, ◌>>=◌, ◌>>◌}
use himitsu.Audit.{project_deleted, project_restored}
use himitsu.Audit.Metadata.{instant, end, field}
use himitsu.Database.{Database, ProjectRow, EnvironmentRow, SecretRow}
use himitsu.Tenant.{require, record_in_transaction}
use himitsu.Environments.{is_active_in}
use himitsu.Projects.{Project, failed, has_id, event_of, get_by_id}

-- `UPDATE projects SET deleted_at, purge_after WHERE id AND deleted_at IS NULL`.
abbrev pub bury : ℕ → ℕ → ProjectRow → ProjectRow
bury deleted_at purge_after p = record p {
  deleted_at = some deleted_at;
  purge_after = some purge_after;
}

-- `UPDATE environments SET deleted_at, deleted_by_project_at WHERE project_id AND deleted_at IS NULL`.
abbrev pub bury_environment : ℕ → EnvironmentRow → EnvironmentRow
bury_environment deleted_at e = record e {
  deleted_at = some deleted_at;
  deleted_by_project_at = some deleted_at;
}

abbrev pub in_project : ℕ → SecretRow → Bool
in_project project_id s = s.project_id == project_id && is_none s.deleted_at

abbrev pub bury_secret : ℕ → SecretRow → SecretRow
bury_secret deleted_at s = record s {
  deleted_at = some deleted_at;
  deleted_by_project_at = some deleted_at;
}

unfoldable pub bury_all : ℕ → ℕ → ℕ → Database → Database
bury_all project_id deleted_at purge_after db = record db {
  projects = update_where (has_id project_id false) (bury deleted_at purge_after) db.projects;
  environments =
      update_where (is_active_in project_id) (bury_environment deleted_at) db.environments;
  secrets = update_where (in_project project_id) (bury_secret deleted_at) db.secrets;
}

abbrev pub dig_up : ProjectRow → ProjectRow
dig_up p = record p { deleted_at = none; purge_after = none }

-- `WHERE project_id = $1 AND deleted_by_project_at = $2`.
abbrev pub environment_buried_at : ℕ → Option ℕ → EnvironmentRow → Bool
environment_buried_at project_id stamp e =
    e.project_id == project_id && equals_stamp e.deleted_by_project_at stamp

abbrev pub dig_up_environment : EnvironmentRow → EnvironmentRow
dig_up_environment e = record e { deleted_at = none; deleted_by_project_at = none }

abbrev pub secret_buried_at : ℕ → Option ℕ → SecretRow → Bool
secret_buried_at project_id stamp s =
    s.project_id == project_id && equals_stamp s.deleted_by_project_at stamp

abbrev pub dig_up_secret : SecretRow → SecretRow
dig_up_secret s = record s { deleted_at = none; deleted_by_project_at = none }

unfoldable pub dig_up_all : ℕ → Option ℕ → Database → Database
dig_up_all project_id stamp db = record db {
  projects = update_where (has_id project_id true) dig_up db.projects;
  environments =
      update_where (environment_buried_at project_id stamp) dig_up_environment db.environments;
  secrets = update_where (secret_buried_at project_id stamp) dig_up_secret db.secrets;
}

-- `now` is the service's clock, and `recovery_ms` its window.
module _ (recovery_ms now actor_user_id : ℕ) where
  unfoldable pub delete : ℕ → Exec Database Project
  delete project_id = do
    get_by_id actor_user_id project_id false
    query (require actor_user_id (some project_id) false project_delete)
    write (bury_all project_id now (now + recovery_ms))
    project ← get_by_id actor_user_id project_id true
    org_id ← query (λ db. ok db.org_id)
    record_in_transaction (
        event_of org_id actor_user_id project_deleted project_id none
          (some (field (codes "recoveryEndsAt") (instant (now + recovery_ms)) end)))
    pure project

  unfoldable pub restore : ℕ → Exec Database Project
  restore project_id = do
    project ← get_by_id actor_user_id project_id true
    query (require actor_user_id (some project_id) false project_delete)
    guard (is_some project.deleted_at && is_some project.purge_after) (failed not_found)
    guard (ltb now (or_else project.purge_after 0)) (failed recovery_expired)
    write (dig_up_all project_id project.deleted_at)
    restored ← get_by_id actor_user_id project_id false
    org_id ← query (λ db. ok db.org_id)
    record_in_transaction (event_of org_id actor_user_id project_restored project_id none none)
    pure restored
