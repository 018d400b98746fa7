-- ===== src/Environments/Deletion.antt =====
-- `delete` and `restore` of packages/environments/src/index.ts: a soft deletion with a recovery
-- window, which takes the active secrets along.
pub mod Runs
pub mod RoundTrip
pub mod Effect
use himitsu.Prelude.{
  ℕ, ◌+◌, Bool, true, false, ◌&&◌, ◌||◌, not, Option, none, some, count_where, update_where, ltb,
  leb, ◌==◌, or_else, is_none, is_some, equals_stamp, if◌then◌else◌,
}
use himitsu.Text.{codes}
use himitsu.Authz.{environment_delete}
use himitsu.Errors.{
  not_found, last_environment, secrets_require_confirmation, recovery_expired, ok, err,
}
use himitsu.Exec.{Exec, pure, query, write, guard, ◌>>=◌, ◌>>◌}
use himitsu.Audit.{ResourceType, environment_deleted, environment_restored}
use himitsu.Audit.Metadata.{number, instant, end, field}
use himitsu.Database.{Database, EnvironmentRow, SecretRow}
use himitsu.Tenant.{require, record_in_transaction}
use himitsu.Environments.{
  Environment, failed, from_row, is_active_in, has_id, require_active_project, event_of, get_row,
  get,
}

-- `UPDATE environments SET deleted_at, purge_after WHERE id AND deleted_at IS NULL`.
abbrev pub bury : ℕ → ℕ → EnvironmentRow → EnvironmentRow
bury deleted_at purge_after e = record e {
  deleted_at = some deleted_at;
  purge_after = some purge_after;
}

abbrev pub in_environment : ℕ → SecretRow → Bool
in_environment environment_id s = s.environment_id == environment_id && is_none s.deleted_at

-- `UPDATE secrets SET deleted_at, deleted_by_environment_at WHERE environment_id AND deleted_at IS NULL`.
abbrev pub bury_secret : ℕ → SecretRow → SecretRow
bury_secret deleted_at s = record s {
  deleted_at = some deleted_at;
  deleted_by_environment_at = some deleted_at;
}

unfoldable pub bury_all : ℕ → ℕ → ℕ → Database → Database
bury_all environment_id deleted_at purge_after db = record db {
  environments =
      update_where (has_id environment_id false) (bury deleted_at purge_after) db.environments;
  secrets = update_where (in_environment environment_id) (bury_secret deleted_at) db.secrets;
}

-- `WHERE id AND deleted_at = $2 AND deleted_by_project_at IS NULL`.
abbrev pub buried_at : ℕ → Option ℕ → EnvironmentRow → Bool
buried_at environment_id stamp e =
    e.id == environment_id && equals_stamp e.deleted_at stamp && is_none e.deleted_by_project_at

abbrev pub dig_up : EnvironmentRow → EnvironmentRow
dig_up e = record e { deleted_at = none; purge_after = none }

-- `WHERE environment_id AND deleted_by_environment_at = $2 AND deleted_by_project_at IS NULL`.
abbrev pub secret_buried_at : ℕ → Option ℕ → SecretRow → Bool
secret_buried_at environment_id stamp s =
    s.environment_id == environment_id
    && equals_stamp s.deleted_by_environment_at stamp
    && is_none s.deleted_by_project_at

abbrev pub dig_up_secret : SecretRow → SecretRow
dig_up_secret s = record s { deleted_at = none; deleted_by_environment_at = none }

unfoldable pub dig_up_all : ℕ → Option ℕ → Database → Database
dig_up_all environment_id stamp db = record db {
  environments = update_where (buried_at environment_id stamp) dig_up db.environments;
  secrets = update_where (secret_buried_at environment_id stamp) dig_up_secret db.secrets;
}

-- The window is open: a deletion time, and a purge time that is still to come.
abbrev pub is_recoverable : ℕ → EnvironmentRow → Bool
is_recoverable now e =
    is_some e.deleted_at && is_some e.purge_after && ltb now (or_else e.purge_after 0)

-- `now` is the service's clock, and `recovery_ms` its window.
module _ (recovery_ms now actor_user_id : ℕ) where
  unfoldable pub delete : ℕ → Bool → Exec Database Environment
  delete environment_id confirm_secrets = do
    environment ← get_row actor_user_id environment_id false
    query (
        require actor_user_id (some environment.project_id) environment.protected
          environment_delete)
    query (λ db.
        if leb (count_where (is_active_in environment.project_id) db.environments) 1
        then err (failed last_environment)
        else ok tt)
    secret_count ← query (λ db. ok (count_where (in_environment environment_id) db.secrets))
    guard (not (ltb 0 secret_count) || confirm_secrets) (failed secrets_require_confirmation)
    write (bury_all environment_id now (now + recovery_ms))
    org_id ← query (λ db. ok db.org_id)
    record_in_transaction (
        event_of org_id actor_user_id environment_deleted ResourceType.environment environment_id
          environment.project_id (some environment_id) none
          (some (
            field (codes "recoveryEndsAt") (instant (now + recovery_ms))
              (field (codes "deletedSecretCount") (number secret_count) end))))
    pure (from_row org_id (bury now (now + recovery_ms) environment))

  unfoldable pub restore : ℕ → Exec Database Environment
  restore environment_id = do
    environment ← get_row actor_user_id environment_id true
    guard (is_recoverable now environment) (failed recovery_expired)
    guard (is_none environment.deleted_by_project_at) (failed not_found)
    query (require_active_project environment.project_id)
    query (
        require actor_user_id (some environment.project_id) environment.protected
          environment_delete)
    write (dig_up_all environment_id environment.deleted_at)
    org_id ← query (λ db. ok db.org_id)
    record_in_transaction (
        event_of org_id actor_user_id environment_restored ResourceType.environment environment_id
          environment.project_id (some environment_id) none none)
    get actor_user_id environment_id false
