-- ===== src/Environments/Deletion/Runs.antt =====
-- What a deletion or a restoration that returns has found and done.
use himitsu.Prelude.{
  ℕ, ◌+◌, ◌<◌, ◌≡◌, refl, ◌⊎◌, inl, inr, Bool, true, false, none, some, count_where, arith,
}
use himitsu.Text.{codes}
use himitsu.Authz.{environment_read, environment_delete}
use himitsu.Errors.{ok, Result-cases}
use himitsu.Audit.{AuditEvent, ResourceType, environment_deleted, environment_restored}
use himitsu.Audit.Metadata.{number, instant, end, field}
use himitsu.Database.{Database, EnvironmentRow}
use himitsu.Tenant.{require, record_in_transaction, logged}
use himitsu.Tenant.Recording.{recorded, record_bare}
use himitsu.Environments.{
  Environment, from_row, is_active_in, find_environment, require_active_project, event_of, get_row,
  get,
}
use himitsu.Environments.Deletion.{
  bury, in_environment, bury_all, dig_up_all, is_recoverable, delete, restore,
}

module _ (recovery_ms now actor id : ℕ) where
  abbrev pub deletion_event : Database → EnvironmentRow → AuditEvent
  deletion_event db e =
      event_of db.org_id actor environment_deleted ResourceType.environment id e.project_id
        (some id) none
        (some (
          field (codes "recoveryEndsAt") (instant (now + recovery_ms)) (
            field (codes "deletedSecretCount") (number (count_where (in_environment id) db.secrets))
              end)))

  abbrev pub buried : Database → Database
  buried db = bury_all id now (now + recovery_ms) db

  pub record Deleted (confirm : Bool) (db db' : Database) (result : Environment) : Type 0 where
    pub environment : EnvironmentRow
    pub found : find_environment id false db ≡ ok environment
    pub readable : require actor (some environment.project_id) false environment_read db ≡ ok tt
    pub permitted :
        require actor (some environment.project_id) environment.protected environment_delete db
        ≡ ok tt
    pub spared : 1 < count_where (is_active_in environment.project_id) db.environments
    pub confirmed : (confirm ≡ true) ⊎ (count_where (in_environment id) db.secrets ≡ 0)
    pub tables : db' ≡ logged (deletion_event db environment) (buried db)
    pub returned : result ≡ from_row db.org_id (bury now (now + recovery_ms) environment)

  delete_found :
      (confirm : Bool) (db db' : Database) (result : Environment)
      → delete recovery_ms now actor id confirm db ≡ (ok result, db')
      → (e : EnvironmentRow) × (find_environment id false db ≡ ok e)
  unfolding delete get_row
  delete_found confirm db db' result h = elim (Result-cases (find_environment id false db)) [
    | inl (e, missing) ↦ ground arith
    | inr found ↦ found
  ]

  pub delete-ok :
      (confirm : Bool) (db db' : Database) (result : Environment)
      → delete recovery_ms now actor id confirm db ≡ (ok result, db')
      → Deleted confirm db db' result
  unfolding delete get_row bury_all
  delete-ok confirm db db' result h =
      let (e, found) = delete_found confirm db db' result h in
      let logging = recorded (deletion_event db e) (buried db) in
      record {
        environment = e;
        found = found;
        readable = ground arith;
        permitted = ground arith;
        spared = ground arith;
        confirmed = ground arith;
        tables = ground (arith, logging);
        returned = ground (arith, logging);
      }

module _ (recovery_ms now actor id : ℕ) where
  abbrev pub restoration_event : Database → EnvironmentRow → AuditEvent
  restoration_event db e =
      event_of db.org_id actor environment_restored ResourceType.environment id e.project_id
        (some id) none none

  abbrev pub dug_up : Database → EnvironmentRow → Database
  dug_up db e = logged (restoration_event db e) (dig_up_all id e.deleted_at db)

  -- An event with no metadata is always recorded.
  restoration_recorded :
      (db db' : Database) (e : EnvironmentRow)
      → record_in_transaction (restoration_event db e) db'
        ≡ (ok tt, logged (restoration_event db e) db')
  restoration_recorded db db' e = record_bare _ db' refl refl refl refl

  -- A restoration returns once its tests are passed.
  pub restore_returns :
      (db : Database) (e e' : EnvironmentRow)
      → find_environment id true db ≡ ok e
      → require actor (some e.project_id) false environment_read db ≡ ok tt
      → is_recoverable now e ≡ true
      → e.deleted_by_project_at ≡ none
      → require_active_project e.project_id db ≡ ok tt
      → require actor (some e.project_id) e.protected environment_delete db ≡ ok tt
      → find_environment id false (dug_up db e) ≡ ok e'
      → require actor (some e'.project_id) false environment_read (dug_up db e) ≡ ok tt
      → restore recovery_ms now actor id db ≡ (ok (from_row db.org_id e'), dug_up db e)
  unfolding restore get get_row dig_up_all
  restore_returns db e e' found readable open_window own active permitted found' readable' =
      ground (arith, restoration_recorded db (dig_up_all id e.deleted_at db) e)
