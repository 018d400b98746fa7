-- ===== src/Projects/Deletion/Runs.antt =====
-- What a deletion of a project that returns has found and done, and when a restoration returns.
use himitsu.Prelude.{ℕ, ◌+◌, ◌<◌, ◌≡◌, refl, inl, inr, true, false, Option, none, some, arith}
use himitsu.Text.{codes}
use himitsu.Authz.{project_read, project_delete}
use himitsu.Errors.{ok, Result-cases}
use himitsu.Audit.{AuditEvent, project_deleted, project_restored}
use himitsu.Audit.Metadata.{instant, end, field}
use himitsu.Database.{Database, ProjectRow}
use himitsu.Tenant.{require, record_in_transaction, logged}
use himitsu.Tenant.Recording.{recorded, record_bare}
use himitsu.Projects.{Project, from_row, find_project, event_of, get_by_id}
use himitsu.Projects.Deletion.{bury_all, dig_up_all, delete, restore}

module _ (recovery_ms now actor id : ℕ) where
  abbrev pub deletion_event : Database → AuditEvent
  deletion_event db =
      event_of db.org_id actor project_deleted id none
        (some (field (codes "recoveryEndsAt") (instant (now + recovery_ms)) end))

  abbrev pub buried : Database → Database
  buried db = bury_all id now (now + recovery_ms) db

  pub record Deleted (db db' : Database) (result : Project) : Type 0 where
    pub row : ProjectRow
    pub before : Project
    pub found : find_project id false db ≡ ok row
    pub readable : require actor (some row.id) false project_read db ≡ ok tt
    pub valid : from_row db row ≡ ok before
    pub permitted : require actor (some id) false project_delete db ≡ ok tt
    pub grave : ProjectRow
    pub grave_found : find_project id true (buried db) ≡ ok grave
    pub grave_readable : require actor (some grave.id) false project_read (buried db) ≡ ok tt
    pub returned : from_row (buried db) grave ≡ ok result
    pub tables : db' ≡ logged (deletion_event db) (buried db)

  delete_found :
      (db db' : Database) (result : Project)
      → delete recovery_ms now actor id db ≡ (ok result, db')
      → (row : ProjectRow) × (before : Project) × (find_project id false db ≡ ok row)
        × (from_row db row ≡ ok before)
  unfolding delete get_by_id
  delete_found db db' result h = elim (Result-cases (find_project id false db)) [
    | inl (e, missing) ↦ ground arith
    | inr (row, found) ↦ elim (Result-cases (from_row db row)) [
      | inl (e, bad) ↦ ground arith
      | inr (before, valid) ↦ (row, before, found, valid)
    ]
  ]

  delete_grave :
      (db db' : Database) (result : Project)
      → delete recovery_ms now actor id db ≡ (ok result, db')
      → (grave : ProjectRow) × (p : Project) × (find_project id true (buried db) ≡ ok grave)
        × (from_row (buried db) grave ≡ ok p)
  unfolding delete get_by_id
  delete_grave db db' result h =
      let (row, before, found, valid) = delete_found db db' result h in
      elim (Result-cases (find_project id true (buried db))) [
        | inl (e, missing) ↦ ground arith
        | inr (grave, found') ↦ elim (Result-cases (from_row (buried db) grave)) [
          | inl (e, bad) ↦ ground arith
          | inr (p, valid') ↦ (grave, p, found', valid')
        ]
      ]

  pub delete-ok :
      (db db' : Database) (result : Project)
      → delete recovery_ms now actor id db ≡ (ok result, db')
      → Deleted db db' result
  unfolding delete get_by_id bury_all
  delete-ok db db' result h =
      let (row, before, found, valid) = delete_found db db' result h in
      let (grave, p, grave_found, grave_valid) = delete_grave db db' result h in
      let logging = recorded (deletion_event db) (buried db) in
      record {
        row = row;
        before = before;
        found = found;
        readable = ground arith;
        valid = valid;
        permitted = ground arith;
        grave = grave;
        grave_found = grave_found;
        grave_readable = ground arith;
        returned = ground (arith, logging);
        tables = ground (arith, logging);
      }

  abbrev pub restoration_event : Database → AuditEvent
  restoration_event db = event_of db.org_id actor project_restored id none none

  abbrev pub dug_up : Database → Option ℕ → Database
  dug_up db stamp = dig_up_all id stamp db

  restoration_recorded :
      (db db' : Database)
      → record_in_transaction (restoration_event db) db'
        ≡ (ok tt, logged (restoration_event db) db')
  restoration_recorded db db' = record_bare _ db' refl refl refl refl

  -- A restoration returns once its tests are passed.
  pub restore_returns :
      (db : Database) (grave row : ProjectRow) (gone before : Project) (stamp purge : ℕ)
      → find_project id true db ≡ ok grave
      → require actor (some grave.id) false project_read db ≡ ok tt
      → from_row db grave ≡ ok gone
      → require actor (some id) false project_delete db ≡ ok tt
      → gone.deleted_at ≡ some stamp
      → gone.purge_after ≡ some purge
      → now < purge
      → find_project id false (dug_up db (some stamp)) ≡ ok row
      → require actor (some row.id) false project_read (dug_up db (some stamp)) ≡ ok tt
      → from_row (dug_up db (some stamp)) row ≡ ok before
      → restore recovery_ms now actor id db
        ≡ (ok before, logged (restoration_event db) (dug_up db (some stamp)))
  unfolding restore get_by_id dig_up_all
  restore_returns db grave row gone before stamp purge found readable valid permitted dead ends
        early found' readable' valid' =
      ground (arith, restoration_recorded db (dug_up db (some stamp)))
