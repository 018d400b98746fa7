-- ===== src/Projects/Deletion/RoundTrip.antt =====
-- Restoring a project undoes its deletion.
use himitsu.Prelude.{ℕ, ◌+◌, ◌<◌, ◌≡◌, refl, ap, sym, ◌∙◌, true, false, some, arith}
use himitsu.Errors.{ok}
use himitsu.Authz.{project_read, project_delete}
use himitsu.Tenant.{logged}
use himitsu.Tenant.Recording.{require_frame}
use himitsu.Database.{Database, ProjectRow}
use himitsu.Projects.{Project, find_project, from_row, get_by_id}
use himitsu.Projects.Deletion.{bury, bury_all, dig_up_all, delete, restore}
use himitsu.Projects.Deletion.Runs.{
  Deleted, deletion_event, delete-ok, buried, dug_up, restoration_event, restore_returns,
}
use himitsu.Projects.Deletion.Rows.{
  IsWellFormed, EnvironmentsAreUnmarked, SecretsAreUnmarked, dig_up_environment-bury,
  dig_up_secret-bury, dig_up-bury, find-bury, found_row, view_times,
}

module _ (recovery_ms now actor id : ℕ) (db : Database) (well : IsWellFormed db.projects)
    (environments : EnvironmentsAreUnmarked now db.environments)
    (secrets : SecretsAreUnmarked now db.secrets) {db' : Database} {result : Project}
    (d : Deleted recovery_ms now actor id db db' result) where
  grave_is_buried : d.grave ≡ bury now (now + recovery_ms) d.row
  unfolding find_project bury_all
  grave_is_buried = ground (
    arith,
    find-bury id now (now + recovery_ms) db.projects d.row well (found_row id db d.row d.found),
  )

  result_times : (result.deleted_at ≡ some now) × (result.purge_after ≡ some (now + recovery_ms))
  unfolding from_row
  result_times =
      let (gone, purge) =
        view_times (buried recovery_ms now actor id db) d.grave _ result d.returned in
      (
        gone ∙ ap (λ (p : ProjectRow). p.deleted_at) grave_is_buried,
        purge ∙ ap (λ (p : ProjectRow). p.purge_after) grave_is_buried,
      )

  -- The tables once the deletion is undone.
  abbrev recovered : ℕ → Database
  recovered later =
      logged (restoration_event recovery_ms later actor id db')
        (dug_up recovery_ms later actor id db' (some now))

  abbrev undone : ℕ → Database → Database
  undone later b =
      logged (restoration_event recovery_ms later actor id b)
        (dug_up recovery_ms later actor id b (some now))

  recovered_rows :
      (later : ℕ) → recovered later ≡ record db { audit_events = (recovered later).audit_events }
  unfolding bury_all dig_up_all
  recovered_rows later =
      let back = ap (undone later) d.tables in
      back
      ∙ (λ i.
          record (undone later (
            logged (deletion_event recovery_ms now actor id db)
              (buried recovery_ms now actor id db))) {
                projects =
                    dig_up-bury id now (now + recovery_ms) db.projects d.row well
                      (found_row id db d.row d.found) i;
                environments = dig_up_environment-bury id now db.environments environments i;
                secrets = dig_up_secret-bury id now db.secrets secrets i;
              })
      ∙ sym (ap (λ (b : Database). record db { audit_events = b.audit_events }) back)

  -- What `from_row` reads of the tables.
  from_row_frame :
      (b b' : Database) (row : ProjectRow)
      → b'.org_id ≡ b.org_id
      → b'.environments ≡ b.environments
      → b'.project_tags ≡ b.project_tags
      → from_row b' row ≡ from_row b row
  unfolding from_row
  from_row_frame b b' row o e t = rw (o, e, t)

  buried_kept :
      (db'.memberships ≡ db.memberships)
      × (db'.overrides ≡ db.overrides)
      × (buried recovery_ms now actor id db).memberships ≡ db.memberships
      × (buried recovery_ms now actor id db).overrides ≡ db.overrides
  unfolding bury_all
  buried_kept = (
    ap (λ (b : Database). b.memberships) d.tables,
    ap (λ (b : Database). b.overrides) d.tables,
    refl,
    refl,
  )

  grave_still_found : find_project id true db' ≡ ok d.grave
  unfolding find_project
  grave_still_found = ap (λ (b : Database). find_project id true b) d.tables ∙ d.grave_found

  grave_still_viewed : from_row db' d.grave ≡ ok result
  unfolding from_row
  grave_still_viewed = ap (λ (b : Database). from_row b d.grave) d.tables ∙ d.returned

  returns_before : get_by_id actor id false db ≡ (ok d.before, db)
  unfolding get_by_id
  returns_before = ground (arith, d.found, d.readable, d.valid)

  dug_up_kept :
      (later : ℕ)
      → (dug_up recovery_ms later actor id db' (some now)).memberships ≡ db.memberships
        × ((dug_up recovery_ms later actor id db' (some now)).overrides ≡ db.overrides)
        × ((dug_up recovery_ms later actor id db' (some now)).org_id ≡ db.org_id)
        × ((dug_up recovery_ms later actor id db' (some now)).projects ≡ db.projects)
        × ((dug_up recovery_ms later actor id db' (some now)).environments ≡ db.environments)
        × ((dug_up recovery_ms later actor id db' (some now)).project_tags ≡ db.project_tags)
  dug_up_kept later =
      let rows = recovered_rows later in
      (
        ap (λ (b : Database). b.memberships) rows,
        ap (λ (b : Database). b.overrides) rows,
        ap (λ (b : Database). b.org_id) rows,
        ap (λ (b : Database). b.projects) rows,
        ap (λ (b : Database). b.environments) rows,
        ap (λ (b : Database). b.project_tags) rows,
      )

  recovers :
      (later : ℕ)
      → later < now + recovery_ms
      → restore recovery_ms later actor id db' ≡ (ok d.before, recovered later)
  unfolding find_project
  recovers later early =
      let (gone, purge) = result_times in
      let (m, o, m', o') = buried_kept in
      let (m'', o'', org, projects, rows, tags) = dug_up_kept later in
      restore_returns recovery_ms later actor id db' d.grave d.row result d.before now
        (now + recovery_ms) grave_still_found
        (require_frame actor _ false project_read (buried recovery_ms now actor id db) db'
            (m ∙ sym m') (o ∙ sym o')
          ∙ d.grave_readable)
        grave_still_viewed (require_frame actor _ false project_delete db db' m o ∙ d.permitted)
        gone purge early (rw projects d.found)
        (require_frame actor _ false project_read db _ m'' o'' ∙ d.readable)
        (from_row_frame db _ d.row org rows tags ∙ d.valid)

-- A project that was deleted can be restored by the same actor at any moment before its recovery
-- window ends: the restoration returns the project as it could be read before the deletion, and
-- leaves every table but the audit log as it was, with the environments and secrets that had been
-- deleted on their own still deleted. Project ids are distinct, rows that are not deleted carry no
-- marks of a deletion, and no earlier deletion of a project has the same time.
pub restore-delete_project :
    (recovery_ms now later actor id : ℕ) (db db' : Database) (result : Project)
    → IsWellFormed db.projects
    → EnvironmentsAreUnmarked now db.environments
    → SecretsAreUnmarked now db.secrets
    → delete recovery_ms now actor id db ≡ (ok result, db')
    → later < now + recovery_ms
    → (before : Project) × (db'' : Database) × (get_by_id actor id false db ≡ (ok before, db))
      × (restore recovery_ms later actor id db' ≡ (ok before, db''))
      × (db'' ≡ record db { audit_events = db''.audit_events })
restore-delete_project recovery_ms now later actor id db db' result well environments secrets
      deleted early =
    let d = delete-ok recovery_ms now actor id db db' result deleted in
    (
      d.before,
      recovered recovery_ms now actor id db well environments secrets d later,
      returns_before recovery_ms now actor id db well environments secrets d,
      recovers recovery_ms now actor id db well environments secrets d later early,
      recovered_rows recovery_ms now actor id db well environments secrets d later,
    )
