-- ===== src/Tenant/Recording.antt =====
-- What the services rely on when they ask for a permission and record an event.
use himitsu.Prelude.{ℕ, ◌≡◌, refl, ◌⊎◌, inl, inr, Bool, true, Option, none, some, is_some}
use himitsu.Authz.{Role, ProjectOverrideRole, Permission, AuthorizationDecision}
use himitsu.Authz.Decision.{allows, require_permission-none}
use himitsu.Errors.{Error, Result, ok, err}
use himitsu.Audit.{AuditEvent, validate_event, metadata_for}
use himitsu.Audit.Accepted.{validate_event_known, metadata_for_bare}
use himitsu.Audit.Metadata.{Fields}
use himitsu.Exec.{Exec, query, write, ◌>>◌}
use himitsu.Database.{Database}
use himitsu.Tenant.{
  granted, require_in, active_role, project_role_of, context_of, resolve, require,
  record_in_transaction, logged,
}

abbrev recording : Result (Unit {0}) → Result Fields → AuditEvent → Exec Database (Unit {0})
recording checked fields event = do query (λ _. checked); query (λ _. fields); write (logged event)

recording_split :
    (checked : Result (Unit {0})) (fields : Result Fields) (event : AuditEvent) (db : Database)
    → (recording checked fields event db ≡ (ok tt, logged event db))
      ⊎ ((e : Error) × (recording checked fields event db ≡ (err e, db)))
recording_split (ok tt) (ok fields) event db = inl refl
recording_split (ok tt) (err e) event db = inr (e, refl)
recording_split (err e) fields event db = inr (e, refl)

-- The event is appended, or refused with the tables unchanged.
pub recorded :
    (event : AuditEvent) (db : Database)
    → (record_in_transaction event db ≡ (ok tt, logged event db))
      ⊎ ((e : Error) × (record_in_transaction event db ≡ (err e, db)))
unfolding record_in_transaction
recorded event db = recording_split (validate_event event) (metadata_for event) event db

granted-eq-ok : (d : Option AuthorizationDecision) → granted d ≡ ok tt → d ≡ none
granted-eq-ok none h = refl
granted-eq-ok (some d) h = cc

require_in_granted :
    (found : Option Role) (project_role : Option ProjectOverrideRole) (guarded : Bool)
    (permission : Permission)
    → require_in (context_of found project_role guarded) permission ≡ ok tt
    → (role : Role) × (found ≡ some role) × (allows role project_role guarded permission ≡ true)
require_in_granted none project_role guarded permission h = cc
require_in_granted (some role) project_role guarded permission h =
    (role, refl, require_permission-none _ permission (granted-eq-ok _ h))

-- A permission that was granted: the actor is an active member, and the decision allows it.
pub require_granted :
    (user_id : ℕ) (project_id : Option ℕ) (guarded : Bool) (permission : Permission) (db : Database)
    → require user_id project_id guarded permission db ≡ ok tt
    → (role : Role) × (active_role user_id db.memberships ≡ some role)
      × (allows role (project_role_of db user_id project_id) guarded permission ≡ true)
unfolding require resolve
require_granted user_id project_id guarded permission db h =
    require_in_granted (active_role user_id db.memberships) (project_role_of db user_id project_id)
      guarded permission h

-- An event about a known resource that carries no metadata is never refused.
pub record_bare :
    (event : AuditEvent) (db : Database)
    → is_some event.resource_id ≡ true
    → event.before ≡ none
    → event.after ≡ none
    → event.details ≡ none
    → record_in_transaction event db ≡ (ok tt, logged event db)
unfolding record_in_transaction
record_bare event db known none_before none_after none_details =
    rw (
      validate_event_known event known,
      metadata_for_bare event none_before none_after none_details,
    )

-- The answer of `require` depends on the memberships and the project roles alone.
pub require_frame :
    (user_id : ℕ) (project_id : Option ℕ) (guarded : Bool) (permission : Permission)
    (db db' : Database)
    → db'.memberships ≡ db.memberships
    → db'.overrides ≡ db.overrides
    → require user_id project_id guarded permission db'
      ≡ require user_id project_id guarded permission db
unfolding require resolve
require_frame user_id none guarded permission db db' m o = rw m
require_frame user_id (some p) guarded permission db db' m o = rw (m, o)
