-- ===== src/Tenant.antt =====
-- What every service does inside a tenant's transaction: the transaction itself (TenantDatabase of
-- packages/tenancy/src/index.ts), the resolver and guard of packages/authz/src/index.ts, and
-- recording an event (TransactionalAuditLog of packages/audit/src/index.ts).
pub mod Overrides
pub mod Atomic
pub mod Recording
mod Tests
use himitsu.Prelude.{
  ℕ, Bool, false, ◌&&◌, Option, none, some, List, [], ◌∷◌, ◌++◌, count_where, ◌==◌, if◌then◌else◌,
}
use himitsu.Authz.{
  Role, ProjectOverrideRole, Permission, AuthorizationContext, AuthorizationDecision, Reason,
  org_settings_read, read_only, require_permission,
}
use himitsu.Errors.{Error, Result, ok, err, membership_required}
use himitsu.Exec.{Exec, query, write, ◌>>=◌, ◌>>◌, finish}
use himitsu.Audit.{AuditEvent, validate_event, metadata_for}
use himitsu.Database.{Database, MembershipRow, OverrideRow}

-- `SELECT role FROM memberships WHERE user_id = $1 AND status = 'active'`.
unfoldable pub active_role : ℕ → List MembershipRow → Option Role
active_role user_id [] = none
active_role user_id (m ∷ rest) =
    if m.user_id == user_id && m.active then some m.role else active_role user_id rest

-- `SELECT role FROM project_role_overrides WHERE project_id = $1 AND user_id = $2`.
unfoldable pub override_role : ℕ → ℕ → List OverrideRow → Option ProjectOverrideRole
override_role project_id user_id [] = none
override_role project_id user_id (o ∷ rest) =
    if o.project_id == project_id && o.user_id == user_id
    then some o.role
    else override_role project_id user_id rest

abbrev pub refused : Permission → AuthorizationDecision
refused permission = record {
  allowed = false;
  permission = permission;
  effective_role = read_only;
  reason = Reason.role;
}

abbrev project_role_of : Database → ℕ → Option ℕ → Option ProjectOverrideRole
project_role_of db user_id none = none
project_role_of db user_id (some project_id) = override_role project_id user_id db.overrides

abbrev context_of : Option Role → Option ProjectOverrideRole → Bool → Result AuthorizationContext
context_of none project_role guarded = err (Error.forbidden (refused org_settings_read))
context_of (some role) project_role guarded =
    ok (record { org_role = role; project_role = project_role; protected_environment = guarded })

-- `AuthorizationContextResolver.resolve`.
unfoldable pub resolve : ℕ → Option ℕ → Bool → Database → Result AuthorizationContext
unfolding active_role override_role
resolve user_id project_id guarded db =
    context_of (active_role user_id db.memberships) (project_role_of db user_id project_id) guarded

abbrev granted : Option AuthorizationDecision → Result (Unit {0})
granted none = ok tt
granted (some decision) = err (Error.forbidden decision)

abbrev require_in : Result AuthorizationContext → Permission → Result (Unit {0})
require_in (err e) permission = err e
require_in (ok context) permission = granted (require_permission context permission)

-- `requirePermission(await resolver.resolve(…), permission)`.
unfoldable pub require : ℕ → Option ℕ → Bool → Permission → Database → Result (Unit {0})
require user_id project_id guarded permission db =
    require_in (resolve user_id project_id guarded db) permission

-- `INSERT INTO audit_events …`.
abbrev pub logged : AuditEvent → Database → Database
logged event db = record db { audit_events = db.audit_events ++ event ∷ [] }

-- `TransactionalAuditLog.recordInTransaction`.
unfoldable pub record_in_transaction : AuditEvent → Exec Database (Unit {0})
record_in_transaction event = do
  query (λ _. validate_event event)
  query (λ _. metadata_for event)
  write (logged event)

-- `TenantDatabase.withOrg`: one transaction, open to active members only.
pub with_org : {A : Type 0} → ℕ → Exec Database A → Exec Database A
with_org user_id work db =
    if count_where (λ m. m.user_id == user_id && m.active) db.memberships == 1
    then finish db (work db)
    else (err (Error.tenancy membership_required), db)
