-- ===== src/Tenant/Overrides.antt =====
-- ProjectRoleOverrideService of packages/authz/src/index.ts, over the tables.
pub mod Effect
mod Tests
use himitsu.Prelude.{ℕ, Bool, false, ◌&&◌, Option, none, some, List, [], ◌∷◌, ◌==◌, if◌then◌else◌}
use himitsu.Text.{codes}
use himitsu.Authz.{ProjectOverrideRole, admin, member, read_only, org_members_manage}
use himitsu.Errors.{Error, ok}
use himitsu.Exec.{Exec, pure, query, write, ◌>>=◌, ◌>>◌, required}
use himitsu.Audit.{
  AuditEvent, AuditActor, ResourceId, project_membership, membership_project_role_changed,
}
use himitsu.Audit.Metadata.{Value, null, string, uuid, end, field}
use himitsu.Database.{Database, OverrideRow}
use himitsu.Tenant.{active_role, override_role, refused, require, record_in_transaction}

abbrev pub is_override : ℕ → ℕ → OverrideRow → Bool
is_override project_id user_id o = o.project_id == project_id && o.user_id == user_id

-- `INSERT … ON CONFLICT (org_id, project_id, user_id) DO UPDATE SET role, created_by_user_id`.
pub upsert : OverrideRow → List OverrideRow → List OverrideRow
upsert row [] = row ∷ []
upsert row (o ∷ rest) =
    if is_override row.project_id row.user_id o
    then record o { role = row.role; created_by_user_id = row.created_by_user_id } ∷ rest
    else o ∷ upsert row rest

-- `DELETE FROM project_role_overrides WHERE project_id = $1 AND user_id = $2`.
pub delete_override : ℕ → ℕ → List OverrideRow → List OverrideRow
delete_override project_id user_id [] = []
delete_override project_id user_id (o ∷ rest) =
    let kept = delete_override project_id user_id rest in
    if is_override project_id user_id o then kept else o ∷ kept

abbrev role_value : Option ProjectOverrideRole → Value
role_value none = null
role_value (some admin) = string (codes "admin")
role_value (some member) = string (codes "member")
role_value (some read_only) = string (codes "read_only")

pub override_event :
    ℕ → ℕ → ℕ → ℕ → Option ProjectOverrideRole → Option ProjectOverrideRole → AuditEvent
override_event org_id actor_user_id project_id target_user_id previous role = record {
  org_id = org_id;
  actor = AuditActor.user actor_user_id;
  action = membership_project_role_changed;
  resource_type = project_membership;
  resource_id = some (ResourceId.joined project_id target_user_id);
  project_id = some project_id;
  environment_id = none;
  before = some (field (codes "role") (role_value previous) end);
  after = some (
      field (codes "role") (role_value role)
        (field (codes "targetUserId") (uuid target_user_id) end));
  details = none;
}

module _ (actor_user_id project_id target_user_id : ℕ) where
  -- `ProjectRoleOverrideService.setOverride`.
  pub set_override : ProjectOverrideRole → Exec Database (Unit {0})
  set_override role = do
    query (require actor_user_id none false org_members_manage)
    query (λ db.
        required (active_role target_user_id db.memberships)
          (Error.forbidden (refused org_members_manage)))
    previous ← query (λ db. ok (override_role project_id target_user_id db.overrides))
    write (λ db. record db {
      overrides =
          upsert
            (record {
              project_id = project_id;
              user_id = target_user_id;
              role = role;
              created_by_user_id = actor_user_id;
            })
            db.overrides;
    })
    org_id ← query (λ db. ok db.org_id)
    record_in_transaction
        (override_event org_id actor_user_id project_id target_user_id previous (some role))

  abbrev removal_event : Option ProjectOverrideRole → Exec Database (Unit {0})
  removal_event none = pure tt
  removal_event (some removed) = do
    org_id ← query (λ db. ok db.org_id)
    record_in_transaction
        (override_event org_id actor_user_id project_id target_user_id (some removed) none)

  -- `ProjectRoleOverrideService.removeOverride`.
  pub remove_override : Exec Database (Unit {0})
  remove_override = do
    query (require actor_user_id none false org_members_manage)
    removed ← query (λ db. ok (override_role project_id target_user_id db.overrides))
    write (λ db. record db { overrides = delete_override project_id target_user_id db.overrides })
    removal_event removed
