-- ===== src/Authz.antt =====
-- packages/authz/src/index.ts, the pure part: roles, permissions, the permission matrix, the
-- decision and its two snapshots. The queries and the override service stand in Tenant/Overrides.
pub mod Decision
pub mod Interface
mod Tests
use himitsu.Prelude.{
  ℕ, Bool, true, false, ◌&&◌, not, Option, none, some, List, [], ◌∷◌, map, any, filter, ltb, ◌==◌,
  if◌then◌else◌,
}

pub data Role : Type 0 where
  owner admin member read_only : Role

-- `Exclude<Role, "owner">`.
pub data ProjectOverrideRole : Type 0 where
  admin member read_only : ProjectOverrideRole

pub data Permission : Type 0 where
  org_settings_read org_settings_update org_settings_delete : Permission
  org_members_read org_members_invite org_members_manage : Permission
  project_create project_read project_update project_archive project_delete : Permission
  environment_create environment_read environment_update environment_delete : Permission
  secret_read secret_write secret_delete : Permission
  api_key_read api_key_create api_key_revoke : Permission
  audit_read audit_export : Permission

abbrev pub permissions : List Permission
permissions =
    org_settings_read ∷ org_settings_update ∷ org_settings_delete ∷ org_members_read
    ∷ org_members_invite ∷ org_members_manage ∷ project_create ∷ project_read ∷ project_update
    ∷ project_archive ∷ project_delete ∷ environment_create ∷ environment_read ∷ environment_update
    ∷ environment_delete ∷ secret_read ∷ secret_write ∷ secret_delete ∷ api_key_read
    ∷ api_key_create ∷ api_key_revoke ∷ audit_read ∷ audit_export ∷ []

-- The position in `permissions`, by which two permissions are compared.
abbrev pub position : Permission → ℕ
position org_settings_read = 0
position org_settings_update = 1
position org_settings_delete = 2
position org_members_read = 3
position org_members_invite = 4
position org_members_manage = 5
position project_create = 6
position project_read = 7
position project_update = 8
position project_archive = 9
position project_delete = 10
position environment_create = 11
position environment_read = 12
position environment_update = 13
position environment_delete = 14
position secret_read = 15
position secret_write = 16
position secret_delete = 17
position api_key_read = 18
position api_key_create = 19
position api_key_revoke = 20
position audit_read = 21
position audit_export = 22

abbrev pub same_permission : Permission → Permission → Bool
same_permission p q = position p == position q

unfoldable pub includes : List Permission → Permission → Bool
includes ps p = any (λ q. same_permission q p) ps

unfoldable pub permission_matrix : Role → List Permission
permission_matrix owner = permissions
permission_matrix admin = filter (λ p. not (same_permission p org_settings_delete)) permissions
permission_matrix member =
    org_settings_read ∷ org_members_read ∷ project_create ∷ project_read ∷ project_update
    ∷ environment_create ∷ environment_read ∷ environment_update ∷ secret_read ∷ secret_write
    ∷ secret_delete ∷ []
permission_matrix read_only =
    org_settings_read ∷ org_members_read ∷ project_read ∷ environment_read ∷ secret_read ∷ []

unfoldable pub role_rank : Role → ℕ
role_rank read_only = 0
role_rank member = 1
role_rank admin = 2
role_rank owner = 3

-- An override role, read as a role.
unfoldable pub as_role : ProjectOverrideRole → Role
as_role admin = admin
as_role member = member
as_role read_only = read_only

unfoldable pub project_scoped_permissions : List Permission
project_scoped_permissions =
    project_read ∷ project_update ∷ project_archive ∷ project_delete ∷ environment_create
    ∷ environment_read ∷ environment_update ∷ environment_delete ∷ secret_read ∷ secret_write
    ∷ secret_delete ∷ api_key_read ∷ api_key_create ∷ api_key_revoke ∷ []

unfoldable pub protected_write_permissions : List Permission
protected_write_permissions =
    environment_create ∷ environment_update ∷ environment_delete ∷ secret_write ∷ secret_delete ∷ []

pub record AuthorizationContext : Type 0 where
  pub org_role : Role
  pub project_role : Option ProjectOverrideRole
  pub protected_environment : Bool

pub data Reason : Type 0 where
  allowed role protected_environment : Reason

pub record AuthorizationDecision : Type 0 where
  pub allowed : Bool
  pub permission : Permission
  pub effective_role : Role
  pub reason : Reason

unfoldable pub effective_role : Role → Option ProjectOverrideRole → Role
unfolding role_rank as_role
effective_role org_role none = org_role
effective_role org_role (some project_role) =
    if ltb (role_rank (as_role project_role)) (role_rank org_role)
    then as_role project_role
    else org_role

-- `role !== "owner" && role !== "admin"`.
unfoldable pub below_admin : Role → Bool
below_admin owner = false
below_admin admin = false
below_admin _ = true

unfoldable pub authorize : AuthorizationContext → Permission → AuthorizationDecision
authorize context permission =
    let role =
      if includes project_scoped_permissions permission
      then effective_role context.org_role context.project_role
      else context.org_role in
    if not (includes (permission_matrix role) permission)
    then record {
      allowed = false;
      permission = permission;
      effective_role = role;
      reason = Reason.role;
    }
    else if context.protected_environment
        && includes protected_write_permissions permission
        && below_admin role
    then record {
      allowed = false;
      permission = permission;
      effective_role = role;
      reason = Reason.protected_environment;
    }
    else record {
      allowed = true;
      permission = permission;
      effective_role = role;
      reason = Reason.allowed;
    }

-- `none` where `requirePermission` returns, and the decision that it throws otherwise.
unfoldable pub require_permission : AuthorizationContext → Permission → Option AuthorizationDecision
require_permission context permission =
    let decision = authorize context permission in
    if not decision.allowed then some decision else none

pub authorization_snapshot : AuthorizationContext → List (Permission × Bool)
authorization_snapshot context = map (λ p. (p, (authorize context p).allowed)) permissions

pub data UiAction : Type 0 where
  create_project edit_project archive_project delete_project : UiAction
  create_environment edit_environment delete_environment : UiAction
  reveal_secret edit_secret delete_secret : UiAction
  view_api_keys create_api_key revoke_api_key view_audit_log export_audit_log : UiAction
  invite_member manage_members edit_organization delete_organization : UiAction

-- The position in `uiActionPermissions`, by which two actions are compared.
abbrev pub action_position : UiAction → ℕ
action_position create_project = 0
action_position edit_project = 1
action_position archive_project = 2
action_position delete_project = 3
action_position create_environment = 4
action_position edit_environment = 5
action_position delete_environment = 6
action_position reveal_secret = 7
action_position edit_secret = 8
action_position delete_secret = 9
action_position view_api_keys = 10
action_position create_api_key = 11
action_position revoke_api_key = 12
action_position view_audit_log = 13
action_position export_audit_log = 14
action_position invite_member = 15
action_position manage_members = 16
action_position edit_organization = 17
action_position delete_organization = 18

abbrev pub same_action : UiAction → UiAction → Bool
same_action a b = action_position a == action_position b

pub ui_action_permissions : List (UiAction × Permission)
ui_action_permissions =
    (create_project, project_create)
    ∷ (edit_project, project_update)
    ∷ (archive_project, project_archive)
    ∷ (delete_project, project_delete)
    ∷ (create_environment, environment_create)
    ∷ (edit_environment, environment_update)
    ∷ (delete_environment, environment_delete)
    ∷ (reveal_secret, secret_read)
    ∷ (edit_secret, secret_write)
    ∷ (delete_secret, secret_delete)
    ∷ (view_api_keys, api_key_read)
    ∷ (create_api_key, api_key_create)
    ∷ (revoke_api_key, api_key_revoke)
    ∷ (view_audit_log, audit_read)
    ∷ (export_audit_log, audit_export)
    ∷ (invite_member, org_members_invite)
    ∷ (manage_members, org_members_manage)
    ∷ (edit_organization, org_settings_update)
    ∷ (delete_organization, org_settings_delete)
    ∷ []

pub ui_action_snapshot : AuthorizationContext → List (UiAction × Bool)
ui_action_snapshot context =
    map (λ (action, permission). (action, (authorize context permission).allowed))
      ui_action_permissions
