-- ===== src/Authz/Interface.antt =====
-- The actions that the interface shows, `uiActionSnapshot` of packages/authz/src/index.ts, by rank.
use himitsu.Prelude.{
  arith, ℕ, ◌≡◌, Bool, true, false, ◌&&◌, ◌||◌, not, Option, none, some, find, leb, if◌then◌else◌,
}
use himitsu.Authz.{
  Role, ProjectOverrideRole, role_rank, as_role, effective_role, includes, permission_matrix,
  project_scoped_permissions, protected_write_permissions, below_admin, authorize, UiAction,
  create_project, edit_project, create_environment, edit_environment, delete_environment,
  reveal_secret, edit_secret, delete_secret, view_audit_log, export_audit_log, invite_member,
  manage_members, edit_organization, delete_organization, same_action, ui_action_permissions,
  ui_action_snapshot,
}

-- The least rank for an action, where 0 is read only, 1 member, 2 admin and 3 owner.
abbrev pub least_rank : UiAction → ℕ
least_rank reveal_secret = 0
least_rank create_project = 1
least_rank edit_project = 1
least_rank create_environment = 1
least_rank edit_environment = 1
least_rank edit_secret = 1
least_rank delete_secret = 1
least_rank delete_organization = 3
least_rank _ = 2

-- The actions on what a project holds.
abbrev pub is_of_project : UiAction → Bool
is_of_project create_project = false
is_of_project view_audit_log = false
is_of_project export_audit_log = false
is_of_project invite_member = false
is_of_project manage_members = false
is_of_project edit_organization = false
is_of_project delete_organization = false
is_of_project _ = true

-- The actions that change an environment or its secrets.
abbrev pub is_environment_write : UiAction → Bool
is_environment_write create_environment = true
is_environment_write edit_environment = true
is_environment_write delete_environment = true
is_environment_write edit_secret = true
is_environment_write delete_secret = true
is_environment_write _ = false

abbrev pub needed_rank : Bool → UiAction → ℕ
needed_rank protected_environment a =
    if protected_environment && is_environment_write a then 2 else least_rank a

abbrev pub within_override : ℕ → Option ProjectOverrideRole → Bool
within_override rank none = true
within_override rank (some r) = leb rank (role_rank (as_role r))

-- The interface shows an action exactly where the ranks allow it: reading secrets takes any role,
-- creating or editing a project, an environment or a secret and deleting a secret takes a member,
-- deleting the organization its owner, and all else an admin; a write to a protected environment
-- takes an admin. The organization role must have that rank, and for an action on a project so must
-- the project override, where there is one.
pub ui_action_snapshot_ranks :
    (org : Role) (project : Option ProjectOverrideRole) (guarded : Bool) (a : UiAction)
    → find
        (λ e. same_action e.0 a)
        (ui_action_snapshot
          (record { org_role = org; project_role = project; protected_environment = guarded }))
      ≡ some (
        a,
        leb (needed_rank guarded a) (role_rank org)
            && (not (is_of_project a) || within_override (needed_rank guarded a) project),
      )
unfolding ui_action_permissions ui_action_snapshot authorize effective_role permission_matrix
    role_rank as_role includes project_scoped_permissions protected_write_permissions below_admin
ui_action_snapshot_ranks org project guarded create_project = ground arith
ui_action_snapshot_ranks org project guarded edit_project = ground arith
ui_action_snapshot_ranks org project guarded _ = ground arith
