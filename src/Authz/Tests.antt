-- ===== src/Authz/Tests.antt =====
-- Decisions of packages/authz/src/index.ts at given roles, and the theorems there.
use himitsu.Prelude.{leb, ◌&&◌, ◌||◌, not, ◌≤◌, ◌≡◌, refl, true, false, none, some, find, arith}
use himitsu.Authz.{
  edit_secret, owner, admin, member, ProjectOverrideRole, secret_read, secret_write, includes,
  permission_matrix, role_rank, as_role, project_scoped_permissions, protected_write_permissions,
  effective_role, below_admin, authorize, same_action, ui_action_snapshot,
}
use himitsu.Authz.Interface.{needed_rank, is_of_project, within_override, ui_action_snapshot_ranks}
use himitsu.Authz.Decision.{allows, allows_without_override, allows_mono, protected_write-role_rank}

narrowed_reads : allows owner (some ProjectOverrideRole.read_only) true secret_read ≡ true
unfolding authorize effective_role permission_matrix role_rank as_role includes
    project_scoped_permissions protected_write_permissions below_admin
narrowed_reads = refl

admin_writes : allows owner (some ProjectOverrideRole.admin) true secret_write ≡ true
unfolding authorize effective_role permission_matrix role_rank as_role includes
    project_scoped_permissions protected_write_permissions below_admin
admin_writes = refl

member_does_not_write_protected : allows member none true secret_write ≡ false
unfolding authorize effective_role permission_matrix role_rank as_role includes
    project_scoped_permissions protected_write_permissions below_admin
member_does_not_write_protected = refl

secret_write_is_guarded : includes protected_write_permissions secret_write ≡ true
unfolding includes protected_write_permissions
secret_write_is_guarded = refl

admin_below_owner : role_rank admin ≤ role_rank owner
unfolding role_rank
admin_below_owner = omega arith

admin_reads : allows admin (some ProjectOverrideRole.read_only) true secret_read ≡ true
unfolding authorize effective_role permission_matrix role_rank as_role includes
    project_scoped_permissions protected_write_permissions below_admin
admin_reads = refl

allows_without_override_example : allows owner none true secret_read ≡ true
allows_without_override_example =
    allows_without_override owner (some ProjectOverrideRole.read_only) true secret_read
      narrowed_reads

allows_mono_example : allows owner (some ProjectOverrideRole.read_only) true secret_read ≡ true
allows_mono_example =
    allows_mono admin owner (some ProjectOverrideRole.read_only) true secret_read admin_below_owner
      admin_reads

protected_write-role_rank_example :
    (2 ≤ role_rank (effective_role owner (some ProjectOverrideRole.admin))) × (2 ≤ role_rank owner)
protected_write-role_rank_example =
    protected_write-role_rank owner (some ProjectOverrideRole.admin) secret_write
      secret_write_is_guarded admin_writes

ui_action_snapshot_ranks_example :
    find
      (λ e. same_action e.0 edit_secret)
      (ui_action_snapshot (record {
        org_role = owner;
        project_role = some ProjectOverrideRole.member;
        protected_environment = true;
      }))
    ≡ some (
      edit_secret,
      leb (needed_rank true edit_secret) (role_rank owner)
          && (not (is_of_project edit_secret)
              || within_override (needed_rank true edit_secret) (some ProjectOverrideRole.member)),
    )
ui_action_snapshot_ranks_example =
    ui_action_snapshot_ranks owner (some ProjectOverrideRole.member) true edit_secret
