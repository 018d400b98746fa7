-- ===== src/Evaluation.antt =====
-- One name that opens what every service runs through, for the tests that evaluate a method.
pub mod Office
pub mod Transparent
use himitsu.Text.{
  text_eq, is_space, trim_start, keep_before, trim_end, trim, lower_unit, to_lower, is_slug_unit,
  is_slug_from, is_slug,
}
use himitsu.Text.Slug.{normalize_slug}
use himitsu.Authz.{
  includes, permission_matrix, role_rank, as_role, project_scoped_permissions,
  protected_write_permissions, effective_role, below_admin, authorize, require_permission,
}
use himitsu.Audit.{is_secret_action, validate_event, metadata_of, metadata_for}
use himitsu.Audit.Metadata.{is_forbidden_key, validate_metadata, validate_items, validate_fields}
use himitsu.Audit.Size.{value_bytes, item_bytes, field_bytes}
use himitsu.Tenant.{active_role, override_role, resolve, require, record_in_transaction}

unfoldable pub evaluation : Unit {0}
unfolding text_eq is_space trim_start keep_before trim_end trim lower_unit to_lower is_slug_unit
    is_slug_from is_slug normalize_slug includes permission_matrix role_rank as_role
    project_scoped_permissions protected_write_permissions effective_role below_admin authorize
    require_permission is_secret_action validate_event metadata_of metadata_for is_forbidden_key
    validate_metadata validate_items validate_fields value_bytes item_bytes field_bytes active_role
    override_role resolve require record_in_transaction
evaluation = tt
