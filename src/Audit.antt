-- ===== src/Audit.antt =====
-- packages/audit/src/index.ts: the events, and the validation that stands before every insert.
pub mod Metadata
pub mod Size
pub mod Accepted
use himitsu.Prelude.{ℕ, Bool, true, false, Option, none, some, [], if◌then◌else◌, ◌&&◌, ltb, ◌*◌}
use himitsu.Text.{Text, codes}
use himitsu.Errors.{Error, Result, ok, err, unsafe_metadata, invalid_event}
use himitsu.Audit.Metadata.{object, Fields, end, field, validate_metadata}
use himitsu.Audit.Size.{value_bytes}

pub data AuditAction : Type 0 where
  organization_created organization_updated organization_audit_retention_updated : AuditAction
  auth_signup auth_email_verified auth_login_succeeded auth_login_failed auth_logout : AuditAction
  auth_password_reset_requested auth_password_reset_completed : AuditAction
  api_key_used api_key_created api_key_revoked : AuditAction
  project_created project_updated project_archived project_restored project_deleted : AuditAction
  environment_created environment_updated environment_reordered : AuditAction
  environment_deleted environment_restored : AuditAction
  consistency_acknowledged consistency_ignored consistency_cleared : AuditAction
  secret_created secret_read secret_updated secret_deleted : AuditAction
  secret_exported secret_imported secret_promoted : AuditAction
  membership_invited membership_invitation_revoked membership_accepted : AuditAction
  membership_removed membership_role_changed membership_project_role_changed : AuditAction

pub data AuditActor : Type 0 where
  user : ℕ → AuditActor
  api_key : ℕ → AuditActor
  system : AuditActor

-- The id of a resource: a UUID, or two of them joined by a colon.
pub data ResourceId : Type 0 where
  uuid : ℕ → ResourceId
  joined : ℕ → ℕ → ResourceId

pub data ResourceType : Type 0 where
  organization project environment secret project_membership : ResourceType

pub record AuditEvent : Type 0 where
  pub org_id : ℕ
  pub actor : AuditActor
  pub action : AuditAction
  pub resource_type : ResourceType
  pub resource_id : Option ResourceId
  pub project_id : Option ℕ
  pub environment_id : Option ℕ
  pub before : Option Fields
  pub after : Option Fields
  pub details : Option Fields

-- `action.startsWith("secret.")`.
unfoldable pub is_secret_action : AuditAction → Bool
is_secret_action secret_created = true
is_secret_action secret_read = true
is_secret_action secret_updated = true
is_secret_action secret_deleted = true
is_secret_action secret_exported = true
is_secret_action secret_imported = true
is_secret_action secret_promoted = true
is_secret_action _ = false

-- The tests for an empty organization, action, resource type or actor id cannot fail on these
-- types: an id is a UUID and the rest are enumerations.
unfoldable pub validate_event : AuditEvent → Result (Unit {0})
validate_event event = elim event.resource_id [
  | none ↦ if is_secret_action event.action then err (Error.audit invalid_event) else ok tt
  | some id ↦ ok tt
]

-- One entry of the record that `metadataFor` builds, in front of the others.
abbrev pub with_field : Text → Option Fields → Fields → Fields
with_field key none rest = rest
with_field key (some fields) rest = field key (object fields) rest

unfoldable pub metadata_of : AuditEvent → Fields
metadata_of event =
    with_field (codes "before") event.before
      (with_field (codes "after") event.after (with_field (codes "details") event.details end))

abbrev pub valid_part : Option Fields → Bool
valid_part none = true
valid_part (some fields) = validate_metadata (object fields) 0

unfoldable pub metadata_for : AuditEvent → Result Fields
unfolding metadata_of
metadata_for event =
    if valid_part event.before && valid_part event.after && valid_part event.details
    then if ltb (64 * 1024) (value_bytes (object (metadata_of event)))
      then err (Error.audit unsafe_metadata)
      else ok (metadata_of event)
    else err (Error.audit unsafe_metadata)
