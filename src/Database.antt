-- ===== src/Database.antt =====
-- The tables of packages/database/migrations, as a tenant's transaction sees them: row-level
-- security leaves the rows of one organization, so `org_id` is a field of the whole and no column.
-- Ids are UUIDs, read as numbers; instants are milliseconds. Columns that no modelled decision reads
-- (created_at, updated_at, config_version, names and colours of tags) are left out, also where an
-- answer carries them.
use himitsu.Prelude.{ℕ, Bool, Option, List}
use himitsu.Text.{Text}
use himitsu.Authz.{Role, ProjectOverrideRole}
use himitsu.Audit.{AuditEvent}
use himitsu.Crypto.{Bytes}
use himitsu.Crypto.Keys.Table.{KeyTable}

pub record MembershipRow : Type 0 where
  pub user_id : ℕ
  pub role : Role
  pub active : Bool

pub record OverrideRow : Type 0 where
  pub project_id : ℕ
  pub user_id : ℕ
  pub role : ProjectOverrideRole
  pub created_by_user_id : ℕ

pub record ProjectRow : Type 0 where
  pub id : ℕ
  pub name : Text
  pub slug : Text
  pub description : Option Text
  -- `settings.defaultEnvironments`, where it is an array of strings.
  pub default_environments : Option (List Text)
  pub archived_at : Option ℕ
  pub deleted_at : Option ℕ
  pub purge_after : Option ℕ

pub record EnvironmentRow : Type 0 where
  pub id : ℕ
  pub project_id : ℕ
  pub name : Text
  pub slug : Text
  pub display_order : ℕ
  pub protected : Bool
  pub deleted_at : Option ℕ
  pub purge_after : Option ℕ
  pub deleted_by_project_at : Option ℕ

pub record SecretRow : Type 0 where
  pub id : ℕ
  pub project_id : ℕ
  pub environment_id : ℕ
  pub key : Text
  pub notes : Option Text
  pub current_version : ℕ
  pub deleted_at : Option ℕ
  pub deleted_by_project_at : Option ℕ
  pub deleted_by_environment_at : Option ℕ

pub record SecretVersionRow : Type 0 where
  pub secret_id : ℕ
  pub version : ℕ
  pub value_ciphertext : Bytes
  pub nonce : Bytes
  pub auth_tag : Bytes
  pub encryption_key_version : ℕ
  pub author_user_id : Option ℕ
  pub change_note : Option Text

pub record SecretTagRow : Type 0 where
  pub secret_id : ℕ
  pub tag_id : ℕ

pub record ProjectTagRow : Type 0 where
  pub project_id : ℕ
  pub tag_id : ℕ

pub record Database : Type 0 where
  pub org_id : ℕ
  -- `now()`, which is the instant at which the transaction began.
  pub transaction_now : ℕ
  pub memberships : List MembershipRow
  pub overrides : List OverrideRow
  pub projects : List ProjectRow
  pub environments : List EnvironmentRow
  pub secrets : List SecretRow
  pub secret_versions : List SecretVersionRow
  pub secret_tags : List SecretTagRow
  -- `org_encryption_keys`, whose organization ids are texts, as everywhere in Crypto.
  pub encryption_keys : KeyTable
  pub tags : List ℕ
  pub project_tags : List ProjectTagRow
  pub audit_events : List AuditEvent
