-- ===== src/Secrets/Reading.antt =====
-- `get`, `listVersions` and `compareVersions` of packages/secrets/src/index.ts.
use himitsu.Prelude.{
  ℕ, Bool, ◌&&◌, not, Option, none, some, List, map, filter, leb, ◌==◌, if◌then◌else◌, sort_by,
}
use himitsu.Text.{Text, text_eq, codes}
use himitsu.Authz.{secret_read}
use himitsu.Errors.{invalid_input, ok}
use himitsu.Exec.{Exec, pure, query, guard, ◌>>=◌, ◌>>◌}
use himitsu.Audit.{AuditEvent, AuditAction, AuditActor, ResourceId, ResourceType}
use himitsu.Audit.Metadata.{string, number, boolean, Fields, end, field}
use himitsu.Database.{Database, SecretRow, SecretVersionRow}
use himitsu.Tenant.{require, record_in_transaction}
use himitsu.Crypto.{Bytes, Cipher, LocalMasterKey}
use himitsu.Secrets.{SecretWithValue, failed}
use himitsu.Secrets.Utf8.{decode}
use himitsu.Secrets.Store.{
  environment, metadata_row, value_row, version_value_row, metadata_from_row, decrypt_value,
}
use himitsu.Secrets.Writing.{key_and_version}

abbrev pub read_event : ℕ → ℕ → ℕ → ℕ → ℕ → Fields → AuditEvent
read_event org_id actor secret_id project_id environment_id details = record {
  org_id = org_id;
  actor = AuditActor.user actor;
  action = AuditAction.secret_read;
  resource_type = ResourceType.secret;
  resource_id = some (ResourceId.uuid secret_id);
  project_id = some project_id;
  environment_id = some environment_id;
  before = none;
  after = none;
  details = some details;
}

pub record SecretVersionMetadata : Type 0 where
  pub version : ℕ
  pub author_user_id : Option ℕ
  pub change_note : Option Text
  pub encryption_key_version : ℕ
  pub current : Bool

pub record SecretVersionComparison : Type 0 where
  pub from_version : ℕ
  pub to_version : ℕ
  pub changed : Bool
  pub masked : Bool
  pub from_value : Option Text
  pub to_value : Option Text

-- Later versions first.
abbrev pub version_before : SecretVersionRow → SecretVersionRow → Bool
version_before a b = leb b.version a.version

abbrev version_view : SecretRow → SecretVersionRow → SecretVersionMetadata
version_view s v = record {
  version = v.version;
  author_user_id = v.author_user_id;
  change_note = v.change_note;
  encryption_key_version = v.encryption_key_version;
  current = v.version == s.current_version;
}

abbrev pub shown : Bool → Bytes → Option Text
shown reveal plaintext = if reveal then some (decode plaintext) else none

abbrev comparison_details : ℕ → ℕ → Bool → Bool → Fields
comparison_details from_version to_version reveal changed =
    field (codes "operation") (string (codes "version_compare")) (
      field (codes "fromVersion") (number from_version) (
        field (codes "toVersion") (number to_version) (
          field (codes "revealed") (boolean reveal)
            (field (codes "changed") (boolean changed) end))))

module _ (actor : ℕ) where
  -- `requirePermission(…, "secret.read")` on the environment of a secret.
  abbrev pub readable : ℕ → ℕ → Exec Database (Unit {0})
  readable project_id environment_id = do
    e ← query (environment project_id environment_id)
    query (require actor (some project_id) e.protected secret_read)

  unfoldable pub list_versions : ℕ → Exec Database (List SecretVersionMetadata)
  list_versions secret_id = do
    secret ← query (metadata_row secret_id)
    readable secret.project_id secret.environment_id
    query (λ db. ok (
        map (version_view secret) (
          sort_by version_before
            (filter (λ (v : SecretVersionRow). v.secret_id == secret_id) db.secret_versions))))

  module _ (cipher : Cipher) (master : LocalMasterKey) where
    unfoldable pub get : ℕ → Exec Database SecretWithValue
    get secret_id = do
      row ← query (value_row secret_id)
      readable row.0.project_id row.0.environment_id
      plaintext ← decrypt_value cipher master row.0 row.1 row.0.current_version
      secret ←
          query
            (λ db. ok (record { metadata = metadata_from_row db row.0; value = decode plaintext }))
      org_id ← query (λ db. ok db.org_id)
      record_in_transaction (
          read_event org_id actor row.0.id row.0.project_id row.0.environment_id
            (key_and_version row.0 end))
      pure secret

    -- The missing of either version is one error.
    unfoldable pub compare_versions : ℕ → ℕ → ℕ → Bool → Exec Database SecretVersionComparison
    compare_versions secret_id from_version to_version reveal = do
      guard (leb 1 from_version && leb 1 to_version) (failed invalid_input)
      secret ← query (metadata_row secret_id)
      readable secret.project_id secret.environment_id
      from ← query (version_value_row secret_id from_version)
      to ← query (version_value_row secret_id to_version)
      from_plaintext ← decrypt_value cipher master from.0 from.1 from_version
      to_plaintext ← λ db.
          if from_version == to_version
          then (ok from_plaintext, db)
          else decrypt_value cipher master to.0 to.1 to_version db
      org_id ← query (λ db. ok db.org_id)
      record_in_transaction (
          read_event org_id actor secret_id secret.project_id secret.environment_id (
            comparison_details from_version to_version reveal
              (not (text_eq from_plaintext to_plaintext))))
      pure (record {
        from_version = from_version;
        to_version = to_version;
        changed = not (text_eq from_plaintext to_plaintext);
        masked = not reveal;
        from_value = shown reveal from_plaintext;
        to_value = shown reveal to_plaintext;
      })
