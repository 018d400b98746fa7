-- ===== src/Secrets/Export/Service.antt =====
-- `serializeSecretExport` and `exportConfig` of packages/secrets/src/index.ts. The order of
-- `localeCompare` is a parameter.
use himitsu.Prelude.{
  if◌then◌else◌, or_else, ltb, ◌||◌, ℕ, Bool, true, false, ◌&&◌, Option, none, some, List, [], ◌∷◌,
  ◌++◌, find, length, ◌==◌, sort_by,
}
use himitsu.Text.{Text, codes}
use himitsu.Authz.{secret_read}
use himitsu.Errors.{Result, invalid_input, err, not_found, ok}
use himitsu.Exec.{Exec, pure, query, ◌>>=◌, ◌>>◌, required}
use himitsu.Audit.{AuditEvent, AuditActor, ResourceId, ResourceType, secret_exported}
use himitsu.Audit.Metadata.{string, number, boolean, Fields, end, field}
use himitsu.Database.{Database, ProjectRow}
use himitsu.Tenant.{require, record_in_transaction}
use himitsu.Crypto.{Cipher, LocalMasterKey}
use himitsu.Secrets.{failed}
use himitsu.Secrets.Utf8.{decode}
use himitsu.Secrets.Store.{environment, decrypt_value}
use himitsu.Secrets.Promotion.{Valued, valued_in}
use himitsu.Secrets.Export.{
  Entry, SecretExportFormat, dotenv, json, shell, lines_of, dotenv_line, shell_line,
}
use himitsu.Secrets.Export.Nested.{printed, flat_members, no_members, nested_members, print_node}

-- Behind the sorting of the entries.
unfoldable pub serialize_secret_export :
    List Entry → SecretExportFormat → Bool → Option Text → Result Text
unfolding print_node dotenv_line shell_line
serialize_secret_export entries dotenv nested delimiter = lines_of dotenv_line entries
serialize_secret_export entries shell nested delimiter = lines_of shell_line entries
serialize_secret_export entries json false delimiter =
    printed (ok (flat_members entries no_members))
serialize_secret_export entries json true delimiter =
    let d = or_else delimiter (codes "__") in
    if ltb (length d) 1 || ltb 10 (length d)
    then err (failed invalid_input)
    else printed (nested_members d entries no_members)

pub record SecretExportResult : Type 0 where
  pub format : SecretExportFormat
  pub filename : Text
  pub mime_type : Text
  pub content : Text
  pub secret_count : ℕ
  pub nested : Bool

abbrev is_json : SecretExportFormat → Bool
is_json json = true
is_json _ = false

abbrev name_of : SecretExportFormat → Text
name_of dotenv = codes "dotenv"
name_of json = codes "json"
name_of shell = codes "shell"

abbrev extension : SecretExportFormat → Text
extension dotenv = codes "env"
extension json = codes "json"
extension shell = codes "sh"

abbrev mime_type_of : SecretExportFormat → Text
mime_type_of json = codes "application/json"
mime_type_of _ = codes "text/plain; charset=utf-8"

abbrev export_event : ℕ → AuditActor → ℕ → ℕ → Fields → AuditEvent
export_event org_id actor project_id environment_id details = record {
  org_id = org_id;
  actor = actor;
  action = secret_exported;
  resource_type = ResourceType.environment;
  resource_id = some (ResourceId.uuid environment_id);
  project_id = some project_id;
  environment_id = some environment_id;
  before = none;
  after = none;
  details = some details;
}

module _ (cipher : Cipher) (master : LocalMasterKey) where
  -- The loop that decrypts the values.
  unfoldable pub entries_of : List Valued → Exec Database (List Entry)
  entries_of [] = pure []
  entries_of (v ∷ rest) = do
    plaintext ← decrypt_value cipher master v.secret v.version v.secret.current_version
    es ← entries_of rest
    pure (record { key = v.secret.key; value = decode plaintext } ∷ es)

  module _ (locale_before : Text → Text → Bool) where
    abbrev key_before : Entry → Entry → Bool
    key_before a b = locale_before a.key b.key

    unfoldable pub export_config :
        ℕ
        → ℕ
        → ℕ
        → SecretExportFormat
        → Bool
        → Option Text
        → AuditActor
        → Exec Database SecretExportResult
    export_config actor project_id environment_id format nest delimiter audit_actor = do
      e ← query (environment project_id environment_id)
      p ← query (λ db.
          required (find (λ (p : ProjectRow). p.id == e.project_id) db.projects) (failed not_found))
      query (require actor (some project_id) e.protected secret_read)
      rows ← query (λ db. ok (valued_in project_id environment_id none db))
      entries ← entries_of rows
      content ← query (λ db.
          serialize_secret_export (sort_by key_before entries) format (is_json format && nest)
            delimiter)
      org_id ← query (λ db. ok db.org_id)
      record_in_transaction (
          export_event org_id audit_actor project_id environment_id (
            field (codes "format") (string (name_of format)) (
              field (codes "nested") (boolean (is_json format && nest))
                (field (codes "count") (number (length entries)) end))))
      pure (record {
        format = format;
        filename = p.slug ++ b'-' ∷ (e.slug ++ b'.' ∷ extension format);
        mime_type = mime_type_of format;
        content = content;
        secret_count = length entries;
        nested = is_json format && nest;
      })
