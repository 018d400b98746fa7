-- ===== src/Secrets/Changes.antt =====
-- `update`, `rollback` and `delete` of packages/secrets/src/index.ts.
use himitsu.Prelude.{ℕ, Bool, true, Option, none, some, List, ◌++◌, ltb, leb, ◌==◌, or_else, length}
use himitsu.Text.{Text, codes, decimal}
use himitsu.Authz.{secret_write, secret_delete}
use himitsu.Errors.{invalid_input, version_conflict, ok}
use himitsu.Exec.{Exec, pure, query, guard, ◌>>=◌, ◌>>◌}
use himitsu.Audit.{secret_updated, secret_deleted}
use himitsu.Audit.Metadata.{end}
use himitsu.Database.{Database, SecretRow}
use himitsu.Tenant.{require}
use himitsu.Crypto.{Cipher, LocalMasterKey}
use himitsu.Crypto.Envelope.{Randomness}
use himitsu.Secrets.{SecretMetadata, failed}
use himitsu.Secrets.Utf8.{decode}
use himitsu.Secrets.Store.{
  environment, metadata_row, version_value_row, metadata_from_row, decrypt_value, update_secret,
}
use himitsu.Secrets.Writing.{
  secret_event, key_and_version, write_metadata, write_version, record_if,
}

-- `expected !== undefined && expected !== version`.
abbrev pub is_expected : Option ℕ → ℕ → Bool
is_expected none version = true
is_expected (some expected) version = expected == version

abbrev pub deleted : ℕ → SecretRow → SecretRow
deleted now s = record s { deleted_at = some now }

abbrev pub is_blank : Option Text → Bool
is_blank none = true
is_blank (some s) = length s == 0

unfoldable pub rollback_note : Option Text → ℕ → Text
rollback_note change_note target =
    or_else change_note (codes "Rollback to version " ++ decimal target)

module _ (actor : ℕ) where
  module _ (cipher : Cipher) (master : LocalMasterKey) where
    -- The last step of `update`: a version for a value, else the notes and tags alone.
    unfoldable pub replace :
        Randomness
        → SecretRow
        → Option Text
        → Option (Option Text)
        → Option Text
        → Option (List ℕ)
        → Exec Database SecretMetadata
    replace random before none notes change_note tag_ids = do
      guard (is_blank change_note) (failed invalid_input)
      write_metadata actor before notes tag_ids
    replace random before (some value) notes change_note tag_ids =
        write_version actor cipher master random before
          (record { value = value; notes = notes; change_note = change_note; tag_ids = tag_ids })
          secret_updated true

    unfoldable pub update :
        Randomness
        → ℕ
        → Option Text
        → Option (Option Text)
        → Option Text
        → Option ℕ
        → Option (List ℕ)
        → Exec Database SecretMetadata
    update random secret_id value notes change_note expected_version tag_ids = do
      before ← query (metadata_row secret_id)
      e ← query (environment before.project_id before.environment_id)
      query (require actor (some before.project_id) e.protected secret_write)
      guard (is_expected expected_version before.current_version) (failed version_conflict)
      replace random before value notes change_note tag_ids

    unfoldable pub rollback :
        Randomness → ℕ → ℕ → Option ℕ → Option Text → Exec Database SecretMetadata
    rollback random secret_id target expected_version change_note = do
      guard (leb 1 target) (failed invalid_input)
      before ← query (metadata_row secret_id)
      e ← query (environment before.project_id before.environment_id)
      query (require actor (some before.project_id) e.protected secret_write)
      guard (is_expected expected_version before.current_version) (failed version_conflict)
      guard (ltb target before.current_version) (failed invalid_input)
      row ← query (version_value_row secret_id target)
      plaintext ← decrypt_value cipher master row.0 row.1 target
      write_version actor cipher master random before
          (record {
            value = decode plaintext;
            notes = none;
            change_note = some (rollback_note change_note target);
            tag_ids = none;
          })
          secret_updated true

  unfoldable pub delete : ℕ → Exec Database SecretMetadata
  delete secret_id = do
    row ← query (metadata_row secret_id)
    e ← query (environment row.project_id row.environment_id)
    query (require actor (some row.project_id) e.protected secret_delete)
    result ← query (λ db. ok (metadata_from_row db row))
    now ← query (λ db. ok db.transaction_now)
    update_secret secret_id (deleted now)
    record_if actor true (λ org_id.
        secret_event org_id actor secret_deleted row (some (key_and_version row end)) none)
    pure result
