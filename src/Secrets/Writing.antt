-- ===== src/Secrets/Writing.antt =====
-- `create` of packages/secrets/src/index.ts, and the private methods that every write goes through.
use himitsu.Prelude.{
  ℕ, suc, Bool, true, false, ◌&&◌, Option, none, some, List, [], find, update_where, is_none,
  is_some, ◌==◌, or_else, if◌then◌else◌,
}
use himitsu.Text.{Text, codes}
use himitsu.Authz.{secret_write}
use himitsu.Errors.{key_exists, ok}
use himitsu.Exec.{Exec, query, write, ◌>>=◌, ◌>>◌, catch_unique, kept_or}
use himitsu.Audit.{
  AuditEvent, AuditAction, AuditActor, ResourceId, ResourceType, secret_created, secret_updated,
}
use himitsu.Audit.Metadata.{string, number, boolean, Fields, end, field}
use himitsu.Database.{Database, SecretRow, SecretVersionRow}
use himitsu.Tenant.{require, record_in_transaction}
use himitsu.Crypto.{Cipher, LocalMasterKey, EncryptedSecretValue}
use himitsu.Crypto.Envelope.{Randomness}
use himitsu.Secrets.{
  SecretMetadata, SetSecretInput, VersionInput, Draws, failed, validate_secret_key,
  validate_secret_value, validate_notes, validate_change_note,
}
use himitsu.Secrets.Store.{
  environment, metadata_row, metadata_from_row, encrypt_value, insert_version, insert_secret,
  update_secret, retag, is_key_of,
}

abbrev pub secret_event :
    ℕ → ℕ → AuditAction → SecretRow → Option Fields → Option Fields → AuditEvent
secret_event org_id actor action s before after = record {
  org_id = org_id;
  actor = AuditActor.user actor;
  action = action;
  resource_type = ResourceType.secret;
  resource_id = some (ResourceId.uuid s.id);
  project_id = some s.project_id;
  environment_id = some s.environment_id;
  before = before;
  after = after;
  details = none;
}

abbrev pub key_and_version : SecretRow → Fields → Fields
key_and_version s rest =
    field (codes "key") (string s.key) (field (codes "version") (number s.current_version) rest)

abbrev pub state_of : SecretRow → Fields → Fields
state_of s rest = key_and_version s (field (codes "notesPresent") (boolean (is_some s.notes)) rest)

abbrev pub is_update : AuditAction → Bool
is_update secret_updated = true
is_update _ = false

abbrev pub new_version : ℕ → SecretRow → ℕ → EncryptedSecretValue → Option Text → SecretVersionRow
new_version actor s version e change_note = record {
  secret_id = s.id;
  version = version;
  value_ciphertext = e.ciphertext;
  nonce = e.nonce;
  auth_tag = e.auth_tag;
  encryption_key_version = e.key_version;
  author_user_id = some actor;
  change_note = change_note;
}

abbrev pub at_version : ℕ → Option Text → SecretRow → SecretRow
at_version version notes s = record s { current_version = version; notes = notes }

abbrev pub with_notes : Option Text → SecretRow → SecretRow
with_notes notes s = record s { notes = notes }

-- `SELECT … WHERE deleted_at IS NOT NULL`, without the marks of a deleted project or environment.
abbrev pub is_recoverable : ℕ → ℕ → Text → SecretRow → Bool
is_recoverable project_id environment_id key s =
    is_key_of project_id environment_id key s
    && is_some s.deleted_at
    && is_none s.deleted_by_project_at
    && is_none s.deleted_by_environment_at

abbrev pub new_secret : ℕ → ℕ → ℕ → Text → Option Text → SecretRow
new_secret id project_id environment_id key notes = record {
  id = id;
  project_id = project_id;
  environment_id = environment_id;
  key = key;
  notes = notes;
  current_version = 0;
  deleted_at = none;
  deleted_by_project_at = none;
  deleted_by_environment_at = none;
}

abbrev pub undelete : SecretRow → SecretRow
undelete s = record s { deleted_at = none }

module _ (actor : ℕ) where
  abbrev pub record_if : Bool → (ℕ → AuditEvent) → Exec Database (Unit {0})
  record_if record_audit event db =
      if record_audit then record_in_transaction (event db.org_id) db else (ok tt, db)

  abbrev pub view_of : ℕ → Exec Database SecretMetadata
  view_of secret_id = do
    row ← query (metadata_row secret_id)
    query (λ db. ok (metadata_from_row db row))

  -- `UPDATE secrets … RETURNING`, the tags, the event and the answer, in which both writes end.
  unfoldable pub rewrite_row :
      ℕ
      → (SecretRow → SecretRow)
      → Option (List ℕ)
      → Bool
      → (SecretRow → ℕ → AuditEvent)
      → Exec Database SecretMetadata
  rewrite_row secret_id f tag_ids record_audit event = do
    update_secret secret_id f
    row ← query (metadata_row secret_id)
    retag row.id tag_ids
    record_if record_audit (event row)
    view_of row.id

  abbrev pub metadata_event : SecretRow → SecretRow → ℕ → AuditEvent
  metadata_event before row org_id =
      secret_event org_id actor secret_updated row (some (state_of before end))
        (some (state_of row (field (codes "valueChanged") (boolean false) end)))

  abbrev pub version_event : SecretRow → AuditAction → SecretRow → ℕ → AuditEvent
  version_event before action row org_id =
      secret_event org_id actor action row
        (if is_update action then some (state_of before end) else none) (some (state_of row end))

  -- `#writeMetadata`.
  unfoldable pub write_metadata :
      SecretRow → Option (Option Text) → Option (List ℕ) → Exec Database SecretMetadata
  write_metadata before notes tag_ids = do
    valid_notes ← query (λ _. kept_or validate_notes before.notes notes)
    rewrite_row before.id (with_notes valid_notes) tag_ids true (metadata_event before)

  module _ (cipher : Cipher) (master : LocalMasterKey) where
    -- `#writeVersion`.
    unfoldable pub write_version :
        Randomness → SecretRow → VersionInput → AuditAction → Bool → Exec Database SecretMetadata
    write_version random before input action record_audit = do
      plaintext ← query (λ _. validate_secret_value input.value)
      notes ← query (λ _. kept_or validate_notes before.notes input.notes)
      change_note ← query (λ _. validate_change_note input.change_note)
      e ← encrypt_value cipher master random plaintext before (suc before.current_version)
      insert_version (new_version actor before (suc before.current_version) e change_note)
      rewrite_row before.id (at_version (suc before.current_version) notes) input.tag_ids
          record_audit (version_event before action)

    abbrev pub first_version : SetSecretInput → Option Text → Option Text → VersionInput
    first_version input notes change_note = record {
      value = input.value;
      notes = some notes;
      change_note = change_note;
      tag_ids = some (or_else input.tag_ids []);
    }

    -- The recoverable secret of the key comes back with a new version; else the secret is inserted.
    unfoldable pub revive_or_insert :
        Draws
        → ℕ
        → ℕ
        → Text
        → SetSecretInput
        → Option Text
        → Option Text
        → Bool
        → Option SecretRow
        → Exec Database SecretMetadata
    revive_or_insert draws project_id environment_id key input notes change_note record_audit
          (some recoverable) =
        do
          write (λ db. record db {
            secrets = update_where (λ (s : SecretRow). s.id == recoverable.id) undelete db.secrets;
          })
          write_version draws.random recoverable (first_version input notes change_note)
              secret_created record_audit
    revive_or_insert draws project_id environment_id key input notes change_note record_audit none =
        catch_unique (failed key_exists) (
          insert_secret (new_secret draws.secret_id project_id environment_id key notes)
          >> write_version draws.random
              (new_secret draws.secret_id project_id environment_id key notes)
              (first_version input notes change_note) secret_created record_audit)

    -- `#create`.
    unfoldable pub create_secret :
        Draws → ℕ → ℕ → SetSecretInput → Bool → Bool → Exec Database SecretMetadata
    create_secret draws project_id environment_id input authorized record_audit = do
      e ← query (environment project_id environment_id)
      query (λ db.
          if authorized then ok tt else require actor (some project_id) e.protected secret_write db)
      key ← query (λ _. validate_secret_key input.key input.allow_non_conforming_key)
      notes ← query (λ _. validate_notes (or_else input.notes none))
      change_note ← query (λ _. validate_change_note input.change_note)
      deleted ← query (λ db. ok (find (is_recoverable project_id environment_id key) db.secrets))
      revive_or_insert draws project_id environment_id key input notes change_note record_audit
          deleted

    unfoldable pub create : Draws → ℕ → ℕ → SetSecretInput → Exec Database SecretMetadata
    create draws project_id environment_id input =
        create_secret draws project_id environment_id input false true
