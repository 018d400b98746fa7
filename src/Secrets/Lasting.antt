-- ===== src/Secrets/Lasting.antt =====
-- What the operations of packages/secrets/src/index.ts make of the stored versions.
pub mod Batches
pub mod Promotion
pub mod Runs
use himitsu.Prelude.{
  ◌⊎◌, ◌||◌, any, or_else, ℕ, suc, ◌<◌, ◌≤◌, ◌≡◌, ◌≢◌, refl, ap, sym, ◌∙◌, subst, inl, inr, Bool,
  true, false, ◌&&◌, Option, some, none, List, [], ◌∷◌, ◌++◌, find, find-holds, length, leb, ltb,
  ◌==◌, if◌then◌else◌, Bool-cases, Option-cases, arith, update_where,
}
use himitsu.Text.{Text, distinct_texts}
use himitsu.Authz.{secret_write, secret_read, secret_delete}
use himitsu.Errors.{Error, Result, ok, invalid_input, key_exists, version_conflict}
use himitsu.Exec.{
  pure, guard, query, ◌>>=◌, ◌>>◌, catch_unique-eq-ok, kept_or, Exec, bind-ok, query-ok, run-ok,
  guard-ok, bind-known, required-ok,
}
use himitsu.Audit.{AuditEvent, AuditAction, secret_updated, secret_created, secret_deleted}
use himitsu.Database.{Database, SecretRow, SecretVersionRow, SecretTagRow}
use himitsu.Tenant.{require, record_in_transaction, logged}
use himitsu.Tenant.Recording.{recorded}
use himitsu.Crypto.{Bytes, Cipher, IsCipher, LocalMasterKey}
use himitsu.Crypto.Keys.Table.Versions.{IsKeyed}
use himitsu.Crypto.Envelope.{Randomness}
use himitsu.Secrets.{
  Draws, SetSecretInput, validate_notes, validate_change_note, validate_secret_key, SecretMetadata,
  SecretWithValue, VersionInput, failed, max_bulk_items,
}
use himitsu.Secrets.Utf8.{utf8, decode, to_well_formed}
use himitsu.Secrets.Utf8.RoundTrip.{IsText, decode-utf8}
use himitsu.Secrets.Utf8.WellFormed.{utf8-to_well_formed}
use himitsu.Secrets.Store.{
  update_secret, is_live, is_version, environment, metadata_row, value_row, version_value_row,
  metadata_from_row, decrypt_value, insert_secret, is_key_of,
}
use himitsu.Audit.Metadata.{end}
use himitsu.Secrets.Writing.{
  key_and_version, write_metadata, with_notes, metadata_event, at_version, write_version,
  secret_event, record_if, new_secret, undelete, is_recoverable, first_version, revive_or_insert,
  create_secret, create,
}
use himitsu.Secrets.History.Pushing.{update-Updated, update_value-SparesOthers, Updated}
use himitsu.Secrets.History.RollingBack.{rollback-SparesOthers}
use himitsu.Secrets.History.Keeping.{update_notes-Keeps, get-Keeps}
use himitsu.Secrets.Versions.{update_secret-ok, rewrite_row-Finished, Finished}
use himitsu.Secrets.Changes.{
  delete, deleted, is_blank, update, replace, rollback, is_expected, rollback_note,
}
use himitsu.Secrets.Reading.{get, readable, read_event, list_versions, compare_versions}
use himitsu.Secrets.Sealing.{
  Holds, Preserves, Preserves-trans, Holds-kept, decrypt_value-Holds, decrypt_value-reads,
}
use himitsu.Secrets.Versions.Written.{Written, write_version-Written}
use himitsu.Secrets.History.{
  value_of, found_after, found_elsewhere, Texts, HasHistory, Texts-kept, Texts-at_version,
  value_of-Holds, value_of-some,
}
use himitsu.Secrets.History.Effects.{Same, history_here, history_elsewhere}
use himitsu.Secrets.History.Reading.{readable_then, answer_logged}
use himitsu.Secrets.History.Rows.{
  insert_secret-ok, undeleted_here, undeleted_elsewhere, rows_preserved, shown_by, Texts-undelete,
}
use himitsu.Secrets.Batches.{normalize, keys_of, is_live_key, Keyed, set_one, set_all, bulk_set}
use himitsu.Secrets.Batches.Importing.{
  Progress, import_one, import_all, import_batch, SecretImportStrategy, SecretImportFormat,
}
use himitsu.Secrets.Promotion.{
  Valued, authorize_promotion, values_differ, preview_one, preview_items, promotion_preview,
  preview_promotion, promote_value, promote_all, promote, target_of,
}
use himitsu.Secrets.History.Creation.{Spared, outcome, recoverable_of_key}

module _ (cipher : Cipher) (master : LocalMasterKey) where
  -- A method that, where it returns, has lost nothing.
  abbrev pub Lasts : {A : Type 0} → Exec Database A → Type 0
  Lasts {A} m =
      (db db' : Database) (a : A)
      → IsKeyed db.encryption_keys
      → m db ≡ (ok a, db')
      → Preserves cipher master db db'

  pub Preserves-refl : (db : Database) → IsKeyed db.encryption_keys → Preserves cipher master db db
  Preserves-refl db keyed = rows_preserved cipher master db.secrets db db refl keyed

  pub query-Lasts : {A : Type 0} (read : Database → Result A) → Lasts (query read)
  query-Lasts {A} read db db' a keyed h =
      let same = ap (λ (r : Result A × Database). r.1) h in
      subst (λ (b : Database). Preserves cipher master db b) same (Preserves-refl db keyed)

  pub bind-Lasts :
      {A B : Type 0} (m : Exec Database A) (f : A → Exec Database B)
      → Lasts m
      → ((a : A) → Lasts (f a))
      → Lasts (m >>= f)
  bind-Lasts m f first second db db' b keyed h =
      let (a, db1, h1, h2) = bind-ok m f db db' b h in
      let p = first db db1 a keyed h1 in
      Preserves-trans cipher master db db1 db' p (second a db1 db' b p.keyed h2)

  pub chosen-Lasts :
      {A : Type 0} (b : Bool) (m n : Exec Database A)
      → Lasts m
      → Lasts n
      → Lasts (λ db. if b then m db else n db)
  chosen-Lasts true m n first second = first
  chosen-Lasts false m n first second = second

  pub logged-Lasts :
      (event : AuditEvent) (db db' : Database)
      → IsKeyed db.encryption_keys
      → db' ≡ logged event db
      → Preserves cipher master db db'
  logged-Lasts event db db' keyed same =
      subst (λ (b : Database). Preserves cipher master db b) (sym same)
        (record {
          org = refl;
          keyed = keyed;
          keys = λ o version x found. (x, found, refl);
          versions = λ i version v found. found;
        })

  pub record-Lasts : (event : AuditEvent) → Lasts (record_in_transaction event)
  record-Lasts event db db' a keyed h =
      let logging = recorded event db in logged-Lasts event db db' keyed (ground (arith, logging))

  pub decrypt_value-Lasts :
      (s : SecretRow) (v : SecretVersionRow) (version : ℕ)
      → Lasts (decrypt_value cipher master s v version)
  decrypt_value-Lasts s v version db db' a keyed h =
      subst (λ (b : Database). Preserves cipher master db b)
        (sym (decrypt_value-reads cipher master s v version db db' a h)) (Preserves-refl db keyed)

  module _ (actor : ℕ) (lawful : IsCipher cipher) where
    pub write_version-Lasts :
        (random : Randomness) (before : SecretRow) (input : VersionInput) (action : AuditAction)
        (record_audit : Bool)
        → Lasts (write_version actor cipher master random before input action record_audit)
    write_version-Lasts random before input action record_audit db db' m keyed h =
        let w =
          write_version-Written actor cipher master random before input action record_audit lawful
            db db' m keyed h in
        w.preserved

    pub create_secret-Spared :
        (draws : Draws) (project_id environment_id : ℕ) (input : SetSecretInput)
        (authorized record_audit : Bool) (db db' : Database) (m : SecretMetadata)
        → IsKeyed db.encryption_keys
        → create_secret actor cipher master draws project_id environment_id input authorized
            record_audit db
          ≡ (ok m, db')
        → (key : Text) × (validate_secret_key input.key input.allow_non_conforming_key ≡ ok key)
          × Spared actor cipher lawful master draws project_id environment_id input db db' m key
    unfolding create_secret
    create_secret-Spared draws project_id environment_id input authorized record_audit db db' m
          keyed h =
        let (e, _, h1) = query-ok (environment project_id environment_id) _ db db' m h in
        let (_, _, h2) =
          query-ok
            (λ db.
              if authorized
              then ok tt
              else require actor (some project_id) e.protected secret_write db)
            _ db db' m h1 in
        let (key, valid, h3) =
          query-ok (λ _. validate_secret_key input.key input.allow_non_conforming_key) _ db db' m
            h2 in
        let (notes, _, h4) =
          query-ok (λ _. validate_notes (or_else input.notes none)) _ db db' m h3 in
        let (change_note, _, h5) =
          query-ok (λ _. validate_change_note input.change_note) _ db db' m h4 in
        let (spared, _) =
          outcome actor cipher lawful master draws project_id environment_id input db db' m key
            notes change_note record_audit
            (find (is_recoverable project_id environment_id key) db.secrets)
            (recoverable_of_key project_id environment_id key db.secrets) keyed h5 in
        (key, valid, spared)

    pub create_secret-Lasts :
        (draws : Draws) (project_id environment_id : ℕ) (input : SetSecretInput)
        (authorized record_audit : Bool)
        → Lasts (
            create_secret actor cipher master draws project_id environment_id input authorized
              record_audit)
    create_secret-Lasts draws project_id environment_id input authorized record_audit db db' m keyed
          h =
        let (_, _, spared) =
          create_secret-Spared draws project_id environment_id input authorized record_audit db db'
            m keyed h in
        spared.preserved

    pub update-Lasts :
        (random : Randomness) (secret_id : ℕ) (value : Option Text) (notes : Option (Option Text))
        (change_note : Option Text) (expected_version : Option ℕ) (tag_ids : Option (List ℕ))
        → Lasts (
            update actor cipher master random secret_id value notes change_note expected_version
              tag_ids)
    update-Lasts random secret_id none notes change_note expected_version tag_ids db db' m keyed h =
        let k =
          update_notes-Keeps cipher master lawful actor random secret_id db db' m keyed notes
            change_note expected_version tag_ids
            (update-Updated actor cipher lawful master random secret_id db db' m keyed none notes
              change_note expected_version tag_ids h) in
        k.preserved
    update-Lasts random secret_id (some value) notes change_note expected_version tag_ids db db' m
          keyed h =
        let k =
          update_value-SparesOthers actor cipher lawful master random secret_id db db' m keyed value
            notes change_note expected_version tag_ids
            (update-Updated actor cipher lawful master random secret_id db db' m keyed (some value)
              notes change_note expected_version tag_ids h) in
        k.preserved

    pub rollback-Lasts :
        (random : Randomness) (secret_id target : ℕ) (expected_version : Option ℕ)
        (change_note : Option Text)
        → Lasts (rollback actor cipher master random secret_id target expected_version change_note)
    rollback-Lasts random secret_id target expected_version change_note db db' m keyed h =
        let k =
          rollback-SparesOthers actor cipher lawful master random secret_id db db' m keyed target
            expected_version change_note h in
        k.preserved

  pub delete-Lasts : (actor secret_id : ℕ) → Lasts (delete actor secret_id)
  unfolding delete
  delete-Lasts actor secret_id db db' m keyed h =
      let (row, _, h1) = query-ok (metadata_row secret_id) _ db db' m h in
      let (e, _, h2) = query-ok (environment row.project_id row.environment_id) _ db db' m h1 in
      let (_, _, h3) =
        query-ok (require actor (some row.project_id) e.protected secret_delete) _ db db' m h2 in
      let now = db.transaction_now in
      let (_, db1, updating, h6) = bind-ok (update_secret secret_id (deleted now)) _ db db' m h3 in
      let p =
        rows_preserved cipher master _ db db1
          (update_secret-ok secret_id (deleted now) db db1 updating) keyed in
      let event = λ (org_id : ℕ).
        secret_event org_id actor secret_deleted row (some (key_and_version row end)) none in
      let (u, db2, recording, h7) = bind-ok (record_if actor true event) _ db1 db' m h6 in
      let q = record-Lasts (event db1.org_id) db1 db2 u p.keyed recording in
      let r = query-Lasts (λ b. ok (metadata_from_row db row)) db2 db' m q.keyed h7 in
      Preserves-trans cipher master db db1 db' p (Preserves-trans cipher master db1 db2 db' q r)
