-- ===== src/Secrets/Lasting/Runs.antt =====
-- Any calls of the service of packages/secrets/src/index.ts, one after the other.
use himitsu.Prelude.{ℕ, ◌≡◌, true, false, Option, some, List, find}
use himitsu.Text.{Text}
use himitsu.Errors.{ok}
use himitsu.Database.{Database, SecretRow, SecretVersionRow}
use himitsu.Crypto.{Bytes, Cipher, IsCipher, LocalMasterKey}
use himitsu.Crypto.Keys.Table.Versions.{IsKeyed}
use himitsu.Crypto.Envelope.{Randomness}
use himitsu.Secrets.{Draws, SetSecretInput, SecretMetadata, SecretWithValue}
use himitsu.Secrets.Store.{is_version, decrypt_value}
use himitsu.Secrets.Changes.{update, rollback, delete}
use himitsu.Secrets.Reading.{get, readable}
use himitsu.Secrets.Sealing.{Holds, Preserves, Preserves-trans, Holds-kept, decrypt_value-Holds}
use himitsu.Secrets.Writing.{create}
use himitsu.Secrets.Batches.{bulk_set}
use himitsu.Secrets.Batches.Importing.{
  import_batch, SecretImportStrategy, SecretImportFormat, SecretImportResult,
}
use himitsu.Secrets.Promotion.{
  preview_promotion, promote, SecretPromotionPreview, SecretPromotionResult,
}
use himitsu.Secrets.Lasting.{
  create_secret-Lasts, update-Lasts, rollback-Lasts, delete-Lasts, Preserves-refl,
}
use himitsu.Secrets.History.Keeping.{get-Keeps}
use himitsu.Secrets.Lasting.Batches.{bulk_set-Lasts, import_batch-Lasts}
use himitsu.Secrets.Lasting.Promotion.{promote-Lasts, preview_promotion-Lasts}

module _ (cipher : Cipher) (master : LocalMasterKey) where
  -- One call that returns, of any actor.
  pub data Call : Database → Database → Type 0 where
    creates :
        (actor : ℕ) (draws : Draws) (project_id environment_id : ℕ) (input : SetSecretInput)
        (db db' : Database) (m : SecretMetadata)
        → create actor cipher master draws project_id environment_id input db ≡ (ok m, db')
        → Call db db'
    updates :
        (actor : ℕ) (random : Randomness) (secret_id : ℕ) (value : Option Text)
        (notes : Option (Option Text)) (change_note : Option Text) (expected_version : Option ℕ)
        (tag_ids : Option (List ℕ)) (db db' : Database) (m : SecretMetadata)
        → update actor cipher master random secret_id value notes change_note expected_version
            tag_ids db
          ≡ (ok m, db')
        → Call db db'
    rolls_back :
        (actor : ℕ) (random : Randomness) (secret_id target : ℕ) (expected_version : Option ℕ)
        (change_note : Option Text) (db db' : Database) (m : SecretMetadata)
        → rollback actor cipher master random secret_id target expected_version change_note db
          ≡ (ok m, db')
        → Call db db'
    deletes :
        (actor secret_id : ℕ) (db db' : Database) (m : SecretMetadata)
        → delete actor secret_id db ≡ (ok m, db')
        → Call db db'
    sets_many :
        (actor project_id environment_id : ℕ) (draws : ℕ → Draws) (inputs : List SetSecretInput)
        (db db' : Database) (ms : List SecretMetadata)
        → bulk_set actor cipher master project_id environment_id draws inputs db ≡ (ok ms, db')
        → Call db db'
    imports :
        (actor project_id environment_id : ℕ) (draws : ℕ → Draws) (inputs : List SetSecretInput)
        (strategy : SecretImportStrategy) (selected : List Text) (format : SecretImportFormat)
        (db db' : Database) (r : SecretImportResult)
        → import_batch actor cipher master project_id environment_id draws inputs strategy selected
            format db
          ≡ (ok r, db')
        → Call db db'
    previews :
        (actor project_id source_id target_id : ℕ) (keys : Option (List Text)) (db db' : Database)
        (r : SecretPromotionPreview)
        → preview_promotion actor cipher master project_id source_id target_id keys db ≡ (ok r, db')
        → Call db db'
    promotes :
        (actor project_id source_id target_id : ℕ) (draws : ℕ → Draws) (keys : Option (List Text))
        (db db' : Database) (r : SecretPromotionResult)
        → promote actor cipher master project_id source_id target_id draws keys db ≡ (ok r, db')
        → Call db db'
    reads :
        (actor secret_id : ℕ) (db db' : Database) (r : SecretWithValue)
        → get actor cipher master secret_id db ≡ (ok r, db')
        → Call db db'

  pub data Run : Database → Database → Type 0 where
    stays : (db : Database) → Run db db
    goes_on : (db db1 db2 : Database) → Run db db1 → Call db1 db2 → Run db db2

  Call-Preserves :
      (lawful : IsCipher cipher) (db db' : Database)
      → IsKeyed db.encryption_keys
      → Call db db'
      → Preserves cipher master db db'
  unfolding create
  Call-Preserves lawful db db' keyed (creates actor draws project_id environment_id input _ _ m h) =
      create_secret-Lasts cipher master actor lawful draws project_id environment_id input false
        true db db' m keyed h
  Call-Preserves lawful db db' keyed
        (updates actor random id value notes change_note expected tag_ids _ _ m h) =
      update-Lasts cipher master actor lawful random id value notes change_note expected tag_ids db
        db' m keyed h
  Call-Preserves lawful db db' keyed
        (rolls_back actor random id target expected change_note _ _ m h) =
      rollback-Lasts cipher master actor lawful random id target expected change_note db db' m keyed
        h
  Call-Preserves lawful db db' keyed (deletes actor id _ _ m h) =
      delete-Lasts cipher master actor id db db' m keyed h
  Call-Preserves lawful db db' keyed
        (sets_many actor project_id environment_id draws inputs _ _ ms h) =
      bulk_set-Lasts actor cipher lawful master project_id environment_id draws inputs db db' ms
        keyed h
  Call-Preserves lawful db db' keyed
        (imports actor project_id environment_id draws inputs strategy selected format _ _ r h) =
      import_batch-Lasts actor cipher lawful master project_id environment_id draws inputs strategy
        selected format db db' r keyed h
  Call-Preserves lawful db db' keyed (previews actor project_id source_id target_id keys _ _ r h) =
      preview_promotion-Lasts actor cipher lawful master project_id source_id target_id keys db db'
        r keyed h
  Call-Preserves lawful db db' keyed
        (promotes actor project_id source_id target_id draws keys _ _ r h) =
      promote-Lasts actor cipher lawful master project_id source_id target_id draws keys db db' r
        keyed h
  Call-Preserves lawful db db' keyed (reads actor id _ _ r h) =
      let k = get-Keeps cipher master actor id db db' r keyed h in k.preserved

  Run-Preserves :
      (lawful : IsCipher cipher) (db db' : Database)
      → IsKeyed db.encryption_keys
      → Run db db'
      → Preserves cipher master db db'
  Run-Preserves lawful db db' keyed (stays _) = Preserves-refl cipher master db keyed
  Run-Preserves lawful db db' keyed (goes_on _ db1 _ run call) =
      let p = Run-Preserves lawful db db1 keyed run in
      Preserves-trans cipher master db db1 db' p (Call-Preserves lawful db1 db' p.keyed call)

  -- No value that was ever stored is lost or changed, whatever calls return after it: each version of
  -- each secret, a deleted one included, stays stored and decrypts to the same bytes in its context,
  -- after any creations, updates, rollbacks, deletions, bulk writes, imports, promotions, previews and
  -- reads of any actors, data keys made on the way included. The key table is keyed at the start, and
  -- the cipher unseals what it sealed.
  pub values_last :
      (lawful : IsCipher cipher) (db db' : Database) (s : SecretRow) (version : ℕ) (value : Bytes)
      → IsKeyed db.encryption_keys
      → Run db db'
      → Holds cipher master db s version value
      → (row : SecretVersionRow) × (find (is_version s.id version) db'.secret_versions ≡ some row)
        × (decrypt_value cipher master s row version db' ≡ (ok value, db'))
  values_last lawful db db' s version value keyed run held =
      let p = Run-Preserves lawful db db' keyed run in
      let (row, found, readable) = Holds-kept cipher master db db' s version value p held in
      (
        row,
        found,
        decrypt_value-Holds cipher master lawful db' s row version value p.keyed readable,
      )
