-- ===== src/Secrets/Versions/Written.antt =====
-- What `#writeVersion` of packages/secrets/src/index.ts does to the tables, and what the new version
-- holds.
use himitsu.Prelude.{
  subst, ℕ, suc, ◌≡◌, refl, ap, sym, ◌∙◌, Bool, true, false, Option, some, List, ◌∷◌, find, any,
  arith, update_where,
}
use himitsu.Text.{Text}
use himitsu.Errors.{ok}
use himitsu.Exec.{bind-ok, query-ok, kept_or}
use himitsu.Audit.{AuditAction}
use himitsu.Database.{Database, SecretRow, SecretVersionRow, SecretTagRow}
use himitsu.Crypto.{Bytes, Cipher, IsCipher, LocalMasterKey}
use himitsu.Crypto.Keys.Table.{KeyTable}
use himitsu.Crypto.Keys.Table.Versions.{IsKeyed}
use himitsu.Crypto.Envelope.{Randomness}
use himitsu.Secrets.{
  SecretMetadata, VersionInput, validate_secret_value, validate_notes, validate_change_note,
}
use himitsu.Secrets.Utf8.{utf8}
use himitsu.Secrets.Store.{encrypt_value, is_version, is_live, insert_version, metadata_from_row}
use himitsu.Secrets.Writing.{new_version, at_version, version_event, write_version}
use himitsu.Secrets.Sealing.{Preserves, Holds, version_stored, Sealed}
use himitsu.Secrets.Versions.{events_after, with_row, Finished, rewrite_row-Finished}

module _ (actor : ℕ) (cipher : Cipher) (master : LocalMasterKey) (random : Randomness)
    (before : SecretRow) (input : VersionInput) (action : AuditAction) (record_audit : Bool) where
  abbrev pub after_version :
      Database
      → KeyTable
      → SecretVersionRow
      → Option Text
      → SecretRow
      → List SecretTagRow
      → Database
  after_version db keys v notes row tags = record db {
    encryption_keys = keys;
    secret_versions = v ∷ db.secret_versions;
    secrets =
        update_where (is_live before.id) (at_version (suc before.current_version) notes) db.secrets;
    secret_tags = tags;
    audit_events =
        events_after actor before.id (at_version (suc before.current_version) notes) input.tag_ids
          record_audit (version_event actor before action) db row;
  }

  -- The tables after a version was written, and what the new version holds.
  pub record Written (db db' : Database) (m : SecretMetadata) : Type 0 where
    pub notes : Option Text
    pub noted : kept_or validate_notes before.notes input.notes ≡ ok notes
    pub encoded : validate_secret_value input.value ≡ ok (utf8 input.value)
    pub old : SecretRow
    pub found : find (is_live before.id) db.secrets ≡ some old
    pub live : is_live before.id old ≡ true
    pub answer : m ≡ metadata_from_row db' (at_version (suc before.current_version) notes old)
    pub keys : KeyTable
    pub version_row : SecretVersionRow
    pub tags : List SecretTagRow
    pub tables :
        db'
        ≡ after_version db keys version_row notes
            (at_version (suc before.current_version) notes old)
            tags
    pub preserved : Preserves cipher master db db'
    pub holds : Holds cipher master db' before (suc before.current_version) (utf8 input.value)
    pub unused : any (is_version before.id (suc before.current_version)) db.secret_versions ≡ false

  written :
      (db db2 db' : Database) (m : SecretMetadata) (plaintext : Bytes) (notes : Option Text)
      (v : SecretVersionRow)
      → plaintext ≡ utf8 input.value
      → validate_secret_value input.value ≡ ok plaintext
      → kept_or validate_notes before.notes input.notes ≡ ok notes
      → Sealed cipher master db db2 before (suc before.current_version) plaintext v
      → Finished actor before.id
          (at_version (suc before.current_version) notes)
          input.tag_ids
          record_audit
          (version_event actor before action)
          db2
          db'
          m
      → Written db db' m
  written db db2 db' m plaintext notes v same encoded noted s f =
      let row = at_version (suc before.current_version) notes f.old in
      let tables : db' ≡ after_version db s.keys v notes row f.tags =
        f.tables
        ∙ ap
            (λ (b : Database).
              with_row actor before.id (at_version (suc before.current_version) notes) input.tag_ids
                record_audit (version_event actor before action) b row f.tags)
            s.tables in
      let kept : Preserves cipher master db (after_version db s.keys v notes row f.tags) = record {
        org = refl;
        keyed = s.preserved.keyed;
        keys = s.preserved.keys;
        versions = s.preserved.versions;
      } in
      let there : Holds cipher master (after_version db s.keys v notes row f.tags) before
          (suc before.current_version) plaintext =
        s.holds in
      record {
        notes = notes;
        noted = noted;
        encoded = encoded ∙ ap (λ (b : Bytes). ok b) same;
        old = f.old;
        found = ap (λ (b : Database). find (is_live before.id) b.secrets) (sym s.tables) ∙ f.found;
        live = f.live;
        answer = f.answer;
        keys = s.keys;
        version_row = v;
        tags = f.tags;
        tables = tables;
        preserved = subst (λ (b : Database). Preserves cipher master db b) (sym tables) kept;
        holds =
            subst (λ (b : Bytes). Holds cipher master db' before (suc before.current_version) b)
              same
              (subst
                (λ (b : Database).
                  Holds cipher master b before (suc before.current_version) plaintext)
                (sym tables) there);
        unused = s.unused;
      }

  encoded_value :
      (plaintext : Bytes)
      → validate_secret_value input.value ≡ ok plaintext
      → plaintext ≡ utf8 input.value
  unfolding validate_secret_value
  encoded_value plaintext h = ground arith

  pub write_version-Written :
      (lawful : IsCipher cipher) (db db' : Database) (m : SecretMetadata)
      → IsKeyed db.encryption_keys
      → write_version actor cipher master random before input action record_audit db ≡ (ok m, db')
      → Written db db' m
  unfolding write_version
  write_version-Written lawful db db' m keyed h =
      let version = suc before.current_version in
      let (plaintext, encoded, h1) =
        query-ok (λ _. validate_secret_value input.value) _ db db' m h in
      let (notes, noted, h2) =
        query-ok (λ _. kept_or validate_notes before.notes input.notes) _ db db' m h1 in
      let (note, _, h3) = query-ok (λ _. validate_change_note input.change_note) _ db db' m h2 in
      let (e, db1, sealing, h4) =
        bind-ok (encrypt_value cipher master random plaintext before version) _ db db' m h3 in
      let (_, db2, inserting, h5) =
        bind-ok (insert_version (new_version actor before version e note)) _ db1 db' m h4 in
      written db db2 db' m plaintext notes (new_version actor before version e note)
        (encoded_value plaintext encoded) encoded noted
        (version_stored cipher master lawful actor random plaintext before version note db db1 db2 e
          keyed sealing inserting)
        (rewrite_row-Finished actor before.id (at_version (suc before.current_version) notes)
          input.tag_ids record_audit (version_event actor before action) db2 db' m (λ r. refl) h5)
