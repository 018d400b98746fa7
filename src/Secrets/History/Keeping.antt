-- ===== src/Secrets/History/Keeping.antt =====
-- `get` and `update` without a value, of packages/secrets/src/index.ts, on the values of the secrets.
use himitsu.Prelude.{
  ℕ, ◌≡◌, refl, ap, sym, ◌∙◌, subst, inl, inr, true, Option, some, none, List, find, length, ◌==◌,
  Bool-cases, arith, update_where,
}
use himitsu.Text.{Text}
use himitsu.Errors.{ok, invalid_input}
use himitsu.Exec.{kept_or, bind-ok, query-ok, guard-ok}
use himitsu.Audit.{AuditEvent}
use himitsu.Database.{Database, SecretRow, SecretTagRow}
use himitsu.Tenant.{logged}
use himitsu.Crypto.{Cipher, IsCipher, LocalMasterKey}
use himitsu.Crypto.Keys.Table.Versions.{IsKeyed}
use himitsu.Crypto.Envelope.{Randomness}
use himitsu.Secrets.{validate_notes, SecretMetadata, SecretWithValue, failed}
use himitsu.Secrets.Utf8.{decode}
use himitsu.Secrets.Store.{is_live, value_row, metadata_from_row, decrypt_value}
use himitsu.Audit.Metadata.{end}
use himitsu.Secrets.Writing.{key_and_version, write_metadata, with_notes, metadata_event}
use himitsu.Secrets.Changes.{is_blank, replace}
use himitsu.Secrets.Reading.{get, read_event}
use himitsu.Secrets.Sealing.{Preserves, decrypt_value-reads}
use himitsu.Secrets.Versions.{rewrite_row-Finished}
use himitsu.Secrets.History.{
  found_after, found_elsewhere, Texts, HasHistory, Texts-kept, Texts-at_version,
}
use himitsu.Secrets.History.Pushing.{Updated}
use himitsu.Secrets.History.Reading.{readable_then, answer_logged}

module _ (cipher : Cipher) (master : LocalMasterKey) where
  -- Every history is as it was.
  pub record Keeps (db db' : Database) : Type 0 where
    pub preserved : Preserves cipher master db db'
    pub all :
        (id : ℕ) (ts : List Text)
        → HasHistory cipher master db id ts
        → HasHistory cipher master db' id ts

  Keeps-logged :
      (event : AuditEvent) (db : Database) → IsKeyed db.encryption_keys → Keeps db (logged event db)
  Keeps-logged event db keyed =
      let p : Preserves cipher master db (logged event db) = record {
        org = refl;
        keyed = keyed;
        keys = λ o version x found. (x, found, refl);
        versions = λ id version v found. found;
      } in
      record {
        preserved = p;
        all = λ id ts k. record {
          row = k.row;
          found = k.found;
          counted = k.counted;
          texts = Texts-kept cipher master db (logged event db) k.row ts p k.texts;
        };
      }

  pub get-Keeps :
      (actor secret_id : ℕ) (db db' : Database) (r : SecretWithValue)
      → IsKeyed db.encryption_keys
      → get actor cipher master secret_id db ≡ (ok r, db')
      → Keeps db db'
  unfolding get
  get-Keeps actor secret_id db db' r keyed h =
      let (row, read, h1) = query-ok (value_row secret_id) _ db db' r h in
      let h2 = readable_then actor row.0.project_id row.0.environment_id _ db db' r h1 in
      let (plaintext, db1, opening, h3) =
        bind-ok (decrypt_value cipher master row.0 row.1 row.0.current_version) _ db db' r h2 in
      let (result, logged_event) =
        answer_logged (record { metadata = metadata_from_row db1 row.0; value = decode plaintext })
          (λ org_id.
            read_event org_id actor row.0.id row.0.project_id row.0.environment_id
              (key_and_version row.0 end))
          db1 db' r h3 in
      let same =
        decrypt_value-reads cipher master row.0 row.1 row.0.current_version db db1 plaintext
          opening in
      let event =
        read_event db1.org_id actor row.0.id row.0.project_id row.0.environment_id
          (key_and_version row.0 end) in
      subst (λ (b : Database). Keeps db b) (sym (logged_event ∙ ap (logged event) same))
        (Keeps-logged event db keyed)

  -- New notes on one row.
  with_new_notes :
      (id other : ℕ) (notes : Option Text) (db : Database) (ts : List Text)
      → HasHistory cipher master db other ts
      → (s : SecretRow) × (find
            (is_live other)
            (update_where (is_live id) (with_notes notes) db.secrets)
          ≡ some s)
        × (s.current_version ≡ length ts)
        × Texts cipher master db s ts
  with_new_notes id other notes db ts k = elim (Bool-cases (other == id)) [
    | inl here ↦
        let same : other ≡ id = ground (arith, here) in
        (
          with_notes notes k.row,
          ap
                (λ (n : ℕ).
                  find (is_live other) (update_where (is_live n) (with_notes notes) db.secrets))
                (sym same)
              ∙ found_after other (with_notes notes) db.secrets k.row (λ r. refl) k.found,
          k.counted,
          Texts-at_version cipher master db k.row ts k.row.current_version notes k.texts,
        )
    | inr elsewhere ↦ (
      k.row,
      found_elsewhere id other (with_notes notes) db.secrets (ground (arith, elsewhere)) (λ r. refl)
          ∙ k.found,
      k.counted,
      k.texts,
    )
  ]

  notes_kept :
      (id : ℕ) (notes : Option Text) (tags : List SecretTagRow) (events : List AuditEvent)
      (db db' : Database)
      → db' ≡ record db {
        secrets = update_where (is_live id) (with_notes notes) db.secrets;
        secret_tags = tags;
        audit_events = events;
      }
      → IsKeyed db.encryption_keys
      → Keeps db db'
  notes_kept id notes tags events db db' e keyed =
      let p : Preserves cipher master db db' =
        subst (λ (b : Database). Preserves cipher master db b) (sym e)
          (record {
            org = refl;
            keyed = keyed;
            keys = λ o version x found. (x, found, refl);
            versions = λ i version v found. found;
          }) in
      record {
        preserved = p;
        all = λ other ts k.
            let (s, found, counted, texts) = with_new_notes id other notes db ts k in
            record {
              row = s;
              found = ap (λ (b : Database). find (is_live other) b.secrets) e ∙ found;
              counted = counted;
              texts = Texts-kept cipher master db db' s ts p texts;
            };
      }

  pub update_notes-Keeps :
      (lawful : IsCipher cipher) (actor : ℕ) (random : Randomness) (secret_id : ℕ)
      (db db' : Database) (m : SecretMetadata) (keyed : IsKeyed db.encryption_keys)
      (notes : Option (Option Text)) (change_note : Option Text) (expected_version : Option ℕ)
      (tag_ids : Option (List ℕ))
      → Updated actor cipher lawful master random secret_id db db' m keyed none notes change_note
          expected_version tag_ids
      → Keeps db db'
  unfolding replace write_metadata
  update_notes-Keeps lawful actor random secret_id db db' m keyed notes change_note expected_version
        tag_ids u =
      let (_, h1) = guard-ok (is_blank change_note) (failed invalid_input) _ db db' m u.wrote in
      let (valid, noted, h2) =
        query-ok (λ _. kept_or validate_notes u.before.notes notes) _ db db' m h1 in
      let f =
        rewrite_row-Finished actor u.before.id (with_notes valid) tag_ids true
          (metadata_event actor u.before) db db' m (λ r. refl) h2 in
      notes_kept u.before.id valid f.tags _ db db' f.tables keyed
