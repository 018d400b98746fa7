-- ===== src/Secrets/Versions.antt =====
-- What the statements of `#writeVersion` of packages/secrets/src/index.ts do behind its INSERT.
pub mod Written
use himitsu.Prelude.{
  ℕ, suc, ◌<◌, ◌≤◌, ◌≡◌, refl, ap, sym, ◌∙◌, inl, inr, Bool, true, false, ◌&&◌, Option, some, none,
  List, [], ◌∷◌, ◌++◌, find, find-holds, any, length, leb, ◌==◌, if◌then◌else◌, Bool-cases,
  Option-cases, arith, update_where,
}
use himitsu.Text.{Text}
use himitsu.Errors.{Result, ok}
use himitsu.Exec.{Exec, bind-ok, query-ok, kept_or, required-ok}
use himitsu.Audit.{AuditEvent, AuditAction}
use himitsu.Audit.Metadata.{end}
use himitsu.Database.{Database, SecretRow, SecretVersionRow, SecretTagRow}
use himitsu.Tenant.{record_in_transaction, logged}
use himitsu.Tenant.Recording.{recorded}
use himitsu.Crypto.{Bytes, Cipher, IsCipher, LocalMasterKey, EncryptedSecretValue}
use himitsu.Crypto.Keys.Table.{KeyTable}
use himitsu.Crypto.Keys.Table.Versions.{IsKeyed}
use himitsu.Crypto.Keys.Table.Activation.{KeepsKeys}
use himitsu.Crypto.Envelope.{Vault, Randomness, encrypt}
use himitsu.Crypto.Envelope.Reading.{Readable, encrypt-Readable}
use himitsu.Secrets.{
  SecretMetadata, VersionInput, validate_secret_value, validate_notes, validate_change_note,
}
use himitsu.Secrets.Utf8.{utf8}
use himitsu.Secrets.Store.{
  no_cache, vault_of, encryption, context_of, encrypted, encrypt_value, is_version, is_live,
  insert_version, update_secret, metadata_row, metadata_from_row, retag, replace_tags,
}
use himitsu.Secrets.Writing.{
  new_version, at_version, secret_event, state_of, is_update, record_if, view_of, rewrite_row,
}
use himitsu.Secrets.Sealing.{
  KeepsVersions, new_keeps, insert_version-ok, fresh-IsSound, Preserves, Holds, version_stored,
}

pub update_secret-ok :
    (secret_id : ℕ) (f : SecretRow → SecretRow) (db db' : Database)
    → update_secret secret_id f db ≡ (ok tt, db')
    → db' ≡ record db { secrets = update_where (is_live secret_id) f db.secrets }
unfolding update_secret
update_secret-ok secret_id f db db' h = sym (ap (λ (r : Result (Unit {0}) × Database). r.1) h)

pub metadata_row-ok :
    (secret_id : ℕ) (db : Database) (row : SecretRow)
    → metadata_row secret_id db ≡ ok row
    → find (is_live secret_id) db.secrets ≡ some row
unfolding metadata_row
metadata_row-ok secret_id db row h = required-ok (find (is_live secret_id) db.secrets) _ row h

-- A row that is found after an UPDATE of it was there before.
pub found_updated :
    (id : ℕ) (f : SecretRow → SecretRow) (rows : List SecretRow) (row : SecretRow)
    → ((s : SecretRow) → is_live id (f s) ≡ is_live id s)
    → find (is_live id) (update_where (is_live id) f rows) ≡ some row
    → (old : SecretRow) × (find (is_live id) rows ≡ some old)
      × (is_live id old ≡ true)
      × (row ≡ f old)
found_updated id f [] row same h = cc
found_updated id f (s ∷ rest) row same h = elim (Bool-cases (is_live id s)) [
  | inl here ↦ let kept = same s in (s, ground (arith, here), here, ground (arith, here, kept))
  | inr other ↦
      let (old, found, live, updated) = found_updated id f rest row same (ground (arith, other)) in
      (old, ground (arith, other, found), live, updated)
]

pub live_id :
    (secret_id : ℕ) (rows : List SecretRow) (s : SecretRow)
    → find (is_live secret_id) rows ≡ some s
    → s.id ≡ secret_id
live_id secret_id rows s h =
    let live = find-holds (is_live secret_id) rows s h in ground (arith, live)

same_row :
    (id : ℕ) (db : Database) (row row' : SecretRow)
    → row.id ≡ id
    → find (is_live id) db.secrets ≡ some row
    → metadata_row row.id db ≡ ok row'
    → row' ≡ row
same_row id db row row' same found again =
    let first : find (is_live row.id) db.secrets ≡ some row =
      ap (λ (n : ℕ). find (is_live n) db.secrets) same ∙ found in
    let second = metadata_row-ok row.id db row' again in ground (arith, first, second)

pub retag-ok :
    (secret_id : ℕ) (tag_ids : Option (List ℕ)) (db db' : Database)
    → retag secret_id tag_ids db ≡ (ok tt, db')
    → db' ≡ record db { secret_tags = db'.secret_tags }
unfolding replace_tags
retag-ok secret_id none db db' h = ground arith
retag-ok secret_id (some tag_ids) db db' h = ground arith

pub record_if-ok :
    (actor : ℕ) (record_audit : Bool) (event : ℕ → AuditEvent) (db db' : Database)
    → record_if actor record_audit event db ≡ (ok tt, db')
    → db' ≡ (if record_audit then logged (event db.org_id) db else db)
record_if-ok actor true event db db' h =
    let logging = recorded (event db.org_id) db in ground (arith, logging)
record_if-ok actor false event db db' h = ground arith

pub viewed :
    (actor secret_id : ℕ) (db db' : Database) (m : SecretMetadata)
    → view_of actor secret_id db ≡ (ok m, db')
    → (row : SecretRow) × (metadata_row secret_id db ≡ ok row)
      × (m ≡ metadata_from_row db row)
      × (db' ≡ db)
viewed actor secret_id db db' m h =
    let (row, found, h1) = query-ok (metadata_row secret_id) _ db db' m h in
    (row, found, ground arith, ground arith)

logged_tables :
    (record_audit : Bool) (event : AuditEvent) (db db' : Database)
    → db' ≡ (if record_audit then logged event db else db)
    → db' ≡ record db {
      audit_events = if record_audit then db.audit_events ++ event ∷ [] else db.audit_events;
    }
logged_tables true event db db' h = h
logged_tables false event db db' h = h

module _ (actor secret_id : ℕ) (f : SecretRow → SecretRow) (tag_ids : Option (List ℕ))
    (record_audit : Bool) (event : SecretRow → ℕ → AuditEvent) where
  abbrev pub events_after : Database → SecretRow → List AuditEvent
  events_after db row =
      if record_audit then db.audit_events ++ event row db.org_id ∷ [] else db.audit_events

  abbrev pub with_row : Database → SecretRow → List SecretTagRow → Database
  with_row db row tags = record db {
    secrets = update_where (is_live secret_id) f db.secrets;
    secret_tags = tags;
    audit_events = events_after db row;
  }

  finished_tables :
      (row : SecretRow) (db db3 db4 db5 db' : Database)
      → db3 ≡ record db { secrets = update_where (is_live secret_id) f db.secrets }
      → db4 ≡ record db3 { secret_tags = db4.secret_tags }
      → db5 ≡ record db4 { audit_events = events_after db4 row }
      → db' ≡ db5
      → db' ≡ with_row db row db4.secret_tags
  finished_tables row db db3 db4 db5 db' e3 e4 e5 e6 =
      e6
      ∙ e5
      ∙ ap (λ (b : Database). record b { audit_events = events_after b row }) e4
      ∙ ap
          (λ (b : Database). record b {
            secret_tags = db4.secret_tags;
            audit_events = events_after b row;
          })
          e3

  -- What the statements behind the INSERT leave.
  pub record Finished (db db' : Database) (m : SecretMetadata) : Type 0 where
    pub old : SecretRow
    pub found : find (is_live secret_id) db.secrets ≡ some old
    pub live : is_live secret_id old ≡ true
    pub answer : m ≡ metadata_from_row db' (f old)
    pub tags : List SecretTagRow
    pub tables : db' ≡ with_row db (f old) tags

  finished :
      (row row' : SecretRow) (db db3 db4 db5 db' : Database) (m : SecretMetadata)
      → ((s : SecretRow) → is_live secret_id (f s) ≡ is_live secret_id s)
      → db3 ≡ record db { secrets = update_where (is_live secret_id) f db.secrets }
      → metadata_row secret_id db3 ≡ ok row
      → db4 ≡ record db3 { secret_tags = db4.secret_tags }
      → db5 ≡ record db4 { audit_events = events_after db4 row }
      → metadata_row row.id db5 ≡ ok row'
      → m ≡ metadata_from_row db5 row'
      → db' ≡ db5
      → Finished db db' m
  finished row row' db db3 db4 db5 db' m keeps e3 found e4 e5 found' answer e6 =
      let at3 =
        ap (λ (b : Database). find (is_live secret_id) b.secrets) (sym e3)
        ∙ metadata_row-ok secret_id db3 row found in
      let (old, there, live, made) = found_updated secret_id f db.secrets row keeps at3 in
      let at5 : find (is_live secret_id) db5.secrets ≡ some row =
        ap (λ (b : Database). find (is_live secret_id) b.secrets) e5
        ∙ ap (λ (b : Database). find (is_live secret_id) b.secrets) e4
        ∙ metadata_row-ok secret_id db3 row found in
      let same =
        same_row secret_id db5 row row'
          (live_id secret_id db3.secrets row (metadata_row-ok secret_id db3 row found)) at5
          found' in
      record {
        old = old;
        found = there;
        live = live;
        answer =
            answer
            ∙ ap (metadata_from_row db5) (same ∙ made)
            ∙ ap (λ (b : Database). metadata_from_row b (f old)) (sym e6);
        tags = db4.secret_tags;
        tables =
            finished_tables row db db3 db4 db5 db' e3 e4 e5 e6
            ∙ ap (λ (r : SecretRow). with_row db r db4.secret_tags) made;
      }

  pub rewrite_row-Finished :
      (db db' : Database) (m : SecretMetadata)
      → ((s : SecretRow) → is_live secret_id (f s) ≡ is_live secret_id s)
      → rewrite_row actor secret_id f tag_ids record_audit event db ≡ (ok m, db')
      → Finished db db' m
  unfolding rewrite_row
  rewrite_row-Finished db db' m keeps h =
      let (_, db3, updating, h6) = bind-ok (update_secret secret_id f) _ db db' m h in
      let (row, found, h7) = query-ok (metadata_row secret_id) _ db3 db' m h6 in
      let (_, db4, retagging, h8) = bind-ok (retag row.id tag_ids) _ db3 db' m h7 in
      let (_, db5, recording, h9) =
        bind-ok (record_if actor record_audit (event row)) _ db4 db' m h8 in
      let (row', found', answer, last) = viewed actor row.id db5 db' m h9 in
      finished row row' db db3 db4 db5 db' m keeps (update_secret-ok secret_id f db db3 updating)
        found (retag-ok row.id tag_ids db3 db4 retagging)
        (logged_tables record_audit (event row db4.org_id) db4 db5
          (record_if-ok actor record_audit (event row) db4 db5 recording))
        found' answer last
