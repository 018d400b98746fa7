-- ===== src/Secrets/History/Reading.antt =====
-- `get` of packages/secrets/src/index.ts, on the values of a secret.
use himitsu.Prelude.{ℕ, suc, ◌≡◌, ap, ◌∙◌, List, ◌∷◌, length, arith}
use himitsu.Text.{Text}
use himitsu.Errors.{Result, ok}
use himitsu.Exec.{Exec, bind-ok, query-ok, bind-known, ◌>>=◌, ◌>>◌, query, pure}
use himitsu.Audit.{AuditEvent}
use himitsu.Database.{Database, SecretRow, SecretVersionRow}
use himitsu.Tenant.{record_in_transaction, logged}
use himitsu.Tenant.Recording.{recorded}
use himitsu.Crypto.{Cipher, IsCipher, LocalMasterKey}
use himitsu.Crypto.Keys.Table.Versions.{IsKeyed}
use himitsu.Secrets.{SecretWithValue}
use himitsu.Secrets.Utf8.{utf8, decode, to_well_formed}
use himitsu.Secrets.Utf8.RoundTrip.{decode-utf8}
use himitsu.Secrets.Store.{environment, value_row, metadata_from_row, decrypt_value}
use himitsu.Audit.Metadata.{end}
use himitsu.Secrets.Writing.{key_and_version}
use himitsu.Secrets.Reading.{get, readable, read_event}
use himitsu.Secrets.Sealing.{decrypt_value-Holds}
use himitsu.Secrets.History.{HasHistory}

-- A read that was permitted leaves the tables to the next step.
pub readable_then :
    {B : Type 0} (actor project_id environment_id : ℕ) (f : Unit {0} → Exec Database B)
    (db db' : Database) (b : B)
    → (readable actor project_id environment_id >>= f) db ≡ (ok b, db')
    → f tt db ≡ (ok b, db')
readable_then actor project_id environment_id f db db' b h =
    let (u, db1, permitted, h2) = bind-ok (readable actor project_id environment_id) f db db' b h in
    let (e, _, h1) = query-ok (environment project_id environment_id) _ db db1 u permitted in
    let same : db ≡ db1 = ap (λ (r : Result (Unit {0}) × Database). r.1) h1 in rw same h2

-- An answer that follows the recording of an event.
pub answer_logged :
    {A : Type 0} (answer : A) (event : ℕ → AuditEvent) (db db' : Database) (r : A)
    → (query (λ (b : Database). ok b.org_id) >>= λ org_id.
          record_in_transaction (event org_id) >> pure answer)
        db
      ≡ (ok r, db')
    → (r ≡ answer) × (db' ≡ logged (event db.org_id) db)
answer_logged answer event db db' r h =
    let logging = recorded (event db.org_id) db in
    (ground (arith, logging), ground (arith, logging))

-- What `get` returns, of a secret with a history.
pub get-reads :
    (actor : ℕ) (cipher : Cipher) (lawful : IsCipher cipher) (master : LocalMasterKey)
    (secret_id : ℕ) (t : Text) (ts : List Text) (db db' : Database) (r : SecretWithValue)
    → IsKeyed db.encryption_keys
    → HasHistory cipher master db secret_id (t ∷ ts)
    → get actor cipher master secret_id db ≡ (ok r, db')
    → (r.value ≡ to_well_formed t)
      × (r.metadata.current_version ≡ suc (length ts))
      × (event : AuditEvent) × (db' ≡ logged event db)
unfolding get value_row metadata_from_row
get-reads actor cipher lawful master secret_id t ts db db' r keyed k h =
    let (row, read, h1) = query-ok (value_row secret_id) _ db db' r h in
    let h2 = readable_then actor row.0.project_id row.0.environment_id _ db db' r h1 in
    let (good, (v, stored, opened), _) = k.texts in
    let same : row ≡ (k.row, v) = ground (arith, k.found, k.counted, stored) in
    let decrypted =
      decrypt_value-Holds cipher master lawful db k.row v (suc (length ts)) (utf8 t) keyed opened in
    let h3 =
      bind-known (decrypt_value cipher master row.0 row.1 row.0.current_version) _ db db (utf8 t)
        (ok r, db')
        (ap
            (λ (x : SecretRow × SecretVersionRow).
              decrypt_value cipher master x.0 x.1 x.0.current_version db)
            same
          ∙ ap (λ (n : ℕ). decrypt_value cipher master k.row v n db) k.counted
          ∙ decrypted)
        h2 in
    let (result, logged_event) =
      answer_logged (record { metadata = metadata_from_row db row.0; value = decode (utf8 t) })
        (λ org_id.
          read_event org_id actor row.0.id row.0.project_id row.0.environment_id
            (key_and_version row.0 end))
        db db' r h3 in
    (
      ap (λ (x : SecretWithValue). x.value) result ∙ decode-utf8 t good,
      ap (λ (x : SecretWithValue). x.metadata.current_version) result
          ∙ ap (λ (x : SecretRow × SecretVersionRow). x.0.current_version) same
          ∙ k.counted,
      _,
      logged_event,
    )
