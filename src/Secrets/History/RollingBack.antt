-- ===== src/Secrets/History/RollingBack.antt =====
-- What a `rollback` of packages/secrets/src/index.ts that returns makes of a history.
use himitsu.Prelude.{
  ℕ, ◌<◌, ◌≡◌, ap, sym, ◌∙◌, true, Option, some, none, List, length, leb, ltb, arith,
}
use himitsu.Text.{Text}
use himitsu.Authz.{secret_write}
use himitsu.Errors.{ok, invalid_input, version_conflict}
use himitsu.Exec.{bind-ok, query-ok, guard-ok, bind-known}
use himitsu.Audit.{secret_updated}
use himitsu.Database.{Database, SecretRow, SecretVersionRow}
use himitsu.Tenant.{require}
use himitsu.Crypto.{Bytes, Cipher, IsCipher, LocalMasterKey}
use himitsu.Crypto.Keys.Table.Versions.{IsKeyed}
use himitsu.Crypto.Envelope.{Randomness}
use himitsu.Secrets.{SecretMetadata, failed}
use himitsu.Secrets.Utf8.{utf8, decode}
use himitsu.Secrets.Utf8.RoundTrip.{IsText, decode-utf8}
use himitsu.Secrets.Utf8.WellFormed.{utf8-to_well_formed}
use himitsu.Secrets.Store.{environment, metadata_row, version_value_row, decrypt_value}
use himitsu.Secrets.Writing.{write_version}
use himitsu.Secrets.Changes.{rollback, is_expected, rollback_note}
use himitsu.Secrets.Reading.{readable}
use himitsu.Secrets.Sealing.{decrypt_value-Holds, decrypt_value-reads}
use himitsu.Secrets.Versions.{metadata_row-ok}
use himitsu.Secrets.History.{value_of, HasHistory, value_of-Holds, value_of-some}
use himitsu.Secrets.History.Pushing.{SparesOthers, Pushed, spares_others, pushed}

module _ (actor : ℕ) (cipher : Cipher) (lawful : IsCipher cipher) (master : LocalMasterKey)
    (random : Randomness) (secret_id : ℕ) (db db' : Database) (m : SecretMetadata)
    (keyed : IsKeyed db.encryption_keys) where
  -- The value of the target version, decrypted and encoded anew.
  old_value :
      (before : SecretRow) (target : ℕ) (t : Text) (ts : List Text)
      (row : SecretRow × SecretVersionRow)
      → HasHistory cipher master db secret_id ts
      → value_of target ts ≡ some t
      → version_value_row secret_id target db ≡ ok row
      → IsText t × (decrypt_value cipher master row.0 row.1 target db ≡ (ok (utf8 t), db))
  unfolding version_value_row
  old_value before target t ts row k found read =
      let (good, (v, stored, readable)) =
        value_of-Holds cipher master db k.row ts target t k.texts found in
      let same : row ≡ (k.row, v) = ground (arith, k.found, stored) in
      (
        good,
        ap (λ (r : SecretRow × SecretVersionRow). decrypt_value cipher master r.0 r.1 target db)
              same
            ∙ decrypt_value-Holds cipher master lawful db k.row v target (utf8 t) keyed readable,
      )

  -- The steps of a rollback that returns.
  record Rolled (target : ℕ) (change_note : Option Text) : Type 0 where
    before : SecretRow
    found : metadata_row secret_id db ≡ ok before
    positive : leb 1 target ≡ true
    earlier : ltb target before.current_version ≡ true
    row : SecretRow × SecretVersionRow
    read : version_value_row secret_id target db ≡ ok row
    plaintext : Bytes
    opened : decrypt_value cipher master row.0 row.1 target db ≡ (ok plaintext, db)
    wrote :
        write_version actor cipher master random before
          (record {
            value = decode plaintext;
            notes = none;
            change_note = some (rollback_note change_note target);
            tag_ids = none;
          })
          secret_updated
          true
          db
        ≡ (ok m, db')

  rollback-Rolled :
      (target : ℕ) (expected_version : Option ℕ) (change_note : Option Text)
      → rollback actor cipher master random secret_id target expected_version change_note db
        ≡ (ok m, db')
      → Rolled target change_note
  unfolding rollback
  rollback-Rolled target expected_version change_note h =
      let (positive, h0) = guard-ok (leb 1 target) (failed invalid_input) _ db db' m h in
      let (before, found, h1) = query-ok (metadata_row secret_id) _ db db' m h0 in
      let (e, _, h2) =
        query-ok (environment before.project_id before.environment_id) _ db db' m h1 in
      let (_, _, h3) =
        query-ok (require actor (some before.project_id) e.protected secret_write) _ db db' m h2 in
      let (_, h4) =
        guard-ok (is_expected expected_version before.current_version) (failed version_conflict) _
          db db' m h3 in
      let (earlier, h5) =
        guard-ok (ltb target before.current_version) (failed invalid_input) _ db db' m h4 in
      let (row, read, h6) = query-ok (version_value_row secret_id target) _ db db' m h5 in
      let (plaintext, db1, opening, h7) =
        bind-ok (decrypt_value cipher master row.0 row.1 target) _ db db' m h6 in
      let same = decrypt_value-reads cipher master row.0 row.1 target db db1 plaintext opening in
      let opened : decrypt_value cipher master row.0 row.1 target db ≡ (ok plaintext, db) =
        opening ∙ λ i. (ok plaintext, same i) in
      record {
        before = before;
        found = found;
        positive = positive;
        earlier = earlier;
        row = row;
        read = read;
        plaintext = plaintext;
        opened = opened;
        wrote =
            bind-known (decrypt_value cipher master row.0 row.1 target) _ db db plaintext
              (ok m, db') opened h6;
      }

  pub rollback-SparesOthers :
      (target : ℕ) (expected_version : Option ℕ) (change_note : Option Text)
      → rollback actor cipher master random secret_id target expected_version change_note db
        ≡ (ok m, db')
      → SparesOthers actor cipher lawful master random secret_id db db' m keyed
  rollback-SparesOthers target expected_version change_note h =
      let r = rollback-Rolled target expected_version change_note h in
      spares_others actor cipher lawful master random secret_id db db' m keyed r.before _ r.found
        r.wrote

  pub rollback-Pushed :
      (target : ℕ) (expected_version : Option ℕ) (change_note : Option Text) (ts : List Text)
      → HasHistory cipher master db secret_id ts
      → rollback actor cipher master random secret_id target expected_version change_note db
        ≡ (ok m, db')
      → (t : Text) × (value_of target ts ≡ some t)
        × (target < length ts)
        × Pushed actor cipher lawful master random secret_id db db' m keyed t
  rollback-Pushed target expected_version change_note ts k h =
      let r = rollback-Rolled target expected_version change_note h in
      let there = metadata_row-ok secret_id db r.before r.found in
      let same : k.row ≡ r.before = ground (arith, there, k.found) in
      let number : r.before.current_version ≡ length ts =
        ap (λ (s : SecretRow). s.current_version) (sym same) ∙ k.counted in
      let below : target < length ts = ground (arith, r.earlier, number) in
      let (t, stored) =
        value_of-some ts target (ground (arith, r.positive)) (omega (arith, below)) in
      let (good, opened) = old_value r.before target t ts r.row k stored r.read in
      let value : r.plaintext ≡ utf8 t = ground (arith, opened, r.opened) in
      (
        t,
        stored,
        below,
        pushed actor cipher lawful master random secret_id db db' m keyed r.before _ t r.found good
            (ap (λ (b : Bytes). utf8 (decode b)) value
              ∙ ap utf8 (decode-utf8 t good)
              ∙ utf8-to_well_formed t good)
            r.wrote,
      )
