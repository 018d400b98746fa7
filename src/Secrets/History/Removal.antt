-- ===== src/Secrets/History/Removal.antt =====
-- What `delete` of packages/secrets/src/index.ts leaves of a secret.
use himitsu.Prelude.{
  ℕ, ◌≤◌, ◌≡◌, refl, sym, ap, ◌∙◌, true, Option, some, none, List, [], ◌∷◌, find, update_where, leb,
  Bool-cases, inl, inr, arith,
}
use himitsu.Text.{Text}
use himitsu.Authz.{secret_delete}
use himitsu.Errors.{not_found, ok, err}
use himitsu.Exec.{query-ok, bind-ok}
use himitsu.Audit.{secret_deleted}
use himitsu.Audit.Metadata.{end}
use himitsu.Database.{Database, SecretRow}
use himitsu.Tenant.{require, logged}
use himitsu.Crypto.{Cipher, LocalMasterKey}
use himitsu.Crypto.Envelope.{Randomness}
use himitsu.Secrets.{SecretMetadata, failed}
use himitsu.Secrets.Store.{is_live, environment, metadata_row, value_row, update_secret}
use himitsu.Secrets.Writing.{secret_event, key_and_version, record_if}
use himitsu.Secrets.Changes.{deleted, update, rollback, delete}
use himitsu.Secrets.Reading.{get, list_versions}
use himitsu.Secrets.Versions.{update_secret-ok, record_if-ok}

none_live :
    (id now : ℕ) (rows : List SecretRow)
    → find (is_live id) (update_where (is_live id) (deleted now) rows) ≡ none
none_live id now [] = refl
none_live id now (r ∷ rest) =
    let more = none_live id now rest in
    elim (Bool-cases (is_live id r)) [
      | inl live ↦ ground (arith, live, more)
      | inr other ↦ ground (arith, other, more)
    ]

no_longer_live :
    (actor id : ℕ) (db db' : Database) (m : SecretMetadata)
    → delete actor id db ≡ (ok m, db')
    → find (is_live id) db'.secrets ≡ none
unfolding delete
no_longer_live actor id db db' m h =
    let (row, _, h1) = query-ok (metadata_row id) _ db db' m h in
    let (e, _, h2) = query-ok (environment row.project_id row.environment_id) _ db db' m h1 in
    let (_, _, h3) =
      query-ok (require actor (some row.project_id) e.protected secret_delete) _ db db' m h2 in
    let now = db.transaction_now in
    let (_, db1, updating, h6) = bind-ok (update_secret id (deleted now)) _ db db' m h3 in
    let same = update_secret-ok id (deleted now) db db1 updating in
    let event = λ (org_id : ℕ).
      secret_event org_id actor secret_deleted row (some (key_and_version row end)) none in
    let (u, db2, recording, h7) = bind-ok (record_if actor true event) _ db1 db' m h6 in
    let stored = record_if-ok actor true event db1 db2 recording in
    let last : db2 ≡ db' = λ i. (h7 i).1 in
    let rows : db'.secrets ≡ update_where (is_live id) (deleted now) db.secrets =
      ap (λ (d : Database). d.secrets)
        (sym last ∙ stored ∙ ap (λ (d : Database). logged (event db1.org_id) d) same) in
    rw rows (none_live id now db.secrets)

-- A deletion that returns takes the secret away from every caller: a read, a list of versions, an
-- update and a rollback of it find nothing, whoever calls, and write nothing.
pub delete_hides :
    (actor id : ℕ) (db db' : Database) (m : SecretMetadata) (other : ℕ) (cipher : Cipher)
    (master : LocalMasterKey) (random : Randomness)
    → delete actor id db ≡ (ok m, db')
    → (get other cipher master id db' ≡ (err (failed not_found), db'))
      × (list_versions other id db' ≡ (err (failed not_found), db'))
      × ((value : Option Text) (notes : Option (Option Text)) (change_note : Option Text)
            (expected_version : Option ℕ) (tag_ids : Option (List ℕ))
          → update other cipher master random id value notes change_note expected_version tag_ids
              db'
            ≡ (err (failed not_found), db'))
      × ((target : ℕ) (expected_version : Option ℕ) (change_note : Option Text)
          → 1 ≤ target
          → rollback other cipher master random id target expected_version change_note db'
            ≡ (err (failed not_found), db'))
unfolding get value_row list_versions metadata_row update rollback
delete_hides actor id db db' m other cipher master random h =
    let gone = no_longer_live actor id db db' m h in
    (
      rw gone refl,
      rw gone refl,
      λ value notes change_note expected_version tag_ids. rw gone refl,
      λ target expected_version change_note positive.
          let good : leb 1 target ≡ true = ground arith in rw (good, gone) refl,
    )
