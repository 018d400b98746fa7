-- ===== src/Secrets/History/Creation.antt =====
-- `create` of packages/secrets/src/index.ts, on the values of the secrets: a new secret, or a deleted one
-- that comes back.
use himitsu.Prelude.{
  find-holds, ◌⊎◌, ◌||◌, any, or_else, ℕ, suc, ◌≡◌, ◌≢◌, refl, ap, sym, ◌∙◌, subst, inl, inr, Bool,
  true, false, Option, some, none, List, [], ◌∷◌, find, length, ◌==◌, arith, update_where,
}
use himitsu.Text.{Text}
use himitsu.Authz.{secret_write}
use himitsu.Errors.{ok, key_exists}
use himitsu.Exec.{◌>>◌, catch_unique-eq-ok, bind-ok, query-ok}
use himitsu.Audit.{AuditAction, secret_created}
use himitsu.Database.{Database, SecretRow}
use himitsu.Tenant.{require}
use himitsu.Crypto.{Cipher, IsCipher, LocalMasterKey}
use himitsu.Crypto.Keys.Table.Versions.{IsKeyed, text_eq_refl}
use himitsu.Crypto.Envelope.{Randomness}
use himitsu.Secrets.{
  Draws, SetSecretInput, validate_notes, validate_change_note, validate_secret_key, SecretMetadata,
  VersionInput, failed,
}
use himitsu.Secrets.Utf8.{utf8}
use himitsu.Secrets.Utf8.RoundTrip.{IsText}
use himitsu.Secrets.Store.{environment, metadata_from_row, insert_secret, is_key_of, is_live}
use himitsu.Secrets.Writing.{
  write_version, new_secret, undelete, is_recoverable, first_version, revive_or_insert,
  create_secret, create,
}
use himitsu.Secrets.Sealing.{Holds, Preserves, Preserves-trans}
use himitsu.Secrets.Versions.Written.{Written, write_version-Written}
use himitsu.Secrets.History.{Texts, HasHistory}
use himitsu.Secrets.History.Effects.{Same, history_here, history_elsewhere}
use himitsu.Secrets.History.Rows.{
  insert_secret-ok, undeleted_here, undeleted_elsewhere, rows_preserved, shown_by, Texts-undelete,
}

pub recoverable_of_key :
    (project_id environment_id : ℕ) (key : Text) (rows : List SecretRow) (r : SecretRow)
    → find (is_recoverable project_id environment_id key) rows ≡ some r
    → is_key_of project_id environment_id key r ≡ true
recoverable_of_key project_id environment_id key rows r found =
    let holds = find-holds (is_recoverable project_id environment_id key) rows r found in
    ground (arith, holds)

module _ (actor : ℕ) (cipher : Cipher) (lawful : IsCipher cipher) (master : LocalMasterKey)
    (draws : Draws) (project_id environment_id : ℕ) (input : SetSecretInput) (db db' : Database)
    (m : SecretMetadata) where
  -- The value of a creation is stored, and what the histories of the others are after it.
  pub record Spared (key : Text) : Type 0 where
    pub stored :
        (s : SecretRow) × (s.id ≡ m.id)
        × (is_key_of project_id environment_id key s ≡ true)
        × Holds cipher master db' s m.current_version (utf8 input.value)
    pub preserved : Preserves cipher master db db'
    pub elsewhere :
        (other : ℕ) (ts : List Text)
        → other ≢ m.id
        → HasHistory cipher master db other ts
        → HasHistory cipher master db' other ts

  pub record Fresh (key : Text) : Type 0 where
    pub id : m.id ≡ draws.secret_id
    pub named : m.key ≡ key
    pub unused :
        any
          (λ (s : SecretRow). s.id == draws.secret_id || is_key_of project_id environment_id key s)
          db.secrets
        ≡ false
    pub first : IsText input.value → HasHistory cipher master db' m.id (input.value ∷ [])
    pub version : m.current_version ≡ 1

  pub record Revived (r : SecretRow) : Type 0 where
    pub id : m.id ≡ r.id
    pub version : m.current_version ≡ suc r.current_version
    pub next :
        (ts : List Text)
        → find (λ (s : SecretRow). s.id == r.id) db.secrets ≡ some r
        → r.current_version ≡ length ts
        → Texts cipher master db r ts
        → IsText input.value
        → HasHistory cipher master db' m.id (input.value ∷ ts)

  id_kept :
      (random : Randomness) (before : SecretRow) (vi : VersionInput) (action : AuditAction)
      (record_audit : Bool) (db1 : Database)
      → Written actor cipher master random before vi action record_audit db1 db' m
      → (m.id ≡ before.id) × (m.current_version ≡ suc before.current_version)
  unfolding metadata_from_row
  id_kept random before vi action record_audit db1 w = (
    ap (λ (x : SecretMetadata). x.id) w.answer ∙ ground (arith, w.live),
    ap (λ (x : SecretMetadata). x.current_version) w.answer,
  )

  stored_by :
      (random : Randomness) (before : SecretRow) (vi : VersionInput) (action : AuditAction)
      (record_audit : Bool) (db1 : Database) (key : Text)
      → is_key_of project_id environment_id key before ≡ true
      → vi.value ≡ input.value
      → Written actor cipher master random before vi action record_audit db1 db' m
      → (s : SecretRow) × (s.id ≡ m.id)
        × (is_key_of project_id environment_id key s ≡ true)
        × Holds cipher master db' s m.current_version (utf8 input.value)
  stored_by random before vi action record_audit db1 key of_key same w =
      let (id, version) = id_kept random before vi action record_audit db1 w in
      (before, sym id, of_key, rw (version, sym same) w.holds)

  fresh :
      (key : Text) (notes : Option Text) (vi : VersionInput) (record_audit : Bool) (db1 : Database)
      → IsKeyed db.encryption_keys
      → vi.value ≡ input.value
      → insert_secret (new_secret draws.secret_id project_id environment_id key notes) db
        ≡ (ok tt, db1)
      → write_version actor cipher master draws.random
          (new_secret draws.secret_id project_id environment_id key notes)
          vi
          secret_created
          record_audit
          db1
        ≡ (ok m, db')
      → Spared key × Fresh key
  unfolding shown_by metadata_from_row
  fresh key notes vi record_audit db1 keyed same inserting writing =
      let row = new_secret draws.secret_id project_id environment_id key notes in
      let of_key : is_key_of project_id environment_id key row ≡ true =
        let same_key = text_eq_refl key in ground (arith, same_key) in
      let (unused, tables) = insert_secret-ok row db db1 inserting in
      let p = rows_preserved cipher master (row ∷ db.secrets) db db1 tables keyed in
      let w =
        write_version-Written actor cipher master draws.random row vi secret_created record_audit
          lawful db1 db' m p.keyed writing in
      let (id, version) = id_kept draws.random row vi secret_created record_audit db1 w in
      (
        record {
          stored = stored_by draws.random row vi secret_created record_audit db1 key of_key same w;
          preserved = Preserves-trans cipher master db db1 db' p w.preserved;
          elsewhere = λ other ts different k.
              let apart : other ≢ row.id = λ e. different (e ∙ sym id) in
              history_elsewhere actor cipher master draws.random row vi secret_created record_audit
                db1 db' m other ts w apart
                (shown_by cipher master (row ∷ db.secrets) db db1 other k.row ts tables keyed
                  (ground (arith, apart, k.found)) k.counted k.texts);
        },
        record {
          id = id;
          named =
              ap (λ (x : SecretMetadata). x.key) w.answer
              ∙ here w.old
                  (ap (λ (b : Database). find (is_live row.id) b.secrets) (sym tables) ∙ w.found);
          unused = unused;
          first = λ good.
              let empty =
                shown_by cipher master (row ∷ db.secrets) db db1 row.id row [] tables keyed
                  (ground arith) refl tt in
              let (shown, _, _) =
                history_here actor cipher master draws.random row vi secret_created record_audit db1
                  db' m row.id input.value [] w empty (itself row) good (ap utf8 same) in
              subst (λ (n : ℕ). HasHistory cipher master db' n (input.value ∷ [])) (sym id) shown;
          version = version;
        },
      )
    where
      here :
          (old : SecretRow)
          → find
              (is_live draws.secret_id)
              (new_secret draws.secret_id project_id environment_id key notes ∷ db.secrets)
            ≡ some old
          → old.key ≡ key
      here old found = ground (arith, found)

      itself : (s : SecretRow) → Same s s
      itself s = record {
        id = refl;
        project_id = refl;
        environment_id = refl;
        current_version = refl;
      }

  revived :
      (key : Text) (r : SecretRow) (vi : VersionInput) (record_audit : Bool) (db1 : Database)
      → is_key_of project_id environment_id key r ≡ true
      → IsKeyed db.encryption_keys
      → vi.value ≡ input.value
      → db1
        ≡ record db { secrets = update_where (λ (s : SecretRow). s.id == r.id) undelete db.secrets }
      → write_version actor cipher master draws.random r vi secret_created record_audit db1
        ≡ (ok m, db')
      → Spared key × Revived r
  unfolding shown_by
  revived key r vi record_audit db1 of_key keyed same tables writing =
      let rows = update_where (λ (s : SecretRow). s.id == r.id) undelete db.secrets in
      let p = rows_preserved cipher master rows db db1 tables keyed in
      let w =
        write_version-Written actor cipher master draws.random r vi secret_created record_audit
          lawful db1 db' m p.keyed writing in
      let (id, version) = id_kept draws.random r vi secret_created record_audit db1 w in
      (
        record {
          stored = stored_by draws.random r vi secret_created record_audit db1 key of_key same w;
          preserved = Preserves-trans cipher master db db1 db' p w.preserved;
          elsewhere = λ other ts different k.
              let apart : other ≢ r.id = λ e. different (e ∙ sym id) in
              history_elsewhere actor cipher master draws.random r vi secret_created record_audit
                db1 db' m other ts w apart
                (shown_by cipher master rows db db1 other k.row ts tables keyed
                  (undeleted_elsewhere r.id other db.secrets apart ∙ k.found) k.counted k.texts);
        },
        record {
          id = id;
          version = version;
          next = λ ts there counted texts good.
              let back =
                shown_by cipher master rows db db1 r.id (undelete r) ts tables keyed
                  (undeleted_here db.secrets r there) counted
                  (Texts-undelete cipher master db r ts texts) in
              let (shown, _, _) =
                history_here actor cipher master draws.random r vi secret_created record_audit db1
                  db' m r.id input.value ts w back
                  (record {
                    id = refl;
                    project_id = refl;
                    environment_id = refl;
                    current_version = refl;
                  })
                  good (ap utf8 same) in
              subst (λ (n : ℕ). HasHistory cipher master db' n (input.value ∷ ts)) (sym id) shown;
        },
      )

  pub outcome :
      (key : Text) (notes change_note : Option Text) (record_audit : Bool)
      (found : Option SecretRow)
      → ((r : SecretRow) → found ≡ some r → is_key_of project_id environment_id key r ≡ true)
      → IsKeyed db.encryption_keys
      → revive_or_insert actor cipher master draws project_id environment_id key input notes
          change_note record_audit found db
        ≡ (ok m, db')
      → Spared key
        × (((found ≡ none) × Fresh key) ⊎ ((r : SecretRow) × (found ≡ some r) × Revived r))
  unfolding revive_or_insert
  outcome key notes change_note record_audit none of_key keyed h =
      let attempt =
        insert_secret (new_secret draws.secret_id project_id environment_id key notes)
        >> write_version actor cipher master draws.random
            (new_secret draws.secret_id project_id environment_id key notes)
            (first_version actor cipher master input notes change_note) secret_created
            record_audit in
      let done = catch_unique-eq-ok (failed key_exists) attempt db db' m h in
      let (_, db1, inserting, h1) =
        bind-ok (insert_secret (new_secret draws.secret_id project_id environment_id key notes)) _
          db db' m done in
      let (spared, made) = fresh key notes _ record_audit db1 keyed refl inserting h1 in
      (spared, inl (refl, made))
  outcome key notes change_note record_audit (some r) of_key keyed h =
      let (spared, back) = revived key r _ record_audit _ (of_key r refl) keyed refl refl h in
      (spared, inr (r, refl, back))

  -- A creation that returns stores the value, under the version in the answer, for a secret of the
  -- environment with a valid key, and spares the histories of all others. If no row of the key was
  -- deleted alone, that is without its project or environment, the secret is new: the answer has the
  -- drawn id and the key, no row has had this id or key there, deleted ones included, and its
  -- history is the value alone. Else the deleted row comes back under its id, with the next version;
  -- if this row is the one of its id, and its versions were readable, its history goes on with the
  -- value. The key table is keyed, and the value of a history is a UTF-16 text.
  pub create_secret_effect :
      IsKeyed db.encryption_keys
      → create actor cipher master draws project_id environment_id input db ≡ (ok m, db')
      → (key : Text) × (validate_secret_key input.key input.allow_non_conforming_key ≡ ok key)
        × Spared key
        × (((find (is_recoverable project_id environment_id key) db.secrets ≡ none) × Fresh key)
            ⊎ ((r : SecretRow) × (find (is_recoverable project_id environment_id key) db.secrets
                  ≡ some r)
                × Revived r))
  unfolding create create_secret
  create_secret_effect keyed h =
      let (e, _, h1) = query-ok (environment project_id environment_id) _ db db' m h in
      let (_, _, h2) =
        query-ok (require actor (some project_id) e.protected secret_write) _ db db' m h1 in
      let (key, valid, h3) =
        query-ok (λ _. validate_secret_key input.key input.allow_non_conforming_key) _ db db' m
          h2 in
      let (notes, _, h4) =
        query-ok (λ _. validate_notes (or_else input.notes none)) _ db db' m h3 in
      let (change_note, _, h5) =
        query-ok (λ _. validate_change_note input.change_note) _ db db' m h4 in
      let (spared, cases) =
        outcome key notes change_note true
          (find (is_recoverable project_id environment_id key) db.secrets)
          (recoverable_of_key project_id environment_id key db.secrets) keyed h5 in
      (key, valid, spared, cases)
