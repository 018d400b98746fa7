-- ===== src/Secrets/Batches/Storing.antt =====
-- What the loop of `importBatch` of packages/secrets/src/index.ts stores.
use himitsu.Prelude.{
  ℕ, suc, ◌≡◌, refl, ap, sym, ◌∙◌, inl, inr, true, false, Option, some, none, List, [], ◌∷◌, ◌++◌,
  append_assoc, append-nil, or_else, Bool-cases, arith, if-true, subst,
}
use himitsu.Text.{Text, codes}
use himitsu.Errors.{ok}
use himitsu.Exec.{pure, bind-ok}
use himitsu.Audit.{secret_updated}
use himitsu.Database.{Database, SecretRow}
use himitsu.Crypto.{Cipher, IsCipher, LocalMasterKey}
use himitsu.Crypto.Keys.Table.Versions.{IsKeyed}
use himitsu.Secrets.{Draws, validate_secret_key, SecretMetadata}
use himitsu.Secrets.Utf8.{utf8}
use himitsu.Secrets.Store.{metadata_from_row, is_key_of}
use himitsu.Secrets.Sealing.{Holds, Holds-kept, Preserves}
use himitsu.Secrets.Versions.Written.{write_version-Written}
use himitsu.Secrets.Lasting.{create_secret-Spared}
use himitsu.Secrets.Lasting.Batches.{import_all-Lasts}
use himitsu.Secrets.Batches.{Keyed, set_one, version_input, with_key}
use himitsu.Secrets.Batches.Importing.{
  counted, format_name, included, Progress, import_one, import_all, SecretImportStrategy,
  SecretImportFormat,
}
use himitsu.Secrets.Batches.Counting.{row_of, is_chosen, chosen_is_included}

-- An item has the normal form of its own key.
abbrev pub IsNormal : Keyed → Type 0
IsNormal k = validate_secret_key k.key k.input.allow_non_conforming_key ≡ ok k.key

abbrev pub AreNormal : List Keyed → Type 0
AreNormal [] = Unit {0}
AreNormal (k ∷ rest) = IsNormal k × AreNormal rest

ok_same : (s t : Text) → ok s ≡ ok t → s ≡ t
ok_same s t h = cc

module _ (actor : ℕ) (cipher : Cipher) (lawful : IsCipher cipher) (master : LocalMasterKey)
    (project_id environment_id : ℕ) (existing : List SecretRow) where
  -- The secret of an answer has the item's key, and its value under the version in the answer. If the key had a
  -- row, it is that secret, one version on.
  pub record Stored (db : Database) (k : Keyed) (m : SecretMetadata) : Type 0 where
    pub value :
        (s : SecretRow) × (s.id ≡ m.id)
        × (is_key_of project_id environment_id k.key s ≡ true)
        × Holds cipher master db s m.current_version (utf8 k.input.value)
    pub next :
        (row : SecretRow)
        → row_of existing k ≡ some row
        → (m.id ≡ row.id) × (m.current_version ≡ suc row.current_version)

  Stored-kept :
      (db db' : Database) (k : Keyed) (m : SecretMetadata)
      → Preserves cipher master db db'
      → Stored db k m
      → Stored db' k m
  Stored-kept db db' k m p r =
      let (s, same, of_key, held) = r.value in
      record {
        value = (
          s,
          same,
          of_key,
          Holds-kept cipher master db db' s m.current_version (utf8 k.input.value) p held,
        );
        next = r.next;
      }

  -- The rows that were read are of the environment.
  abbrev Live : Type 0
  Live =
      (k : Keyed) (row : SecretRow)
      → row_of existing k ≡ some row
      → is_key_of project_id environment_id k.key row ≡ true

  set_one-Stored :
      (draws : Draws) (k : Keyed) (change_note : Option Text) (row : Option SecretRow)
      (db db' : Database) (m : SecretMetadata)
      → IsKeyed db.encryption_keys
      → IsNormal k
      → Live
      → row_of existing k ≡ row
      → set_one actor cipher master project_id environment_id draws k.key k.input change_note false
          row db
        ≡ (ok m, db')
      → Preserves cipher master db db' × Stored db' k m
  unfolding set_one metadata_from_row
  set_one-Stored draws k change_note none db db' m keyed normal live missing h =
      let (key, valid, spared) =
        create_secret-Spared cipher master actor lawful draws project_id environment_id
          (with_key k.key change_note k.input) true false db db' m keyed h in
      (
        spared.preserved,
        record {
          value =
              let (s, same, of_key, held) = spared.stored in
              let same_key = ok_same key k.key (sym valid ∙ normal) in
              (
                s,
                same,
                subst (λ (t : Text). is_key_of project_id environment_id t s ≡ true) same_key
                    of_key,
                held,
              );
          next = λ row found. ground (arith, missing, found);
        },
      )
  set_one-Stored draws k change_note (some row) db db' m keyed normal live found h =
      let w =
        write_version-Written actor cipher master draws.random row
          (version_input k.input change_note) secret_updated false lawful db db' m keyed h in
      let id : m.id ≡ row.id =
        ap (λ (x : SecretMetadata). x.id) w.answer ∙ ground (arith, w.live) in
      let version : m.current_version ≡ suc row.current_version =
        ap (λ (x : SecretMetadata). x.current_version) w.answer in
      (
        w.preserved,
        record {
          value = (row, sym id, live k row found, rw version w.holds);
          next = λ other again.
              let same : other ≡ row = ground (arith, found, again) in rw same (id, version);
        },
      )

  module _ (strategy : SecretImportStrategy) (selected : List Text) where
    -- The answers that an import gives for its items, in their order.
    pub data Answers (db : Database) : List Keyed → List SecretMetadata → Type 0 where
      all_answered : Answers db [] []
      answered :
          (k : Keyed) (m : SecretMetadata) (items : List Keyed) (ms : List SecretMetadata)
          → is_chosen strategy selected existing k ≡ true
          → Stored db k m
          → Answers db items ms
          → Answers db (k ∷ items) (m ∷ ms)
      left_out :
          (k : Keyed) (items : List Keyed) (ms : List SecretMetadata)
          → is_chosen strategy selected existing k ≡ false
          → Answers db items ms
          → Answers db (k ∷ items) ms

    pub Answers-kept :
        (db db' : Database) (items : List Keyed) (ms : List SecretMetadata)
        → Preserves cipher master db db'
        → Answers db items ms
        → Answers db' items ms
    Answers-kept db db' items ms p all_answered = all_answered
    Answers-kept db db' items ms p (answered k m rest ns chosen stored more) =
        answered k m rest ns chosen (Stored-kept db db' k m p stored)
          (Answers-kept db db' rest ns p more)
    Answers-kept db db' items ms p (left_out k rest _ out more) =
        left_out k rest _ out (Answers-kept db db' rest ms p more)

    -- What one round does, for an item that is written and for one that is not.
    data Round (k : Keyed) (p q : Progress) (db db' : Database) : Type 0 where
      wrote :
          (m : SecretMetadata)
          → is_chosen strategy selected existing k ≡ true
          → q.results ≡ p.results ++ m ∷ []
          → Preserves cipher master db db'
          → Stored db' k m
          → Round k p q db db'
      skipped :
          is_chosen strategy selected existing k ≡ false
          → q.results ≡ p.results
          → db' ≡ db
          → Round k p q db db'

    counted-results :
        (p : Progress) (row : Option SecretRow) (m : SecretMetadata)
        → (counted p row m).results ≡ p.results ++ m ∷ []
    counted-results p none m = refl
    counted-results p (some row) m = refl

    import_one-Round :
        (draws : Draws) (format : SecretImportFormat) (k : Keyed) (p q : Progress)
        (db db' : Database)
        → IsKeyed db.encryption_keys
        → IsNormal k
        → Live
        → import_one actor cipher master project_id environment_id draws strategy selected format k
            p
            (row_of existing k)
            db
          ≡ (ok q, db')
        → Round k p q db db'
    unfolding import_one
    import_one-Round draws format k p q db db' keyed normal live h =
        let rule = chosen_is_included strategy selected existing k in
        elim (Bool-cases (included strategy selected k.key (row_of existing k))) [
          | inr out ↦ skipped (sym rule ∙ out) (ground (arith, out)) (ground (arith, out))
          | inl chosen ↦
              let note =
                some (or_else k.input.change_note (format_name format ++ codes " import")) in
              let one =
                set_one actor cipher master project_id environment_id draws k.key k.input note false
                  (row_of existing k) in
              let (m, db1, h1, h2) =
                bind-ok one (λ m. pure (counted p (row_of existing k) m)) db db' q
                  (if-true (included strategy selected k.key (row_of existing k)) _ _ (ok q, db')
                    chosen h) in
              let (kept, stored) =
                set_one-Stored draws k note (row_of existing k) db db1 m keyed normal live refl
                  h1 in
              let last : db1 ≡ db' = ground (arith, h2) in
              let same : counted p (row_of existing k) m ≡ q = ground (arith, h2) in
              wrote m (sym rule ∙ chosen)
                (ap (λ (x : Progress). x.results) (sym same)
                  ∙ counted-results p (row_of existing k) m)
                (subst (λ (b : Database). Preserves cipher master db b) last kept)
                (subst (λ (b : Database). Stored b k m) last stored)
        ]

    pub import_all-Answers :
        (draws : ℕ → Draws) (format : SecretImportFormat) (items : List Keyed) (index : ℕ)
        (p q : Progress) (db db' : Database)
        → IsKeyed db.encryption_keys
        → AreNormal items
        → Live
        → import_all actor cipher master project_id environment_id draws strategy selected format
            existing index items p db
          ≡ (ok q, db')
        → (ms : List SecretMetadata) × (q.results ≡ p.results ++ ms) × Answers db' items ms
    unfolding import_all
    import_all-Answers draws format [] index p q db db' keyed normal live h =
        let same : q ≡ p = ground arith in
        ([], ap (λ (x : Progress). x.results) same ∙ sym (append-nil p.results), all_answered)
    import_all-Answers draws format (k ∷ rest) index p q db db' keyed (normal, others) live h =
        let (p1, db1, h1, h2) =
          bind-ok
            (import_one actor cipher master project_id environment_id (draws index) strategy
              selected format k p (row_of existing k))
            _ db db' q h in
        elim (import_one-Round (draws index) format k p p1 db db1 keyed normal live h1) [
          | wrote m chosen grown kept stored ↦
              let (ms, made, more) =
                import_all-Answers draws format rest (suc index) p1 q db1 db' kept.keyed others live
                  h2 in
              let lasting =
                import_all-Lasts actor cipher lawful master project_id environment_id draws strategy
                  selected format existing rest (suc index) p1 db1 db' q kept.keyed h2 in
              (
                m ∷ ms,
                made
                    ∙ ap (λ (r : List SecretMetadata). r ++ ms) grown
                    ∙ append_assoc p.results (m ∷ []) ms,
                answered k m rest ms chosen (Stored-kept db1 db' k m lasting stored) more,
              )
          | skipped out same unchanged ↦
              let (ms, made, more) =
                import_all-Answers draws format rest (suc index) p1 q db1 db' (rw unchanged keyed)
                  others live h2 in
              (
                ms,
                made ∙ ap (λ (r : List SecretMetadata). r ++ ms) same,
                left_out k rest ms out more,
              )
        ]
