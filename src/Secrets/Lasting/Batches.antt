-- ===== src/Secrets/Lasting/Batches.antt =====
-- `bulkSet` and `importBatch` of packages/secrets/src/index.ts, on the stored versions.
use himitsu.Prelude.{
  not, or_else, ℕ, suc, Bool, true, false, ◌&&◌, Option, some, none, List, [], ◌∷◌, ◌++◌, find,
  length, leb,
}
use himitsu.Text.{Text, distinct_texts, codes, text_eq}
use himitsu.Authz.{secret_write}
use himitsu.Errors.{ok, invalid_input}
use himitsu.Exec.{bind-ok, query-ok, guard-ok}
use himitsu.Audit.{secret_updated}
use himitsu.Database.{SecretRow}
use himitsu.Tenant.{require}
use himitsu.Crypto.{Cipher, IsCipher, LocalMasterKey}
use himitsu.Secrets.{Draws, SetSecretInput, failed, max_bulk_items}
use himitsu.Secrets.Store.{environment}
use himitsu.Secrets.Sealing.{Preserves-trans}
use himitsu.Secrets.History.Reading.{answer_logged}
use himitsu.Secrets.Batches.{normalize, keys_of, is_live_key, Keyed, set_one, set_all, bulk_set}
use himitsu.Secrets.Batches.Importing.{
  counted, existing_rows, no_progress, bad_selection, environment_event, import_details,
  format_name, included, Progress, import_one, import_all, import_batch, SecretImportStrategy,
  SecretImportFormat,
}
use himitsu.Secrets.Lasting.{
  Lasts, logged-Lasts, chosen-Lasts, query-Lasts, create_secret-Lasts, write_version-Lasts,
}

module _ (actor : ℕ) (cipher : Cipher) (lawful : IsCipher cipher) (master : LocalMasterKey)
    (project_id environment_id : ℕ) where
  set_one-Lasts :
      (draws : Draws) (key : Text) (input : SetSecretInput) (change_note : Option Text)
      (record_audit : Bool) (row : Option SecretRow)
      → Lasts cipher master (
          set_one actor cipher master project_id environment_id draws key input change_note
            record_audit row)
  unfolding set_one
  set_one-Lasts draws key input change_note record_audit none =
      create_secret-Lasts cipher master actor lawful draws project_id environment_id _ true
        record_audit
  set_one-Lasts draws key input change_note record_audit (some row) =
      write_version-Lasts cipher master actor lawful draws.random row _ secret_updated record_audit

  set_all-Lasts :
      (draws : ℕ → Draws) (items : List Keyed) (index : ℕ)
      → Lasts cipher master
          (set_all actor cipher master project_id environment_id draws index items)
  unfolding set_all
  set_all-Lasts draws [] index db db' ms keyed h =
      query-Lasts cipher master (λ b. ok []) db db' ms keyed h
  set_all-Lasts draws (k ∷ rest) index db db' ms keyed h =
      let row = find (is_live_key project_id environment_id k.key) db.secrets in
      let one =
        set_one actor cipher master project_id environment_id (draws index) k.key k.input
          k.input.change_note true row in
      let (m, db1, h1, h2) = bind-ok one _ db db' ms h in
      let p =
        set_one-Lasts (draws index) k.key k.input k.input.change_note true row db db1 m keyed h1 in
      let (ns, db2, h3, h4) =
        bind-ok (set_all actor cipher master project_id environment_id draws (suc index) rest) _ db1
          db' ms h2 in
      let q = set_all-Lasts draws rest (suc index) db1 db2 ns p.keyed h3 in
      let r = query-Lasts cipher master (λ b. ok (m ∷ ns)) db2 db' ms q.keyed h4 in
      Preserves-trans cipher master db db1 db' p (Preserves-trans cipher master db1 db2 db' q r)

  pub bulk_set-Lasts :
      (draws : ℕ → Draws) (inputs : List SetSecretInput)
      → Lasts cipher master (bulk_set actor cipher master project_id environment_id draws inputs)
  unfolding bulk_set
  bulk_set-Lasts draws inputs db db' ms keyed h =
      let (_, h1) =
        guard-ok (leb 1 (length inputs) && leb (length inputs) max_bulk_items)
          (failed invalid_input) _ db db' ms h in
      let (items, _, h2) = query-ok (λ _. normalize inputs) _ db db' ms h1 in
      let (_, h3) =
        guard-ok (distinct_texts (keys_of items)) (failed invalid_input) _ db db' ms h2 in
      let (e, _, h4) = query-ok (environment project_id environment_id) _ db db' ms h3 in
      let (_, _, h5) =
        query-ok (require actor (some project_id) e.protected secret_write) _ db db' ms h4 in
      set_all-Lasts draws items 0 db db' ms keyed h5

  import_one-Lasts :
      (draws : Draws) (strategy : SecretImportStrategy) (selected : List Text)
      (format : SecretImportFormat) (k : Keyed) (p : Progress) (row : Option SecretRow)
      → Lasts cipher master (
          import_one actor cipher master project_id environment_id draws strategy selected format k
            p row)
  unfolding import_one
  import_one-Lasts draws strategy selected format k p row =
      let note = some (or_else k.input.change_note (format_name format ++ codes " import")) in
      chosen-Lasts cipher master (included strategy selected k.key row) _ _
        (λ db db' q keyed h.
          let (m, db1, h1, h2) =
            bind-ok
              (set_one actor cipher master project_id environment_id draws k.key k.input note false
                row)
              _ db db' q h in
          let first = set_one-Lasts draws k.key k.input note false row db db1 m keyed h1 in
          Preserves-trans cipher master db db1 db' first
            (query-Lasts cipher master (λ b. ok (counted p row m)) db1 db' q first.keyed h2))
        (query-Lasts cipher master (λ b. ok (record p { skipped = suc p.skipped })))

  pub import_all-Lasts :
      (draws : ℕ → Draws) (strategy : SecretImportStrategy) (selected : List Text)
      (format : SecretImportFormat) (existing : List SecretRow) (items : List Keyed) (index : ℕ)
      (p : Progress)
      → Lasts cipher master (
          import_all actor cipher master project_id environment_id draws strategy selected format
            existing index items p)
  unfolding import_all
  import_all-Lasts draws strategy selected format existing [] index p db db' q keyed h =
      query-Lasts cipher master (λ b. ok p) db db' q keyed h
  import_all-Lasts draws strategy selected format existing (k ∷ rest) index p db db' q keyed h =
      let row = find (λ (s : SecretRow). text_eq s.key k.key) existing in
      let (p1, db1, h1, h2) =
        bind-ok
          (import_one actor cipher master project_id environment_id (draws index) strategy selected
            format k p row)
          _ db db' q h in
      let first =
        import_one-Lasts (draws index) strategy selected format k p row db db1 p1 keyed h1 in
      Preserves-trans cipher master db db1 db' first (
        import_all-Lasts draws strategy selected format existing rest (suc index) p1 db1 db' q
          first.keyed h2)

  pub import_batch-Lasts :
      (draws : ℕ → Draws) (inputs : List SetSecretInput) (strategy : SecretImportStrategy)
      (selected : List Text) (format : SecretImportFormat)
      → Lasts cipher master (
          import_batch actor cipher master project_id environment_id draws inputs strategy selected
            format)
  unfolding import_batch
  import_batch-Lasts draws inputs strategy selected format db db' r keyed h =
      let (_, h1) =
        guard-ok (leb 1 (length inputs) && leb (length inputs) max_bulk_items)
          (failed invalid_input) _ db db' r h in
      let (items, _, h2) = query-ok (λ _. normalize inputs) _ db db' r h1 in
      let (_, h3) =
        guard-ok (distinct_texts (keys_of items)) (failed invalid_input) _ db db' r h2 in
      let (_, h4) =
        guard-ok (not (bad_selection strategy selected (keys_of items))) (failed invalid_input) _ db
          db' r h3 in
      let (e, _, h5) = query-ok (environment project_id environment_id) _ db db' r h4 in
      let (_, _, h6) =
        query-ok (require actor (some project_id) e.protected secret_write) _ db db' r h5 in
      let existing = existing_rows project_id environment_id (keys_of items) db in
      let (p, db1, h8, h9) =
        bind-ok
          (import_all actor cipher master project_id environment_id draws strategy selected format
            existing 0 items no_progress)
          _ db db' r h6 in
      let first =
        import_all-Lasts draws strategy selected format existing items 0 no_progress db db1 p keyed
          h8 in
      let (_, same) =
        answer_logged _
          (λ org_id.
            environment_event org_id actor project_id environment_id
              (import_details format strategy (length items) p))
          db1 db' r h9 in
      Preserves-trans cipher master db db1 db' first
        (logged-Lasts cipher master _ db1 db' first.keyed same)
