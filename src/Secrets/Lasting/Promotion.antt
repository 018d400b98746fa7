-- ===== src/Secrets/Lasting/Promotion.antt =====
-- `previewPromotion` and `promote` of packages/secrets/src/index.ts, on the stored versions.
use himitsu.Prelude.{not, ℕ, suc, ◌≡◌, ap, true, false, Option, some, none, List, [], ◌∷◌, ◌==◌}
use himitsu.Text.{Text, text_eq}
use himitsu.Authz.{secret_write, secret_read}
use himitsu.Errors.{not_found, Result, ok, invalid_input}
use himitsu.Exec.{◌>>=◌, Exec, bind-ok, query-ok, guard-ok}
use himitsu.Audit.{secret_updated}
use himitsu.Database.{Database}
use himitsu.Tenant.{require}
use himitsu.Crypto.{Bytes, Cipher, IsCipher, LocalMasterKey}
use himitsu.Secrets.{Draws, failed}
use himitsu.Secrets.Store.{environment, decrypt_value}
use himitsu.Secrets.Sealing.{Preserves-trans}
use himitsu.Secrets.History.Reading.{answer_logged}
use himitsu.Secrets.Promotion.{
  Valued, authorize_promotion, values_differ, preview_one, preview_items, promotion_preview,
  preview_promotion, promote_value, promote_all, promote, target_of, creating, overwriting,
  normalize_selection, valued_in, all_found, preview_of, promotion_event,
}
use himitsu.Secrets.Lasting.{
  Lasts, logged-Lasts, query-Lasts, create_secret-Lasts, write_version-Lasts, decrypt_value-Lasts,
}

module _ (actor : ℕ) (cipher : Cipher) (lawful : IsCipher cipher) (master : LocalMasterKey)
    (project_id source_id target_id : ℕ) where
  values_differ-Lasts :
      (source target : Valued)
      → Lasts cipher master
          (values_differ actor cipher master project_id source_id target_id source target)
  unfolding values_differ
  values_differ-Lasts source target db db' b keyed h =
      let (x, db1, h1, h2) =
        bind-ok
          (decrypt_value cipher master source.secret source.version source.secret.current_version) _
          db db' b h in
      let p =
        decrypt_value-Lasts cipher master source.secret source.version source.secret.current_version
          db db1 x keyed h1 in
      let (y, db2, h3, h4) =
        bind-ok
          (decrypt_value cipher master target.secret target.version target.secret.current_version) _
          db1 db' b h2 in
      let q =
        decrypt_value-Lasts cipher master target.secret target.version target.secret.current_version
          db1 db2 y p.keyed h3 in
      let r = query-Lasts cipher master (λ c. ok (not (text_eq x y))) db2 db' b q.keyed h4 in
      Preserves-trans cipher master db db1 db' p (Preserves-trans cipher master db1 db2 db' q r)

  preview_one-Lasts :
      (source : Valued) (target : Option Valued)
      → Lasts cipher master
          (preview_one actor cipher master project_id source_id target_id source target)
  unfolding preview_one
  preview_one-Lasts source none db db' i keyed h =
      query-Lasts cipher master (λ b. ok (creating source)) db db' i keyed h
  preview_one-Lasts source (some target) db db' i keyed h =
      let (changed, db1, h1, h2) =
        bind-ok (values_differ actor cipher master project_id source_id target_id source target) _
          db db' i h in
      let p = values_differ-Lasts source target db db1 changed keyed h1 in
      Preserves-trans cipher master db db1 db' p (
        query-Lasts cipher master (λ b. ok (overwriting source target changed)) db1 db' i p.keyed
          h2)

  preview_items-Lasts :
      (targets sources : List Valued)
      → Lasts cipher master
          (preview_items actor cipher master project_id source_id target_id targets sources)
  unfolding preview_items
  preview_items-Lasts targets [] db db' is keyed h =
      query-Lasts cipher master (λ b. ok []) db db' is keyed h
  preview_items-Lasts targets (source ∷ rest) db db' is keyed h =
      let target = target_of targets source.secret.key in
      let (i, db1, h1, h2) =
        bind-ok (preview_one actor cipher master project_id source_id target_id source target) _ db
          db' is h in
      let p = preview_one-Lasts source target db db1 i keyed h1 in
      let (js, db2, h3, h4) =
        bind-ok (preview_items actor cipher master project_id source_id target_id targets rest) _
          db1 db' is h2 in
      let q = preview_items-Lasts targets rest db1 db2 js p.keyed h3 in
      let r = query-Lasts cipher master (λ b. ok (i ∷ js)) db2 db' is q.keyed h4 in
      Preserves-trans cipher master db db1 db' p (Preserves-trans cipher master db1 db2 db' q r)

  promote_value-Lasts :
      (draws : Draws) (source : Valued) (plaintext : Bytes) (target : Option Valued)
      → Lasts cipher master (
          promote_value actor cipher master project_id source_id target_id draws source plaintext
            target)
  unfolding promote_value
  promote_value-Lasts draws source plaintext none =
      create_secret-Lasts cipher master actor lawful draws project_id target_id _ true false
  promote_value-Lasts draws source plaintext (some target) =
      write_version-Lasts cipher master actor lawful draws.random target.secret _ secret_updated
        false

  promote_all-Lasts :
      (draws : ℕ → Draws) (targets sources : List Valued) (index : ℕ)
      → Lasts cipher master (
          promote_all actor cipher master project_id source_id target_id draws targets index
            sources)
  unfolding promote_all
  promote_all-Lasts draws targets [] index db db' ms keyed h =
      query-Lasts cipher master (λ b. ok []) db db' ms keyed h
  promote_all-Lasts draws targets (source ∷ rest) index db db' ms keyed h =
      let (x, db1, h1, h2) =
        bind-ok
          (decrypt_value cipher master source.secret source.version source.secret.current_version) _
          db db' ms h in
      let p =
        decrypt_value-Lasts cipher master source.secret source.version source.secret.current_version
          db db1 x keyed h1 in
      let target = target_of targets source.secret.key in
      let (m, db2, h3, h4) =
        bind-ok
          (promote_value actor cipher master project_id source_id target_id (draws index) source x
            target)
          _ db1 db' ms h2 in
      let q = promote_value-Lasts (draws index) source x target db1 db2 m p.keyed h3 in
      let (ns, db3, h5, h6) =
        bind-ok
          (promote_all actor cipher master project_id source_id target_id draws targets (suc index)
            rest)
          _ db2 db' ms h4 in
      let r = promote_all-Lasts draws targets rest (suc index) db2 db3 ns q.keyed h5 in
      let t = query-Lasts cipher master (λ b. ok (m ∷ ns)) db3 db' ms r.keyed h6 in
      Preserves-trans cipher master db db1 db' p (
        Preserves-trans cipher master db1 db2 db' q (Preserves-trans cipher master db2 db3 db' r t))

  promotion_preview-Lasts :
      (sources targets : List Valued) (selected : Option (List Text))
      → Lasts cipher master (
          promotion_preview actor cipher master project_id source_id target_id sources targets
            selected)
  unfolding promotion_preview
  promotion_preview-Lasts sources targets selected db db' r keyed h =
      let (_, h1) = guard-ok (all_found selected sources) (failed not_found) _ db db' r h in
      let (is, db1, h2, h3) =
        bind-ok (preview_items actor cipher master project_id source_id target_id targets sources) _
          db db' r h1 in
      let p = preview_items-Lasts targets sources db db1 is keyed h2 in
      Preserves-trans cipher master db db1 db' p
        (query-Lasts cipher master (λ b. ok (preview_of is)) db1 db' r p.keyed h3)

  authorized_reads :
      {B : Type 0} (keys : Option (List Text)) (f : Option (List Text) → Exec Database B)
      (db db' : Database) (r : B)
      → (authorize_promotion actor cipher master project_id source_id target_id keys >>= f) db
        ≡ (ok r, db')
      → (selected : Option (List Text)) × (f selected db ≡ (ok r, db'))
  unfolding authorize_promotion
  authorized_reads keys f db db' r h =
      let (selected, db1, permitted, rest) =
        bind-ok (authorize_promotion actor cipher master project_id source_id target_id keys) f db
          db' r h in
      let (_, h1) =
        guard-ok (not (source_id == target_id)) (failed invalid_input) _ db db1 selected
          permitted in
      let (chosen, _, h2) = query-ok (λ _. normalize_selection keys) _ db db1 selected h1 in
      let (source, _, h3) = query-ok (environment project_id source_id) _ db db1 selected h2 in
      let (target, _, h4) = query-ok (environment project_id target_id) _ db db1 selected h3 in
      let (_, _, h5) =
        query-ok (require actor (some project_id) source.protected secret_read) _ db db1 selected
          h4 in
      let (_, _, h6) =
        query-ok (require actor (some project_id) target.protected secret_write) _ db db1 selected
          h5 in
      let same : db ≡ db1 = ap (λ (x : Result (Option (List Text)) × Database). x.1) h6 in
      (selected, rw same rest)

  pub promote-Lasts :
      (draws : ℕ → Draws) (keys : Option (List Text))
      → Lasts cipher master (promote actor cipher master project_id source_id target_id draws keys)
  unfolding promote
  promote-Lasts draws keys db db' r keyed h =
      let (selected, h1) = authorized_reads keys _ db db' r h in
      let sources = valued_in project_id source_id selected db in
      let targets = valued_in project_id target_id selected db in
      let (preview, db1, h2, h3) =
        bind-ok
          (promotion_preview actor cipher master project_id source_id target_id sources targets
            selected)
          _ db db' r h1 in
      let p = promotion_preview-Lasts sources targets selected db db1 preview keyed h2 in
      let (ms, db2, h4, h5) =
        bind-ok
          (promote_all actor cipher master project_id source_id target_id draws targets 0 sources) _
          db1 db' r h3 in
      let q = promote_all-Lasts draws targets sources 0 db1 db2 ms p.keyed h4 in
      let (_, same) =
        answer_logged _
          (λ org_id.
            promotion_event actor cipher master project_id source_id target_id org_id preview)
          db2 db' r h5 in
      Preserves-trans cipher master db db1 db' p (
        Preserves-trans cipher master db1 db2 db' q
          (logged-Lasts cipher master _ db2 db' q.keyed same))

  pub preview_promotion-Lasts :
      (keys : Option (List Text))
      → Lasts cipher master
          (preview_promotion actor cipher master project_id source_id target_id keys)
  unfolding preview_promotion
  preview_promotion-Lasts keys db db' r keyed h =
      let (selected, h1) = authorized_reads keys _ db db' r h in
      promotion_preview-Lasts (valued_in project_id source_id selected db)
        (valued_in project_id target_id selected db) selected db db' r keyed h1
