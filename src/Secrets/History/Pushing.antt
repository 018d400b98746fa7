-- ===== src/Secrets/History/Pushing.antt =====
-- `update` with a value, of packages/secrets/src/index.ts, on the values of a secret.
use himitsu.Prelude.{ℕ, suc, ◌≡◌, ◌≢◌, refl, ap, ◌∙◌, true, Option, some, List, ◌∷◌, length, arith}
use himitsu.Text.{Text}
use himitsu.Authz.{secret_write}
use himitsu.Errors.{ok, version_conflict}
use himitsu.Exec.{query-ok, guard-ok}
use himitsu.Audit.{secret_updated}
use himitsu.Database.{Database, SecretRow}
use himitsu.Tenant.{require}
use himitsu.Crypto.{Cipher, IsCipher, LocalMasterKey}
use himitsu.Crypto.Keys.Table.Versions.{IsKeyed}
use himitsu.Crypto.Envelope.{Randomness}
use himitsu.Secrets.{SecretMetadata, VersionInput, failed}
use himitsu.Secrets.Utf8.{utf8}
use himitsu.Secrets.Utf8.RoundTrip.{IsText}
use himitsu.Secrets.Store.{environment, metadata_row}
use himitsu.Secrets.Writing.{write_version}
use himitsu.Secrets.Changes.{update, replace, is_expected}
use himitsu.Secrets.Sealing.{Preserves}
use himitsu.Secrets.Versions.{metadata_row-ok, live_id}
use himitsu.Secrets.Versions.Written.{write_version-Written}
use himitsu.Secrets.History.{HasHistory}
use himitsu.Secrets.History.Effects.{Same, history_here, history_elsewhere}

module _ (actor : ℕ) (cipher : Cipher) (lawful : IsCipher cipher) (master : LocalMasterKey)
    (random : Randomness) (secret_id : ℕ) (db db' : Database) (m : SecretMetadata)
    (keyed : IsKeyed db.encryption_keys) where
  -- What a write to one secret makes of the others.
  pub record SparesOthers : Type 0 where
    pub preserved : Preserves cipher master db db'
    pub elsewhere :
        (other : ℕ) (ts : List Text)
        → other ≢ secret_id
        → HasHistory cipher master db other ts
        → HasHistory cipher master db' other ts

  -- What it makes of the secret itself.
  pub record Pushed (t : Text) : Type 0 where
    pub spares : SparesOthers
    pub here :
        (ts : List Text)
        → HasHistory cipher master db secret_id ts
        → HasHistory cipher master db' secret_id (t ∷ ts)
          × (m.id ≡ secret_id)
          × (m.current_version ≡ suc (length ts))

  pub spares_others :
      (before : SecretRow) (input : VersionInput)
      → metadata_row secret_id db ≡ ok before
      → write_version actor cipher master random before input secret_updated true db ≡ (ok m, db')
      → SparesOthers
  spares_others before input found h =
      let w =
        write_version-Written actor cipher master random before input secret_updated true lawful db
          db' m keyed h in
      let id = live_id secret_id db.secrets before (metadata_row-ok secret_id db before found) in
      record {
        preserved = w.preserved;
        elsewhere = λ other ts different k.
            history_elsewhere actor cipher master random before input secret_updated true db db' m
              other ts w (λ e. different (e ∙ id)) k;
      }

  pub pushed :
      (before : SecretRow) (input : VersionInput) (t : Text)
      → metadata_row secret_id db ≡ ok before
      → IsText t
      → utf8 input.value ≡ utf8 t
      → write_version actor cipher master random before input secret_updated true db ≡ (ok m, db')
      → Pushed t
  pushed before input t found good same h =
      let w =
        write_version-Written actor cipher master random before input secret_updated true lawful db
          db' m keyed h in
      let there = metadata_row-ok secret_id db before found in
      record {
        spares = spares_others before input found h;
        here = λ ts k.
            history_here actor cipher master random before input secret_updated true db db' m
              secret_id t ts w k (same_rows before k.row (ground (arith, there, k.found))) good
              same;
      }
    where
      same_rows : (s s' : SecretRow) → s' ≡ s → Same s s'
      same_rows s s' e = record {
        id = ap (λ (r : SecretRow). r.id) e;
        project_id = ap (λ (r : SecretRow). r.project_id) e;
        environment_id = ap (λ (r : SecretRow). r.environment_id) e;
        current_version = ap (λ (r : SecretRow). r.current_version) e;
      }

  -- The steps of an update that returns.
  pub record Updated (value : Option Text) (notes : Option (Option Text))
      (change_note : Option Text) (expected_version : Option ℕ) (tag_ids : Option (List ℕ))
      : Type 0 where
    pub before : SecretRow
    pub found : metadata_row secret_id db ≡ ok before
    pub expected : is_expected expected_version before.current_version ≡ true
    pub wrote :
        replace actor cipher master random before value notes change_note tag_ids db ≡ (ok m, db')

  pub update-Updated :
      (value : Option Text) (notes : Option (Option Text)) (change_note : Option Text)
      (expected_version : Option ℕ) (tag_ids : Option (List ℕ))
      → update actor cipher master random secret_id value notes change_note expected_version tag_ids
          db
        ≡ (ok m, db')
      → Updated value notes change_note expected_version tag_ids
  unfolding update
  update-Updated value notes change_note expected_version tag_ids h =
      let (before, found, h1) = query-ok (metadata_row secret_id) _ db db' m h in
      let (e, _, h2) =
        query-ok (environment before.project_id before.environment_id) _ db db' m h1 in
      let (_, _, h3) =
        query-ok (require actor (some before.project_id) e.protected secret_write) _ db db' m h2 in
      let (expected, h4) =
        guard-ok (is_expected expected_version before.current_version) (failed version_conflict) _
          db db' m h3 in
      record { before = before; found = found; expected = expected; wrote = h4 }

  pub update_value-SparesOthers :
      (value : Text) (notes : Option (Option Text)) (change_note : Option Text)
      (expected_version : Option ℕ) (tag_ids : Option (List ℕ))
      → Updated (some value) notes change_note expected_version tag_ids
      → SparesOthers
  unfolding replace
  update_value-SparesOthers value notes change_note expected_version tag_ids u =
      spares_others u.before _ u.found u.wrote

  pub update_value-Pushed :
      (value : Text) (notes : Option (Option Text)) (change_note : Option Text)
      (expected_version : Option ℕ) (tag_ids : Option (List ℕ))
      → IsText value
      → Updated (some value) notes change_note expected_version tag_ids
      → Pushed value
  unfolding replace
  update_value-Pushed value notes change_note expected_version tag_ids good u =
      pushed u.before _ value u.found good refl u.wrote
