-- ===== src/Secrets/History/Effects.antt =====
-- What a new version does to the values of the secrets of packages/secrets/src/index.ts.
use himitsu.Prelude.{
  ℕ, suc, ◌≡◌, ◌≢◌, refl, ap, sym, ◌∙◌, subst, Bool, some, List, ◌∷◌, find, length, arith,
  update_where,
}
use himitsu.Text.{Text}
use himitsu.Audit.{AuditAction}
use himitsu.Database.{Database, SecretRow}
use himitsu.Crypto.{Bytes, Cipher, LocalMasterKey}
use himitsu.Crypto.Envelope.{Randomness}
use himitsu.Secrets.{SecretMetadata, VersionInput}
use himitsu.Secrets.Utf8.{utf8}
use himitsu.Secrets.Utf8.RoundTrip.{IsText}
use himitsu.Secrets.Store.{is_live, metadata_from_row}
use himitsu.Secrets.Writing.{at_version}
use himitsu.Secrets.Sealing.{Holds}
use himitsu.Secrets.Versions.{live_id}
use himitsu.Secrets.Versions.Written.{Written}
use himitsu.Secrets.History.{found_after, found_elsewhere, HasHistory, Texts-kept, Texts-at_version}

-- Two rows of one secret.
pub record Same (s s' : SecretRow) : Type 0 where
  pub id : s'.id ≡ s.id
  pub project_id : s'.project_id ≡ s.project_id
  pub environment_id : s'.environment_id ≡ s.environment_id
  pub current_version : s'.current_version ≡ s.current_version

Holds-Same :
    (cipher : Cipher) (master : LocalMasterKey) (db : Database) (s s' : SecretRow) (version : ℕ)
    (value : Bytes)
    → Same s s'
    → Holds cipher master db s version value
    → Holds cipher master db s' version value
Holds-Same cipher master db s s' version value e h = rw (e.id, e.project_id, e.environment_id) h

module _ (actor : ℕ) (cipher : Cipher) (master : LocalMasterKey) (random : Randomness)
    (before : SecretRow) (input : VersionInput) (action : AuditAction) (record_audit : Bool) where
  -- A version of a live secret adds its value to the history.
  pub history_here :
      (db db' : Database) (m : SecretMetadata) (secret_id : ℕ) (t : Text) (ts : List Text)
      → Written actor cipher master random before input action record_audit db db' m
      → (h : HasHistory cipher master db secret_id ts) → Same before h.row
      → IsText t
      → utf8 input.value ≡ utf8 t
      → HasHistory cipher master db' secret_id (t ∷ ts)
        × (m.id ≡ secret_id)
        × (m.current_version ≡ suc (length ts))
  unfolding metadata_from_row
  history_here db db' m secret_id t ts w h e good same =
      let here : before.id ≡ secret_id = sym e.id ∙ live_id secret_id db.secrets h.row h.found in
      let number : before.current_version ≡ length ts = sym e.current_version ∙ h.counted in
      let f = at_version (suc before.current_version) w.notes in
      let found : find (is_live before.id) db.secrets ≡ some h.row =
        ap (λ (n : ℕ). find (is_live n) db.secrets) here ∙ h.found in
      let old : w.old ≡ h.row = ground (arith, found, w.found) in
      (
        record {
          row = f h.row;
          found =
              ap (λ (b : Database). find (is_live secret_id) b.secrets) w.tables
              ∙ ap (λ (n : ℕ). find (is_live secret_id) (update_where (is_live n) f db.secrets))
                  here
              ∙ found_after secret_id f db.secrets h.row (λ r. refl) h.found;
          counted = ap suc number;
          texts = (
            good,
            subst (λ (b : Bytes). Holds cipher master db' h.row (suc (length ts)) b) same
                (subst (λ (n : ℕ). Holds cipher master db' h.row (suc n) (utf8 input.value)) number
                  (Holds-Same cipher master db' before h.row (suc before.current_version)
                    (utf8 input.value) e w.holds)),
            Texts-at_version cipher master db' h.row ts (suc before.current_version) w.notes
                (Texts-kept cipher master db db' h.row ts w.preserved h.texts),
          );
        },
        ap (λ (x : SecretMetadata). x.id) w.answer ∙ ap (λ (r : SecretRow). r.id) old ∙ e.id ∙ here,
        ap (λ (x : SecretMetadata). x.current_version) w.answer ∙ ap suc number,
      )

  -- It changes no other secret.
  pub history_elsewhere :
      (db db' : Database) (m : SecretMetadata) (other : ℕ) (ts : List Text)
      → Written actor cipher master random before input action record_audit db db' m
      → other ≢ before.id
      → HasHistory cipher master db other ts
      → HasHistory cipher master db' other ts
  history_elsewhere db db' m other ts w different h = record {
    row = h.row;
    found =
        ap (λ (b : Database). find (is_live other) b.secrets) w.tables
        ∙ found_elsewhere before.id other (at_version (suc before.current_version) w.notes)
            db.secrets different (λ r. refl)
        ∙ h.found;
    counted = h.counted;
    texts = Texts-kept cipher master db db' h.row ts w.preserved h.texts;
  }
