-- ===== src/Secrets/Conflicts.antt =====
-- Writers of packages/secrets/src/index.ts that expect a version which is no longer the current one.
use himitsu.Prelude.{
  leb, or_else, ℕ, ◌≡◌, ◌≢◌, refl, ap, sym, ◌∙◌, inl, inr, Bool, true, false, Option, some, List,
  find, length, arith,
}
use himitsu.Text.{Text}
use himitsu.Errors.{SecretErrorCode, version_conflict, Error, Result, Result-cases, ok, err}
use himitsu.Exec.{Exec, query, guard, ◌>>=◌}
use himitsu.Database.{Database, SecretRow}
use himitsu.Authz.{secret_write}
use himitsu.Tenant.{require}
use himitsu.Crypto.{Cipher, IsCipher, LocalMasterKey}
use himitsu.Crypto.Keys.Table.Versions.{IsKeyed}
use himitsu.Crypto.Envelope.{Randomness}
use himitsu.Secrets.{failed, SecretMetadata}
use himitsu.Secrets.Utf8.RoundTrip.{IsText}
use himitsu.Secrets.Store.{environment, is_live, metadata_row}
use himitsu.Secrets.Changes.{is_expected, update, rollback}
use himitsu.Secrets.Versions.{metadata_row-ok}
use himitsu.Secrets.History.{HasHistory}
use himitsu.Secrets.History.Pushing.{update-Updated, update_value-Pushed}

-- The method throws and has written nothing.
abbrev pub Refused {ℓ} : {S A : Type ℓ} → Exec S A → S → Type ℓ
Refused m s = (e : Error) × (m s ≡ (err e, s))

query-Refused {ℓ} :
    {S A B : Type ℓ} (read : S → Result A) (f : A → Exec S B) (s : S)
    → ((a : A) → read s ≡ ok a → Refused (f a) s)
    → Refused (query read >>= f) s
query-Refused read f s h = elim (Result-cases (read s)) [
  | inl (e, bad) ↦ (e, rw bad refl)
  | inr (a, good) ↦ let (e, same) = h a good in (e, rw good same)
]

guard-Refused {ℓ} :
    {S B : Type ℓ} (b : Bool) (e : Error) (f : Unit {ℓ} → Exec S B) (s : S)
    → (b ≡ true → Refused (f tt) s)
    → Refused (guard b e >>= f) s
guard-Refused true e f s h = h refl
guard-Refused false e f s h = (e, refl)

some_same {ℓ} : {A : Type ℓ} (a b : A) → some a ≡ some b → a ≡ b
some_same a b h = ap (λ o. or_else o a) h

closed-Refused {ℓ} :
    {S B : Type ℓ} (b : Bool) (e : Error) (f : Unit {ℓ} → Exec S B) (s : S)
    → b ≡ false
    → Refused (guard b e >>= f) s
closed-Refused true e f s h = cc
closed-Refused false e f s h = (e, refl)

not_expected :
    (expected version : ℕ) → version ≢ expected → is_expected (some expected) version ≡ false
not_expected expected version h = ground arith

module _ (actor : ℕ) (cipher : Cipher) (master : LocalMasterKey) (random : Randomness)
    (secret_id : ℕ) (db : Database) (row : SecretRow)
    (found : find (is_live secret_id) db.secrets ≡ some row) (expected : ℕ)
    (stale : row.current_version ≢ expected) where
  the_row :
      (before : SecretRow)
      → metadata_row secret_id db ≡ ok before
      → before.current_version ≢ expected
  the_row before h =
      let other = metadata_row-ok secret_id db before h in
      λ e. stale (ap (λ (r : SecretRow). r.current_version) (some_same _ _ (sym found ∙ other)) ∙ e)

  pub update-Refused :
      (value : Option Text) (notes : Option (Option Text)) (change_note : Option Text)
      (tag_ids : Option (List ℕ))
      → Refused
          (update actor cipher master random secret_id value notes change_note
            (some expected)
            tag_ids)
          db
  unfolding update
  update-Refused value notes change_note tag_ids =
      query-Refused (metadata_row secret_id) _ db λ before h.
        query-Refused (environment before.project_id before.environment_id) _ db λ e _.
          query-Refused (require actor (some before.project_id) e.protected secret_write) _ db
            λ _ _.
              closed-Refused (is_expected (some expected) before.current_version)
                (failed version_conflict) _ db
                (not_expected expected before.current_version (the_row before h))

  pub rollback-Refused :
      (target : ℕ) (change_note : Option Text)
      → Refused
          (rollback actor cipher master random secret_id target (some expected) change_note)
          db
  unfolding rollback
  rollback-Refused target change_note =
      guard-Refused (leb 1 target) (failed SecretErrorCode.invalid_input) _ db λ _.
        query-Refused (metadata_row secret_id) _ db λ before h.
          query-Refused (environment before.project_id before.environment_id) _ db λ e _.
            query-Refused (require actor (some before.project_id) e.protected secret_write) _ db
              λ _ _.
                closed-Refused (is_expected (some expected) before.current_version)
                  (failed version_conflict) _ db
                  (not_expected expected before.current_version (the_row before h))

module _ (cipher : Cipher) (lawful : IsCipher cipher) (master : LocalMasterKey)
    (secret_id : ℕ) where
  -- No update is lost: when two writers expect the same version of a secret and one has set a value,
  -- the other is refused, whoever it is and whatever it wants to write, by an update or by a rollback,
  -- and nothing of it is written. The secret has a history, whose key table is keyed, and the
  -- cipher unseals what it sealed.
  pub late_writer_fails :
      (first second : ℕ) (random random' : Randomness) (value : Text) (notes : Option (Option Text))
      (change_note : Option Text) (expected : ℕ) (tag_ids : Option (List ℕ)) (ts : List Text)
      (db db' : Database) (m : SecretMetadata)
      → IsKeyed db.encryption_keys
      → HasHistory cipher master db secret_id ts
      → IsText value
      → update first cipher master random secret_id
          (some value)
          notes
          change_note
          (some expected)
          tag_ids
          db
        ≡ (ok m, db')
      → ((value' : Option Text) (notes' : Option (Option Text)) (change_note' : Option Text)
            (tag_ids' : Option (List ℕ))
          → Refused
              (update second cipher master random' secret_id value' notes' change_note'
                (some expected)
                tag_ids')
              db')
        × ((target : ℕ) (change_note' : Option Text)
            → Refused
                (rollback second cipher master random' secret_id target
                  (some expected)
                  change_note')
                db')
  late_writer_fails first second random random' value notes change_note expected tag_ids ts db db' m
        keyed history good h =
      let u =
        update-Updated first cipher lawful master random secret_id db db' m keyed (some value) notes
          change_note (some expected) tag_ids h in
      let pushed =
        update_value-Pushed first cipher lawful master random secret_id db db' m keyed value notes
          change_note (some expected) tag_ids good u in
      let (after, _, _) = pushed.here ts history in
      let same =
        some_same _ _ (sym history.found ∙ metadata_row-ok secret_id db u.before u.found) in
      let old : u.before.current_version ≡ length ts =
        sym (ap (λ (r : SecretRow). r.current_version) same) ∙ history.counted in
      let met : expected ≡ u.before.current_version = ground (arith, u.expected) in
      let stale : after.row.current_version ≢ expected =
        λ e. omega (arith, e, old, met, after.counted) in
      (
        update-Refused second cipher master random' secret_id db' after.row after.found expected
            stale,
        rollback-Refused second cipher master random' secret_id db' after.row after.found expected
            stale,
      )
