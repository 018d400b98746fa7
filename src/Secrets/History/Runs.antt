-- ===== src/Secrets/History/Runs.antt =====
-- Calls of the service of packages/secrets/src/index.ts that return, one after the other, against the
-- abstract history of one secret.
use himitsu.Prelude.{
  ℕ, suc, ◌≡◌, ◌≢◌, refl, ap, ◌∙◌, subst, Option, some, none, List, [], ◌∷◌, length,
}
use himitsu.Text.{Text}
use himitsu.Errors.{ok}
use himitsu.Audit.{AuditEvent}
use himitsu.Database.{Database}
use himitsu.Tenant.{logged}
use himitsu.Crypto.{Cipher, IsCipher, LocalMasterKey}
use himitsu.Crypto.Keys.Table.Versions.{IsKeyed}
use himitsu.Crypto.Envelope.{Randomness}
use himitsu.Secrets.{SecretMetadata, SecretWithValue}
use himitsu.Secrets.History.Reading.{get-reads}
use himitsu.Secrets.Utf8.{to_well_formed}
use himitsu.Secrets.Utf8.RoundTrip.{IsText}
use himitsu.Secrets.Changes.{update, rollback}
use himitsu.Secrets.Reading.{get}
use himitsu.Secrets.Sealing.{Preserves}
use himitsu.Secrets.History.{HasHistory}
use himitsu.Secrets.History.Pushing.{update-Updated, update_value-Pushed, update_value-SparesOthers}
use himitsu.Secrets.History.RollingBack.{rollback-Pushed, rollback-SparesOthers}
use himitsu.Secrets.History.Keeping.{update_notes-Keeps, get-Keeps}
use himitsu.Secrets.History.Commands.{
  Command, set, roll_back, performed, replay, rolled_back, replay_grows,
}

module _ (cipher : Cipher) (master : LocalMasterKey) (secret_id : ℕ) where
  -- Calls that return, and what each is to the history of one secret: a value, a rollback, or nothing.
  pub data Calls : Database → List Command → Database → Type 0 where
    begin : (db : Database) → Calls db [] db
    sets :
        (actor : ℕ) (random : Randomness) (value : Text) (notes : Option (Option Text))
        (change_note : Option Text) (expected_version : Option ℕ) (tag_ids : Option (List ℕ))
        (cs : List Command) (db db1 db2 : Database) (m : SecretMetadata)
        → Calls db cs db1
        → IsText value
        → update actor cipher master random secret_id
            (some value)
            notes
            change_note
            expected_version
            tag_ids
            db1
          ≡ (ok m, db2)
        → Calls db (set value ∷ cs) db2
    rolls_back :
        (actor : ℕ) (random : Randomness) (target : ℕ) (expected_version : Option ℕ)
        (change_note : Option Text) (cs : List Command) (db db1 db2 : Database) (m : SecretMetadata)
        → Calls db cs db1
        → rollback actor cipher master random secret_id target expected_version change_note db1
          ≡ (ok m, db2)
        → Calls db (roll_back target ∷ cs) db2
    -- An update of any secret without a value.
    describes :
        (actor : ℕ) (random : Randomness) (any_id : ℕ) (notes : Option (Option Text))
        (change_note : Option Text) (expected_version : Option ℕ) (tag_ids : Option (List ℕ))
        (cs : List Command) (db db1 db2 : Database) (m : SecretMetadata)
        → Calls db cs db1
        → update actor cipher master random any_id none notes change_note expected_version tag_ids
            db1
          ≡ (ok m, db2)
        → Calls db cs db2
    sets_other :
        (actor : ℕ) (random : Randomness) (other : ℕ) (value : Text) (notes : Option (Option Text))
        (change_note : Option Text) (expected_version : Option ℕ) (tag_ids : Option (List ℕ))
        (cs : List Command) (db db1 db2 : Database) (m : SecretMetadata)
        → Calls db cs db1
        → secret_id ≢ other
        → update actor cipher master random other
            (some value)
            notes
            change_note
            expected_version
            tag_ids
            db1
          ≡ (ok m, db2)
        → Calls db cs db2
    rolls_back_other :
        (actor : ℕ) (random : Randomness) (other target : ℕ) (expected_version : Option ℕ)
        (change_note : Option Text) (cs : List Command) (db db1 db2 : Database) (m : SecretMetadata)
        → Calls db cs db1
        → secret_id ≢ other
        → rollback actor cipher master random other target expected_version change_note db1
          ≡ (ok m, db2)
        → Calls db cs db2
    -- A `get` of any secret.
    reads :
        (actor any_id : ℕ) (cs : List Command) (db db1 db2 : Database) (r : SecretWithValue)
        → Calls db cs db1
        → get actor cipher master any_id db1 ≡ (ok r, db2)
        → Calls db cs db2

  -- The tables show a history that the operations explain.
  pub record Explained (cs : List Command) (ts : List Text) (db : Database) : Type 0 where
    pub keyed : IsKeyed db.encryption_keys
    pub now : List Text
    pub explained : replay cs ts ≡ some now
    pub shown : HasHistory cipher master db secret_id now

  kept_on :
      (cs : List Command) (ts : List Text) (db1 db2 : Database)
      → Explained cs ts db1
      → Preserves cipher master db1 db2
      → ((us : List Text)
          → HasHistory cipher master db1 secret_id us
          → HasHistory cipher master db2 secret_id us)
      → Explained cs ts db2
  kept_on cs ts db1 db2 x p keep = record {
    keyed = p.keyed;
    now = x.now;
    explained = x.explained;
    shown = keep x.now x.shown;
  }

  -- Whatever calls return, one after the other, on a secret that is not deleted and on the others, the
  -- secret goes through what the abstract operations do to its list of values: an update with a value
  -- adds it, a rollback to a version adds the value that this version holds, which is one of an earlier
  -- version, and a `get`, an update without a value, and every update or rollback of another secret
  -- add nothing. No value is lost or changed: the tables show them all, under the numbers of their
  -- versions, encrypted under stored keys that can be read. The key table is keyed by its versions at
  -- the start, the values are UTF-16 texts, and the cipher unseals what it sealed.
  pub history_refines :
      (lawful : IsCipher cipher) (cs : List Command) (ts : List Text) (db db' : Database)
      → IsKeyed db.encryption_keys
      → HasHistory cipher master db secret_id ts
      → Calls db cs db'
      → Explained cs ts db'
  history_refines lawful cs ts db db' keyed k (begin _) = record {
    keyed = keyed;
    now = ts;
    explained = refl;
    shown = k;
  }
  history_refines lawful cs ts db db' keyed k
        (sets actor random value notes change_note expected tag_ids cs1 _ db1 _ m before good h) =
      let x = history_refines lawful cs1 ts db db1 keyed k before in
      let p =
        update_value-Pushed actor cipher lawful master random secret_id db1 db' m x.keyed value
          notes change_note expected tag_ids good
          (update-Updated actor cipher lawful master random secret_id db1 db' m x.keyed (some value)
            notes change_note expected tag_ids h) in
      let (shown, _, _) = p.here x.now x.shown in
      record {
        keyed = p.spares.preserved.keyed;
        now = value ∷ x.now;
        explained = rw x.explained refl;
        shown = shown;
      }
  history_refines lawful cs ts db db' keyed k
        (rolls_back actor random target expected change_note cs1 _ db1 _ m before h) =
      let x = history_refines lawful cs1 ts db db1 keyed k before in
      let (t, stored, below, p) =
        rollback-Pushed actor cipher lawful master random secret_id db1 db' m x.keyed target
          expected change_note x.now x.shown h in
      let (shown, _, _) = p.here x.now x.shown in
      record {
        keyed = p.spares.preserved.keyed;
        now = t ∷ x.now;
        explained =
            ap (performed (roll_back target)) x.explained ∙ rolled_back target t x.now stored below;
        shown = shown;
      }
  history_refines lawful cs ts db db' keyed k
        (describes actor random any_id notes change_note expected tag_ids _ _ db1 _ m before h) =
      let x = history_refines lawful cs ts db db1 keyed k before in
      let p =
        update_notes-Keeps cipher master lawful actor random any_id db1 db' m x.keyed notes
          change_note expected tag_ids
          (update-Updated actor cipher lawful master random any_id db1 db' m x.keyed none notes
            change_note expected tag_ids h) in
      kept_on cs ts db1 db' x p.preserved (p.all secret_id)
  history_refines lawful cs ts db db' keyed k
        (sets_other actor random other value notes change_note expected tag_ids _ _ db1 _ m before
          different h) =
      let x = history_refines lawful cs ts db db1 keyed k before in
      let p =
        update_value-SparesOthers actor cipher lawful master random other db1 db' m x.keyed value
          notes change_note expected tag_ids
          (update-Updated actor cipher lawful master random other db1 db' m x.keyed (some value)
            notes change_note expected tag_ids h) in
      kept_on cs ts db1 db' x p.preserved (λ us. p.elsewhere secret_id us different)
  history_refines lawful cs ts db db' keyed k
        (rolls_back_other actor random other target expected change_note _ _ db1 _ m before
          different h) =
      let x = history_refines lawful cs ts db db1 keyed k before in
      let p =
        rollback-SparesOthers actor cipher lawful master random other db1 db' m x.keyed target
          expected change_note h in
      kept_on cs ts db1 db' x p.preserved (λ us. p.elsewhere secret_id us different)
  history_refines lawful cs ts db db' keyed k (reads actor any_id _ _ db1 _ r before h) =
      let x = history_refines lawful cs ts db db1 keyed k before in
      let p = get-Keeps cipher master actor any_id db1 db' r x.keyed h in
      kept_on cs ts db1 db' x p.preserved (p.all secret_id)

-- After any such calls on a secret that has a value, a `get` that returns gives the value that the
-- abstract operations leave on top, with U+FFFD for each lone surrogate, under the number of values
-- that they leave; and it changes nothing but the audit log, by one event.
pub get_reads_last :
    (cipher : Cipher) (lawful : IsCipher cipher) (master : LocalMasterKey) (actor secret_id : ℕ)
    (cs : List Command) (t : Text) (ts : List Text) (db db' db'' : Database) (r : SecretWithValue)
    → IsKeyed db.encryption_keys
    → HasHistory cipher master db secret_id (t ∷ ts)
    → Calls cipher master secret_id db cs db'
    → get actor cipher master secret_id db' ≡ (ok r, db'')
    → (u : Text) × (us : List Text) × (replay cs (t ∷ ts) ≡ some (u ∷ us))
      × (r.value ≡ to_well_formed u)
      × (r.metadata.current_version ≡ suc (length us))
      × (event : AuditEvent) × (db'' ≡ logged event db')
get_reads_last cipher lawful master actor secret_id cs t ts db db' db'' r keyed k calls h =
    let x = history_refines cipher master secret_id lawful cs (t ∷ ts) db db' keyed k calls in
    let (u, us, same) = replay_grows cs t ts x.now x.explained in
    let shown =
      subst (λ (vs : List Text). HasHistory cipher master db' secret_id vs) same x.shown in
    let (value, version, event, logged_event) =
      get-reads actor cipher lawful master secret_id u us db' db'' r x.keyed shown h in
    (
      u,
      us,
      x.explained ∙ ap (λ (vs : List Text). some vs) same,
      value,
      version,
      event,
      logged_event,
    )
