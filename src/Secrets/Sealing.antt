-- ===== src/Secrets/Sealing.antt =====
-- The envelope service as packages/secrets/src/index.ts uses it: a new one for each call, over the
-- transaction's table of keys; and what the versions of a secret hold.
use himitsu.Prelude.{
  ℕ, ◌≡◌, refl, ap, sym, ◌∙◌, inl, inr, Bool, true, false, Option, some, List, [], ◌∷◌, find, any,
  length, Bool-cases, arith,
}
use himitsu.Text.{Text}
use himitsu.Errors.{Result, ok}
use himitsu.Database.{Database, SecretRow, SecretVersionRow}
use himitsu.Crypto.{Bytes, Cipher, IsCipher, LocalMasterKey, EncryptedSecretValue}
use himitsu.Crypto.Keys.Table.{KeyTable}
use himitsu.Crypto.Keys.Table.Versions.{IsKeyed}
use himitsu.Crypto.Keys.Table.Activation.{KeepsKeys}
use himitsu.Crypto.Envelope.{Randomness, encrypt}
use himitsu.Crypto.Envelope.Loading.{IsSound}
use himitsu.Crypto.Envelope.Reading.{
  Readable, Readable-kept, Readable-named, decrypt-Readable, decrypt-keys, encrypt-Readable,
}
use himitsu.Secrets.Store.{
  no_cache, vault_of, context_of, encrypted, encrypt_value, decrypt_value, is_version,
  insert_version,
}
use himitsu.Secrets.Writing.{new_version}

pub fresh-IsSound :
    (cipher : Cipher) (master : LocalMasterKey) (db : Database)
    → IsKeyed db.encryption_keys
    → IsSound cipher master no_cache (vault_of db)
fresh-IsSound cipher master db keyed = record { keyed = keyed; cached = tt; bounded = omega arith }

found_first :
    (v : SecretVersionRow) (versions : List SecretVersionRow) (id version : ℕ)
    → v.secret_id ≡ id
    → v.version ≡ version
    → find (is_version id version) (v ∷ versions) ≡ some v
found_first v versions id version a b = ground arith

-- Every version of a table is found in the other.
abbrev pub KeepsVersions : List SecretVersionRow → List SecretVersionRow → Type 0
KeepsVersions versions versions' =
    (id version : ℕ) (v : SecretVersionRow)
    → find (is_version id version) versions ≡ some v
    → find (is_version id version) versions' ≡ some v

none_found :
    (q : SecretVersionRow → Bool) (versions : List SecretVersionRow) (v : SecretVersionRow)
    → any q versions ≡ false
    → find q versions ≡ some v
    → false ≡ true
none_found q [] v unused found = cc
none_found q (w ∷ rest) v unused found = ground (arith, none_found q rest v)

pub new_keeps :
    (v : SecretVersionRow) (versions : List SecretVersionRow)
    → any (is_version v.secret_id v.version) versions ≡ false
    → KeepsVersions versions (v ∷ versions)
new_keeps v versions unused id version w found = elim (Bool-cases (is_version id version v)) [
  | inr other ↦ rw other found
  | inl same ↦
      let one : v.secret_id ≡ id = ground arith in
      let two : v.version ≡ version = ground arith in
      let again : find (is_version v.secret_id v.version) versions ≡ some w = rw (one, two) found in
      let bad = none_found (is_version v.secret_id v.version) versions w unused again in cc
]

pub insert_version-ok :
    (v : SecretVersionRow) (db db' : Database)
    → insert_version v db ≡ (ok tt, db')
    → (db' ≡ record db { secret_versions = v ∷ db.secret_versions })
      × (length v.nonce ≡ 12)
      × (length v.auth_tag ≡ 16)
      × (any (is_version v.secret_id v.version) db.secret_versions ≡ false)
unfolding insert_version
insert_version-ok v db db' h = (ground arith, ground arith, ground arith, ground arith)

module _ (cipher : Cipher) (master : LocalMasterKey) where
  -- A version of a secret is stored and holds a value.
  abbrev pub Holds : Database → SecretRow → ℕ → Bytes → Type 0
  Holds db s version value =
      (v : SecretVersionRow) × (find (is_version s.id version) db.secret_versions ≡ some v)
      × Readable cipher master no_cache db.encryption_keys (context_of db.org_id s version)
          (encrypted v) value

  -- What never gets lost: the stored versions, and the keys that read them.
  pub record Preserves (db db' : Database) : Type 0 where
    pub org : db'.org_id ≡ db.org_id
    pub keyed : IsKeyed db'.encryption_keys
    pub keys : KeepsKeys db.encryption_keys db'.encryption_keys
    pub versions : KeepsVersions db.secret_versions db'.secret_versions

  pub Preserves-trans :
      (db db1 db2 : Database) → Preserves db db1 → Preserves db1 db2 → Preserves db db2
  Preserves-trans db db1 db2 a b = record {
    org = b.org ∙ a.org;
    keyed = b.keyed;
    keys = λ o version x found.
        let (y, found', same) = a.keys o version x found in
        let (z, found'', same') = b.keys o version y found' in (z, found'', same' ∙ same);
    versions = λ id version v found. b.versions id version v (a.versions id version v found);
  }

  pub Holds-kept :
      (db db' : Database) (s : SecretRow) (version : ℕ) (value : Bytes)
      → Preserves db db'
      → Holds db s version value
      → Holds db' s version value
  Holds-kept db db' s version value p (v, found, r) = (
    v,
    p.versions s.id version v found,
    Readable-kept cipher master no_cache db.encryption_keys db'.encryption_keys
        (context_of db'.org_id s version) (encrypted v) value p.keys (rw p.org r),
  )

  -- A decryption writes nothing.
  pub decrypt_value-reads :
      (s : SecretRow) (v : SecretVersionRow) (version : ℕ) (db db' : Database) (value : Bytes)
      → decrypt_value cipher master s v version db ≡ (ok value, db')
      → db' ≡ db
  unfolding decrypt_value
  decrypt_value-reads s v version db db' value h =
      sym (ap (λ (r : Result Bytes × Database). r.1) h)
      ∙ ap (λ (keys : KeyTable). record db { encryption_keys = keys })
          (decrypt-keys cipher master no_cache db.transaction_now (context_of db.org_id s version)
            (encrypted v) (vault_of db))

  pub decrypt_value-Holds :
      (lawful : IsCipher cipher) (db : Database) (s : SecretRow) (v : SecretVersionRow)
      (version : ℕ) (value : Bytes)
      → IsKeyed db.encryption_keys
      → Readable cipher master no_cache db.encryption_keys
          (context_of db.org_id s version)
          (encrypted v)
          value
      → decrypt_value cipher master s v version db ≡ (ok value, db)
  unfolding decrypt_value
  decrypt_value-Holds lawful db s v version value keyed r = λ i. (
    decrypt-Readable cipher lawful master no_cache (omega arith) db.transaction_now
        (context_of db.org_id s version) (encrypted v) value (vault_of db)
        (fresh-IsSound cipher master db keyed) r i,
    record db {
      encryption_keys =
          decrypt-keys cipher master no_cache db.transaction_now (context_of db.org_id s version)
            (encrypted v) (vault_of db) i;
    },
  )

  abbrev pub with_version_and_keys : Database → KeyTable → SecretVersionRow → Database
  with_version_and_keys db keys v = record db {
    encryption_keys = keys;
    secret_versions = v ∷ db.secret_versions;
  }

  -- A value that was encrypted and inserted as a version: the version holds it, and nothing is lost.
  pub record Sealed (db db' : Database) (s : SecretRow) (version : ℕ) (plaintext : Bytes)
      (row : SecretVersionRow) : Type 0 where
    pub keys : KeyTable
    pub tables : db' ≡ with_version_and_keys db keys row
    pub preserved : Preserves db (with_version_and_keys db keys row)
    pub holds : Holds (with_version_and_keys db keys row) s version plaintext
    pub unused : any (is_version s.id version) db.secret_versions ≡ false

  sealed_at :
      (db : Database) (s : SecretRow) (version : ℕ) (plaintext : Bytes) (v : SecretVersionRow)
      (keys : KeyTable)
      → v.secret_id ≡ s.id
      → v.version ≡ version
      → IsKeyed keys
      → KeepsKeys db.encryption_keys keys
      → any (is_version v.secret_id v.version) db.secret_versions ≡ false
      → Readable cipher master no_cache keys
          (context_of db.org_id s version)
          (encrypted v)
          plaintext
      → Preserves db (with_version_and_keys db keys v)
        × Holds (with_version_and_keys db keys v) s version plaintext
  sealed_at db s version plaintext v keys same_id same_version keyed kept unused readable = (
    record {
      org = refl;
      keyed = keyed;
      keys = kept;
      versions = new_keeps v db.secret_versions unused;
    },
    (v, found_first v db.secret_versions s.id version same_id same_version, readable),
  )

  pub version_stored :
      (lawful : IsCipher cipher) (actor : ℕ) (random : Randomness) (plaintext : Bytes)
      (s : SecretRow) (version : ℕ) (change_note : Option Text) (db db1 db2 : Database)
      (e : EncryptedSecretValue)
      → IsKeyed db.encryption_keys
      → encrypt_value cipher master random plaintext s version db ≡ (ok e, db1)
      → insert_version (new_version actor s version e change_note) db1 ≡ (ok tt, db2)
      → Sealed db db2 s version plaintext (new_version actor s version e change_note)
  unfolding encrypt_value
  version_stored lawful actor random plaintext s version change_note db db1 db2 e keyed sealing
        inserting =
      let v = new_version actor s version e change_note in
      let run =
        encrypt cipher master no_cache db.transaction_now random plaintext
          (context_of db.org_id s version) (vault_of db) in
      let keys = run.1.keys in
      let first : db1 ≡ record db { encryption_keys = keys } =
        sym (ap (λ (r : Result EncryptedSecretValue × Database). r.1) sealing) in
      let (second, twelve, sixteen, unused) = insert_version-ok v db1 db2 inserting in
      let tables : db2 ≡ with_version_and_keys db keys v =
        second
        ∙ ap (λ (b : Database). record b { secret_versions = v ∷ b.secret_versions }) first in
      let free =
        ap (λ (b : Database). any (is_version s.id version) b.secret_versions) (sym first)
        ∙ unused in
      let (kept, readable) =
        encrypt-Readable cipher lawful master no_cache (omega arith) db.transaction_now random
          plaintext (context_of db.org_id s version) (vault_of db) run.1 e
          (fresh-IsSound cipher master db keyed) (λ i. ((sealing i).0, run.1)) twelve sixteen in
      let (preserved, holds) =
        sealed_at db s version plaintext v keys refl refl kept.sound.keyed kept.keys free (
          Readable-named cipher master no_cache keys (context_of db.org_id s version) e plaintext
            readable) in
      record { keys = keys; tables = tables; preserved = preserved; holds = holds; unused = free }
