-- ===== src/Secrets/Store.antt =====
-- What the service of packages/secrets/src/index.ts reads and writes: its queries, and the envelope
-- service over the transaction's table of keys.
use himitsu.Prelude.{
  ℕ, ◌+◌, ◌/◌, ◌%◌, ◌-◌, suc, zero, Bool, ◌&&◌, ◌||◌, not, Option, none, some, List, [], ◌∷◌, ◌++◌,
  map, filter, find, all, any, elem, length, update_where, is_none, ltb, leb, ◌==◌, if◌then◌else◌,
}
use himitsu.Text.{Text, text_eq, codes}
use himitsu.Errors.{
  Error, invalid_input, not_found, version_not_found, tag_not_found, unique_violation,
  check_violation, Result, ok, err,
}
use himitsu.Exec.{Exec, query, write, guard, ◌>>◌, required}
use himitsu.Database.{
  Database, EnvironmentRow, SecretRow, SecretVersionRow, SecretTagRow, ProjectRow,
}
use himitsu.Crypto.{Bytes, Cipher, LocalMasterKey, SecretEncryptionContext, EncryptedSecretValue}
use himitsu.Crypto.Envelope.{Vault, Options, Randomness, encrypt, decrypt}
use himitsu.Projects.{unique}
use himitsu.Secrets.{SecretMetadata, failed}

-- The hexadecimal text of a UUID's number, which a context binds a ciphertext to.
abbrev hex_digit : ℕ → ℕ
hex_digit d = if ltb d 10 then b'0' + d else b'a' + (d - 10)

unfoldable pub hex_digits : ℕ → ℕ → Text
hex_digits zero n = []
hex_digits (suc k) n = hex_digits k (n / 16) ++ hex_digit (n % 16) ∷ []

-- The groups of 8, 4, 4, 4 and 12 digits.
unfoldable pub uuid_text : ℕ → Text
unfolding hex_digits
uuid_text n =
    let twelve = n / 0x1000000000000 in
    let fourth = twelve / 0x10000 in
    let third = fourth / 0x10000 in
    let second = third / 0x10000 in
    hex_digits 8 second
    ++ b'-'
      ∷ (hex_digits 4 third
          ++ b'-' ∷ (hex_digits 4 fourth ++ b'-' ∷ (hex_digits 4 twelve ++ b'-' ∷ hex_digits 12 n)))

abbrev pub is_live : ℕ → SecretRow → Bool
is_live secret_id s = s.id == secret_id && is_none s.deleted_at

abbrev pub is_version : ℕ → ℕ → SecretVersionRow → Bool
is_version secret_id version v = v.secret_id == secret_id && v.version == version

unfoldable pub tag_ids_of : ℕ → List SecretTagRow → List ℕ
tag_ids_of secret_id [] = []
tag_ids_of secret_id (t ∷ rest) =
    let others = tag_ids_of secret_id rest in
    if t.secret_id == secret_id then t.tag_id ∷ others else others

-- `metadataFromRow`, with the subqueries of `secretColumns`.
unfoldable pub metadata_from_row : Database → SecretRow → SecretMetadata
metadata_from_row db row = record {
  id = row.id;
  org_id = db.org_id;
  project_id = row.project_id;
  environment_id = row.environment_id;
  key = row.key;
  notes = row.notes;
  tag_ids = tag_ids_of row.id db.secret_tags;
  current_version = row.current_version;
}

abbrev pub is_active_environment : List ProjectRow → ℕ → ℕ → EnvironmentRow → Bool
is_active_environment projects project_id environment_id e =
    e.id == environment_id
    && e.project_id == project_id
    && is_none e.deleted_at
    && any (λ (p : ProjectRow). p.id == e.project_id && is_none p.deleted_at) projects

-- `#environment`.
unfoldable pub environment : ℕ → ℕ → Database → Result EnvironmentRow
environment project_id environment_id db =
    required (find (is_active_environment db.projects project_id environment_id) db.environments)
      (failed not_found)

-- `#metadataRow`.
unfoldable pub metadata_row : ℕ → Database → Result SecretRow
metadata_row secret_id db = required (find (is_live secret_id) db.secrets) (failed not_found)

abbrev joined : SecretRow → Option SecretVersionRow → Error → Result (SecretRow × SecretVersionRow)
joined s none e = err e
joined s (some v) e = ok (s, v)

abbrev with_version :
    Database → Option SecretRow → (SecretRow → ℕ) → Error → Result (SecretRow × SecretVersionRow)
with_version db none version e = err e
with_version db (some s) version e =
    joined s (find (is_version s.id (version s)) db.secret_versions) e

-- `#valueRow`.
unfoldable pub value_row : ℕ → Database → Result (SecretRow × SecretVersionRow)
value_row secret_id db =
    with_version db (find (is_live secret_id) db.secrets) (λ s. s.current_version)
      (failed not_found)

-- `#versionValueRow`.
unfoldable pub version_value_row : ℕ → ℕ → Database → Result (SecretRow × SecretVersionRow)
version_value_row secret_id version db =
    with_version db (find (is_live secret_id) db.secrets) (λ s. version) (failed version_not_found)

-- The context of a secret's version, and `#encrypted`.
abbrev pub context_of : ℕ → SecretRow → ℕ → SecretEncryptionContext
context_of org_id s version = record {
  org_id = uuid_text org_id;
  project_id = uuid_text s.project_id;
  environment_id = uuid_text s.environment_id;
  secret_id = uuid_text s.id;
  record_version = version;
}

abbrev pub encrypted : SecretVersionRow → EncryptedSecretValue
encrypted v = record {
  algorithm = codes "aes-256-gcm";
  key_version = v.encryption_key_version;
  ciphertext = v.value_ciphertext;
  nonce = v.nonce;
  auth_tag = v.auth_tag;
}

-- The options of `#encryption`: nothing is cached.
abbrev pub no_cache : Options
no_cache = record { cache_ttl_ms = 0; max_cache_entries = 1 }

abbrev pub vault_of : Database → Vault
vault_of db = record { keys = db.encryption_keys; cache = [] }

-- `#encryption`: a new envelope service over the transaction's keys, for one call.
abbrev pub encryption : {A : Type 0} → Exec Vault A → Exec Database A
encryption m db = ((m (vault_of db)).0, record db { encryption_keys = (m (vault_of db)).1.keys })

module _ (cipher : Cipher) (master : LocalMasterKey) where
  unfoldable pub encrypt_value :
      Randomness → Bytes → SecretRow → ℕ → Exec Database EncryptedSecretValue
  encrypt_value random plaintext s version db =
      encryption
        (encrypt cipher master no_cache db.transaction_now random plaintext
          (context_of db.org_id s version))
        db

  unfoldable pub decrypt_value : SecretRow → SecretVersionRow → ℕ → Exec Database Bytes
  decrypt_value s v version db =
      encryption
        (decrypt cipher master no_cache db.transaction_now (encrypted v)
          (context_of db.org_id s version))
        db

-- `INSERT INTO secret_versions`, with `UNIQUE (org_id, secret_id, version)` and the checks of
-- packages/database/migrations/0009_secrets.sql.
unfoldable pub insert_version : SecretVersionRow → Exec Database (Unit {0})
insert_version v db =
    if length v.nonce == 12 && length v.auth_tag == 16 && leb (length v.value_ciphertext) 65536
    then if any (is_version v.secret_id v.version) db.secret_versions
      then (err unique_violation, db)
      else (ok tt, record db { secret_versions = v ∷ db.secret_versions })
    else (err check_violation, db)

abbrev pub is_key_of : ℕ → ℕ → Text → SecretRow → Bool
is_key_of project_id environment_id key s =
    s.project_id == project_id && s.environment_id == environment_id && text_eq s.key key

-- `INSERT INTO secrets`, with its primary key and `UNIQUE (org_id, project_id, environment_id, key)`,
-- which counts deleted rows too.
unfoldable pub insert_secret : SecretRow → Exec Database (Unit {0})
insert_secret row db =
    if any
      (λ (s : SecretRow). s.id == row.id || is_key_of row.project_id row.environment_id row.key s)
      db.secrets
    then (err unique_violation, db)
    else (ok tt, record db { secrets = row ∷ db.secrets })

-- `UPDATE secrets SET … WHERE id = $1 AND deleted_at IS NULL`.
unfoldable pub update_secret : ℕ → (SecretRow → SecretRow) → Exec Database (Unit {0})
update_secret secret_id f =
    write (λ db. record db { secrets = update_where (is_live secret_id) f db.secrets })

abbrev pub tag_rows : ℕ → List ℕ → List SecretTagRow
tag_rows secret_id ids = map (λ t. record { secret_id = secret_id; tag_id = t }) ids

-- `#replaceTags`.
unfoldable pub replace_tags : ℕ → List ℕ → Exec Database (Unit {0})
replace_tags secret_id tag_ids = do
  guard (leb (length (unique tag_ids)) 50) (failed invalid_input)
  query (λ db.
      if all (λ t. elem t db.tags) (unique tag_ids) then ok tt else err (failed tag_not_found))
  write (λ db. record db {
    secret_tags =
        tag_rows secret_id (unique tag_ids)
        ++ filter (λ (t : SecretTagRow). not (t.secret_id == secret_id)) db.secret_tags;
  })

abbrev pub retag : ℕ → Option (List ℕ) → Exec Database (Unit {0})
retag secret_id none db = (ok tt, db)
retag secret_id (some tag_ids) db = replace_tags secret_id tag_ids db
