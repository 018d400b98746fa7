-- ===== src/Crypto/Envelope.antt =====
-- EnvelopeEncryptionService of packages/crypto/src/index.ts, over the table of wrapped keys, one
-- call at a time: the cache of unwrapped keys is a list, the oldest entry first. Wiping a buffer
-- that is no longer used leaves no trace in the model.
pub mod Loading
pub mod Steps
pub mod Runs
pub mod RoundTrip
pub mod Reading
mod Tests
use himitsu.Prelude.{
  ℕ, ◌+◌, Bool, ◌&&◌, not, Option, none, some, List, [], ◌∷◌, ◌++◌, filter, find, length, ltb, leb,
  ◌==◌, if◌then◌else◌,
}
use himitsu.Text.{Text, text_eq, codes}
use himitsu.Errors.{
  Error, decryption_failed, invalid_configuration, invalid_context, Result, ok, err,
}
use himitsu.Exec.{Exec, pure, query, write, guard, ◌>>=◌, ◌>>◌, required}
use himitsu.Crypto.{
  Bytes, Cipher, LocalMasterKey, WrappedDataKey, DataKeyRecord, SecretEncryptionContext,
  EncryptedSecretValue, failed, wrap, unwrap, secret_aad,
}
use himitsu.Crypto.Keys.Table.{KeyTable, get_version, ensure_active, rotate}

pub record CacheEntry : Type 0 where
  pub org_id : Text
  pub version : ℕ
  pub key : Bytes
  pub expires_at : ℕ

pub record Vault : Type 0 where
  pub keys : KeyTable
  pub cache : List CacheEntry

-- `cacheTtlMs` and `maxCacheEntries`.
pub record Options : Type 0 where
  pub cache_ttl_ms : ℕ
  pub max_cache_entries : ℕ

-- The test of the constructor.
unfoldable pub valid_options : Options → Result Options
valid_options options =
    if ltb options.max_cache_entries 1 then err (failed invalid_configuration) else ok options

abbrev pub in_cache : Text → ℕ → CacheEntry → Bool
in_cache org_id version c = text_eq c.org_id org_id && c.version == version

-- A store's operation, on the table of the vault.
abbrev pub on_keys : {A : Type 0} → Exec KeyTable A → Exec Vault A
on_keys m v = ((m v.keys).0, record v { keys = (m v.keys).1 })

abbrev drop_oldest : List CacheEntry → List CacheEntry
drop_oldest [] = []
drop_oldest (c ∷ rest) = rest

-- The cache with one more entry, the oldest evicted where it is full.
unfoldable pub remember : Options → CacheEntry → List CacheEntry → List CacheEntry
remember options entry cache =
    if leb options.max_cache_entries (length cache)
    then drop_oldest cache ++ entry ∷ []
    else cache ++ entry ∷ []

-- The buffers that `randomBytes` returns to one call.
pub record Randomness : Type 0 where
  pub data_key : Bytes
  pub wrap_nonce : Bytes
  pub nonce : Bytes

-- The error that `decrypt` throws in place of another.
unfoldable pub concealed : {A : Type 0} → Result A → Result A
concealed (ok a) = ok a
concealed (err (Error.crypto invalid_context)) = err (failed invalid_context)
concealed (err e) = err (failed decryption_failed)

module _ (cipher : Cipher) (master : LocalMasterKey) (options : Options) where
  -- `#generateWrappedKey`.
  unfoldable pub generate_wrapped_key : Randomness → Text → ℕ → Result WrappedDataKey
  generate_wrapped_key random org_id version =
      wrap cipher master random.wrap_nonce org_id version random.data_key

  -- The key of a record that has no running entry.
  unfoldable pub unwrap_into_cache : ℕ → DataKeyRecord → Exec Vault Bytes
  unfolding remember
  unwrap_into_cache now r = do
    key ← query (λ _. unwrap cipher master r.org_id r.version r.wrapped)
    write (λ v. record v {
      cache =
          remember options
            (record {
              org_id = r.org_id;
              version = r.version;
              key = key;
              expires_at = now + options.cache_ttl_ms;
            })
            v.cache;
    })
    pure key

  abbrev pub forget : DataKeyRecord → Vault → Vault
  forget r v = record v { cache = filter (λ c. not (in_cache r.org_id r.version c)) v.cache }

  abbrev load_cached : ℕ → DataKeyRecord → Option CacheEntry → Exec Vault Bytes
  load_cached now r none v = unwrap_into_cache now r v
  load_cached now r (some c) v =
      let anew = unwrap_into_cache now r (forget r v) in
      if ltb now c.expires_at then (ok c.key, v) else anew

  -- `#loadKey`.
  unfoldable pub load_key : ℕ → DataKeyRecord → Exec Vault Bytes
  unfolding unwrap_into_cache
  load_key now r v = load_cached now r (find (in_cache r.org_id r.version) v.cache) v

  abbrev pub encrypted_with : ℕ → Bytes → Bytes × Bytes → EncryptedSecretValue
  encrypted_with version nonce sealed = record {
    algorithm = codes "aes-256-gcm";
    key_version = version;
    ciphertext = sealed.0;
    nonce = nonce;
    auth_tag = sealed.1;
  }

  unfoldable pub encrypt :
      ℕ → Randomness → Bytes → SecretEncryptionContext → Exec Vault EncryptedSecretValue
  unfolding load_key generate_wrapped_key
  encrypt now random plaintext context = do
    aad ← query (λ _. secret_aad context)
    r ← on_keys (ensure_active context.org_id now (generate_wrapped_key random context.org_id))
    key ← load_key now r
    pure (encrypted_with r.version random.nonce (cipher.seal key random.nonce aad plaintext))

  -- The body of `decrypt`.
  unfoldable pub try_decrypt : ℕ → EncryptedSecretValue → SecretEncryptionContext → Exec Vault Bytes
  unfolding load_key
  try_decrypt now encrypted context = do
    guard
        (text_eq encrypted.algorithm (codes "aes-256-gcm")
          && length encrypted.nonce == 12
          && length encrypted.auth_tag == 16)
        Error.fault
    r ← query (λ v. required (get_version context.org_id encrypted.key_version v.keys) Error.fault)
    key ← load_key now r
    aad ← query (λ _. secret_aad context)
    query (λ _.
        required (cipher.unseal key encrypted.nonce aad encrypted.ciphertext encrypted.auth_tag)
          Error.fault)

  unfoldable pub decrypt : ℕ → EncryptedSecretValue → SecretEncryptionContext → Exec Vault Bytes
  unfolding try_decrypt concealed
  decrypt now encrypted context v =
      (concealed (try_decrypt now encrypted context v).0, (try_decrypt now encrypted context v).1)

  unfoldable pub rotate_data_key : ℕ → Randomness → Text → Exec Vault ℕ
  unfolding generate_wrapped_key
  rotate_data_key now random org_id = do
    guard (not (length org_id == 0)) (failed invalid_context)
    r ← on_keys (rotate org_id now (generate_wrapped_key random org_id))
    pure r.version

unfoldable pub clear_key_cache : Vault → Vault
clear_key_cache v = record v { cache = [] }
