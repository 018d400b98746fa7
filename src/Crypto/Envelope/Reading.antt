-- ===== src/Crypto/Envelope/Reading.antt =====
-- What an encrypted value holds, by the table of wrapped keys.
use himitsu.Prelude.{
  ℕ, ◌<◌, ◌≡◌, refl, ap, ◌∙◌, inl, inr, true, ◌&&◌, some, find, length, ltb, ◌==◌, Bool-cases,
  Option-cases,
}
use himitsu.Text.{text_eq, codes}
use himitsu.Errors.{ok, Result-cases}
use himitsu.Crypto.{
  Bytes, AdditionalData, Cipher, IsCipher, LocalMasterKey, DataKeyRecord, SecretEncryptionContext,
  EncryptedSecretValue, unwrap, secret_aad,
}
use himitsu.Crypto.Keys.Table.{KeyTable, get_version}
use himitsu.Crypto.Keys.Table.Versions.{text_eq_refl}
use himitsu.Crypto.Keys.Table.Activation.{KeepsKeys}
use himitsu.Crypto.Envelope.{
  Vault, Options, Randomness, in_cache, unwrap_into_cache, forget, load_key, encrypt, try_decrypt,
  concealed, decrypt,
}
use himitsu.Crypto.Envelope.Loading.{IsSound}
use himitsu.Crypto.Envelope.Steps.{Kept}
use himitsu.Crypto.Envelope.RoundTrip.{encrypt-Encrypted, loads_version}

module _ (cipher : Cipher) (master : LocalMasterKey) (options : Options) where
  -- What an encrypted value holds, by the keys of a table.
  pub record Readable (keys : KeyTable) (context : SecretEncryptionContext)
      (e : EncryptedSecretValue) (value : Bytes) : Type 0 where
    pub aad : AdditionalData
    pub key : Bytes
    pub key_record : DataKeyRecord
    pub valid : secret_aad context ≡ ok aad
    pub stored : get_version context.org_id e.key_version keys ≡ some key_record
    pub readable : unwrap cipher master context.org_id e.key_version key_record.wrapped ≡ ok key
    pub opened : cipher.unseal key e.nonce aad e.ciphertext e.auth_tag ≡ some value
    pub algorithm : text_eq e.algorithm (codes "aes-256-gcm") ≡ true
    pub nonce : length e.nonce ≡ 12
    pub auth_tag : length e.auth_tag ≡ 16

  -- New keys do not change what an encrypted value holds.
  pub Readable-kept :
      (keys keys' : KeyTable) (context : SecretEncryptionContext) (e : EncryptedSecretValue)
      (value : Bytes)
      → KeepsKeys keys keys'
      → Readable keys context e value
      → Readable keys' context e value
  Readable-kept keys keys' context e value kept r =
      let (y, stored, same) = kept context.org_id e.key_version r.key_record r.stored in
      record {
        aad = r.aad;
        key = r.key;
        key_record = y;
        valid = r.valid;
        stored = stored;
        readable = rw same r.readable;
        opened = r.opened;
        algorithm = r.algorithm;
        nonce = r.nonce;
        auth_tag = r.auth_tag;
      }

  pub Readable-named :
      (keys : KeyTable) (context : SecretEncryptionContext) (e : EncryptedSecretValue)
      (value : Bytes)
      → Readable keys context e value
      → Readable keys context (record e { algorithm = codes "aes-256-gcm" }) value
  Readable-named keys context e value r = record {
    aad = r.aad;
    key = r.key;
    key_record = r.key_record;
    valid = r.valid;
    stored = r.stored;
    readable = r.readable;
    opened = r.opened;
    algorithm = text_eq_refl (codes "aes-256-gcm");
    nonce = r.nonce;
    auth_tag = r.auth_tag;
  }

  unwrap_into_cache-keys :
      (now : ℕ) (r : DataKeyRecord) (v : Vault)
      → (unwrap_into_cache cipher master options now r v).1.keys ≡ v.keys
  unfolding unwrap_into_cache
  unwrap_into_cache-keys now r v =
      elim (Result-cases (unwrap cipher master r.org_id r.version r.wrapped)) [
        | inl (e, bad) ↦ rw bad refl
        | inr (key, good) ↦ rw good refl
      ]

  load_key-keys :
      (now : ℕ) (r : DataKeyRecord) (v : Vault)
      → (load_key cipher master options now r v).1.keys ≡ v.keys
  unfolding load_key
  load_key-keys now r v = elim (Option-cases (find (in_cache r.org_id r.version) v.cache)) [
    | inl missing ↦ rw missing (unwrap_into_cache-keys now r v)
    | inr (c, found) ↦ elim (Bool-cases (ltb now c.expires_at)) [
      | inl running ↦ rw (found, running) refl
      | inr over ↦
          rw (found, over) (unwrap_into_cache-keys now r (forget cipher master options r v))
    ]
  ]

  pub decrypt-keys :
      (now : ℕ) (context : SecretEncryptionContext) (e : EncryptedSecretValue) (v : Vault)
      → (decrypt cipher master options now e context v).1.keys ≡ v.keys
  unfolding decrypt try_decrypt
  decrypt-keys now context e v =
      elim (Bool-cases (
        text_eq e.algorithm (codes "aes-256-gcm")
        && length e.nonce == 12
        && length e.auth_tag == 16)) [
          | inr bad ↦ rw bad refl
          | inl good ↦ elim (Option-cases (get_version context.org_id e.key_version v.keys)) [
            | inl missing ↦ rw (good, missing) refl
            | inr (r, found) ↦ elim (Result-cases (load_key cipher master options now r v).0) [
              | inl (x, unread) ↦ rw (good, found, unread) (load_key-keys now r v)
              | inr (key, read) ↦ elim (Result-cases (secret_aad context)) [
                | inl (x, invalid) ↦ rw (good, found, read, invalid) (load_key-keys now r v)
                | inr (aad, valid) ↦ rw (good, found, read, valid) (load_key-keys now r v)
              ]
            ]
          ]
        ]

module _ (cipher : Cipher) (lawful : IsCipher cipher) (master : LocalMasterKey) (options : Options)
    (positive : 0 < options.max_cache_entries) where
  -- A readable value is decrypted to what it holds.
  pub decrypt-Readable :
      (now : ℕ) (context : SecretEncryptionContext) (e : EncryptedSecretValue) (value : Bytes)
      (v : Vault)
      → IsSound cipher master options v
      → Readable cipher master options v.keys context e value
      → (decrypt cipher master options now e context v).0 ≡ ok value
  unfolding decrypt try_decrypt concealed
  decrypt-Readable now context e value v s r =
      let loaded =
        loads_version cipher lawful master options positive context now e.key_version r.key
          r.key_record v s r.stored r.readable in
      rw (r.algorithm, r.nonce, r.auth_tag, r.stored, loaded, r.valid, r.opened) refl

  -- What was encrypted is readable, where the nonce and the tag have their lengths.
  pub encrypt-Readable :
      (now : ℕ) (random : Randomness) (plaintext : Bytes) (context : SecretEncryptionContext)
      (v v' : Vault) (e : EncryptedSecretValue)
      → IsSound cipher master options v
      → encrypt cipher master options now random plaintext context v ≡ (ok e, v')
      → length e.nonce ≡ 12
      → length e.auth_tag ≡ 16
      → Kept cipher master options positive v v'
        × Readable cipher master options v'.keys context e plaintext
  encrypt-Readable now random plaintext context v v' e s h twelve sixteen =
      let (kept, made) =
        encrypt-Encrypted cipher lawful master options positive now random context plaintext v v' e
          s h in
      (
        kept,
        record {
          aad = made.aad;
          key = made.key;
          key_record = made.key_record;
          valid = made.valid;
          stored = made.stored;
          readable = made.readable;
          opened =
              ap
                (λ (x : EncryptedSecretValue).
                  cipher.unseal made.key x.nonce made.aad x.ciphertext x.auth_tag)
                made.sealed
              ∙ lawful.unseal-seal made.key random.nonce made.aad plaintext;
          algorithm =
              ap (λ (x : EncryptedSecretValue). text_eq x.algorithm (codes "aes-256-gcm"))
                made.sealed
              ∙ text_eq_refl (codes "aes-256-gcm");
          nonce = twelve;
          auth_tag = sixteen;
        },
      )
