-- ===== src/Crypto/Envelope/RoundTrip.antt =====
-- What was encrypted can be decrypted.
use himitsu.Prelude.{ℕ, ◌<◌, ◌≡◌, refl, ap, sym, ◌∙◌, true, some, find-holds, length, ◌==◌, arith}
use himitsu.Text.{Text, codes}
use himitsu.Errors.{Result, ok}
use himitsu.Exec.{query-ok, run-ok}
use himitsu.Crypto.{
  Bytes, AdditionalData, Cipher, IsCipher, LocalMasterKey, WrappedDataKey, DataKeyRecord,
  SecretEncryptionContext, EncryptedSecretValue, wrap, unwrap, secret_aad, wrapped_of, data_key_aad,
}
use himitsu.Crypto.Keys.Table.{get_version, ensure_active, has_version}
use himitsu.Crypto.Keys.Table.Versions.{version_of_found, text_eq_refl, same_org}
use himitsu.Crypto.Keys.Table.Activation.{ensure_active_effect}
use himitsu.Crypto.Envelope.{
  Vault, Options, Randomness, on_keys, generate_wrapped_key, load_key, encrypted_with, encrypt,
  try_decrypt, concealed, decrypt,
}
use himitsu.Crypto.Envelope.Loading.{IsSound, load_key-Loads}
use himitsu.Crypto.Envelope.Steps.{Kept, Kept-trans, keys-Kept, loaded-Kept}
use himitsu.Crypto.Envelope.Runs.{Steps, steps_keep}

module _ (cipher : Cipher) (lawful : IsCipher cipher) where
  -- A wrapped data key is unwrapped by the same master key, for the same organization and version.
  pub unwrap-wrap :
      (master : LocalMasterKey) (nonce : Bytes) (org_id : Text) (version : ℕ) (key : Bytes)
      (wrapped : WrappedDataKey)
      → wrap cipher master nonce org_id version key ≡ ok wrapped
      → unwrap cipher master org_id version wrapped ≡ ok key
  unfolding wrap unwrap wrapped_of
  unwrap-wrap master nonce org_id version key wrapped h =
      let full : length key == 32 ≡ true = ground arith in
      let same : wrapped_of master.id nonce
            (cipher.seal master.key nonce (data_key_aad org_id version) key)
          ≡ wrapped =
        ground (arith, full) in
      rw
        (
          ← same,
          text_eq_refl master.id,
          lawful.unseal-seal master.key nonce (data_key_aad org_id version) key,
          full,
        )
        refl

module _ (cipher : Cipher) (lawful : IsCipher cipher) (master : LocalMasterKey) (options : Options)
    (positive : 0 < options.max_cache_entries) (now : ℕ) (random : Randomness)
    (context : SecretEncryptionContext) where
  -- What an encryption leaves behind it: a readable key, under which the value is sealed.
  pub record Encrypted (plaintext : Bytes) (v' : Vault) (e : EncryptedSecretValue) : Type 0 where
    pub aad : AdditionalData
    pub key : Bytes
    pub key_record : DataKeyRecord
    pub valid : secret_aad context ≡ ok aad
    pub stored : get_version context.org_id e.key_version v'.keys ≡ some key_record
    pub readable : unwrap cipher master context.org_id e.key_version key_record.wrapped ≡ ok key
    pub sealed :
        e
        ≡ encrypted_with cipher master options e.key_version random.nonce
            (cipher.seal key random.nonce aad plaintext)

  sealed_in :
      (plaintext : Bytes) (v1 v' : Vault) (e : EncryptedSecretValue) (aad : AdditionalData)
      (key : Bytes) (r : DataKeyRecord)
      → IsSound cipher master options v1
      → r.org_id ≡ context.org_id
      → get_version r.org_id r.version v1.keys ≡ some r
      → secret_aad context ≡ ok aad
      → (load_key cipher master options now r v1).0 ≡ ok key
      → encrypted_with cipher master options r.version random.nonce
          (cipher.seal key random.nonce aad plaintext)
        ≡ e
      → v' ≡ (load_key cipher master options now r v1).1
      → Encrypted plaintext v' e
  sealed_in plaintext v1 v' e aad key r s owner stored valid loaded sealed same =
      let (answer, tables, _, _) =
        load_key-Loads cipher master options positive now r v1 s stored in
      let version : r.version ≡ e.key_version =
        ap (λ (x : EncryptedSecretValue). x.key_version) sealed in
      record {
        aad = aad;
        key = key;
        key_record = r;
        valid = valid;
        stored = rw (← owner, ← version, same, tables) stored;
        readable = rw (← owner, ← version) (sym answer ∙ loaded);
        sealed =
            sym sealed
            ∙ ap
                (λ (n : ℕ).
                  encrypted_with cipher master options n random.nonce
                    (cipher.seal key random.nonce aad plaintext))
                version;
      }

  pub encrypt-Encrypted :
      (plaintext : Bytes) (v v' : Vault) (e : EncryptedSecretValue)
      → IsSound cipher master options v
      → encrypt cipher master options now random plaintext context v ≡ (ok e, v')
      → Kept cipher master options positive v v' × Encrypted plaintext v' e
  unfolding encrypt
  encrypt-Encrypted plaintext v v' e s h =
      let factory = generate_wrapped_key cipher master options random context.org_id in
      let (aad, valid, h1) = query-ok (λ _. secret_aad context) _ v v' e h in
      let (r, made, h2) = run-ok (on_keys (ensure_active context.org_id now factory)) _ v v' e h1 in
      let table = (ensure_active context.org_id now factory v.keys).1 in
      let v1 : Vault = record v { keys = table } in
      let (key, loaded, h3) = run-ok (load_key cipher master options now r) _ v1 v' e h2 in
      let a =
        ensure_active_effect context.org_id now factory v.keys table r s.keyed
          (λ i. (made i, table)) in
      let first = keys-Kept cipher master options positive v table s (a.keyed, a.kept) in
      let same = sym (ap (λ (x : Result EncryptedSecretValue × Vault). x.1) h3) in
      (
        rw same (
            Kept-trans cipher master options positive v v1 _ first
              (loaded-Kept cipher master options positive now r v1 first.sound a.stored)),
        sealed_in plaintext v1 v' e aad key r first.sound a.owner a.stored valid loaded
            (ground arith) same,
      )

module _ (cipher : Cipher) (lawful : IsCipher cipher) (master : LocalMasterKey) (options : Options)
    (positive : 0 < options.max_cache_entries) (context : SecretEncryptionContext) where
  -- The key of a stored version is loaded, whether it is cached or not.
  pub loads_version :
      (now version : ℕ) (key : Bytes) (r : DataKeyRecord) (v : Vault)
      → IsSound cipher master options v
      → get_version context.org_id version v.keys ≡ some r
      → unwrap cipher master context.org_id version r.wrapped ≡ ok key
      → (load_key cipher master options now r v).0 ≡ ok key
  unfolding get_version
  loads_version now version key r v s stored readable =
      let hit = find-holds (has_version context.org_id version) v.keys r stored in
      let owner = same_org r.org_id context.org_id (ground (arith, hit)) in
      let number : r.version ≡ version = ground (arith, hit) in
      let (answer, _, _, _) =
        load_key-Loads cipher master options positive now r v s
          (version_of_found (has_version context.org_id version) v.keys r s.keyed stored) in
      answer ∙ rw (owner, number) readable

  decrypt-sealed :
      (later version : ℕ) (nonce : Bytes) (plaintext key : Bytes) (aad : AdditionalData)
      (r : DataKeyRecord) (v : Vault)
      → length nonce ≡ 12
      → secret_aad context ≡ ok aad
      → get_version context.org_id version v.keys ≡ some r
      → (load_key cipher master options later r v).0 ≡ ok key
      → (decrypt cipher master options later
          (encrypted_with cipher master options version nonce (cipher.seal key nonce aad plaintext))
          context
          v).0
        ≡ ok plaintext
  unfolding decrypt try_decrypt concealed
  decrypt-sealed later version nonce plaintext key aad r v twelve valid stored loaded =
      rw
        (
          twelve,
          lawful.tag_length key nonce aad plaintext,
          text_eq_refl (codes "aes-256-gcm"),
          stored,
          loaded,
          valid,
          lawful.unseal-seal key nonce aad plaintext,
        )
        refl

  -- A value that was encrypted is decrypted to itself in the same context, whatever calls of the
  -- service come between: other encryptions and decryptions, rotations of any organization's key,
  -- clearings of the cache, failed calls included, and whatever keys have left the cache. The vault
  -- is sound, the cache has room for an entry, the nonce has 12 bytes, and the cipher unseals what it
  -- sealed.
  pub decrypt-encrypt :
      (now later : ℕ) (random : Randomness) (plaintext : Bytes) (v v' v'' : Vault)
      (e : EncryptedSecretValue)
      → length random.nonce ≡ 12
      → IsSound cipher master options v
      → encrypt cipher master options now random plaintext context v ≡ (ok e, v')
      → Steps cipher master options v' v''
      → (decrypt cipher master options later e context v'').0 ≡ ok plaintext
  decrypt-encrypt now later random plaintext v v' v'' e twelve s h between =
      let (kept, made) =
        encrypt-Encrypted cipher lawful master options positive now random context plaintext v v' e
          s h in
      let after = steps_keep cipher master options positive v' v'' kept.sound between in
      let (y, stored, same) = after.keys context.org_id e.key_version made.key_record made.stored in
      ap (λ (x : EncryptedSecretValue). (decrypt cipher master options later x context v'').0)
        made.sealed
      ∙ decrypt-sealed later e.key_version random.nonce plaintext made.key made.aad y v'' twelve
          made.valid stored
          (loads_version later e.key_version made.key y v'' after.sound stored
            (rw same made.readable))
