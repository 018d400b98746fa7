-- ===== src/Crypto/Envelope/Runs.antt =====
-- Sequences of calls of the envelope service.
use himitsu.Prelude.{ℕ, ◌<◌, refl, inl, inr, ◌&&◌, length, ◌==◌, Bool-cases, Option-cases, arith}
use himitsu.Text.{Text, text_eq, codes}
use himitsu.Errors.{Result-cases}
use himitsu.Crypto.{
  Bytes, Cipher, LocalMasterKey, SecretEncryptionContext, EncryptedSecretValue, secret_aad,
}
use himitsu.Crypto.Keys.Table.{get_version, rotate, has_version}
use himitsu.Crypto.Keys.Table.Versions.{version_of_found}
use himitsu.Crypto.Keys.Table.Activation.{rotate_keeps}
use himitsu.Crypto.Envelope.{
  Vault, Options, Randomness, generate_wrapped_key, load_key, encrypt, try_decrypt, decrypt,
  rotate_data_key, clear_key_cache,
}
use himitsu.Crypto.Envelope.Loading.{IsSound}
use himitsu.Crypto.Envelope.Steps.{
  Kept, Kept-refl, Kept-trans, keys-Kept, loaded-Kept, encrypt-Kept,
}

module _ (cipher : Cipher) (master : LocalMasterKey) (options : Options) where
  -- One call of the service, whatever it returns or throws.
  pub data Step : Vault → Vault → Type 0 where
    encrypts :
        (now : ℕ) (random : Randomness) (plaintext : Bytes) (context : SecretEncryptionContext)
        (v : Vault)
        → Step v (encrypt cipher master options now random plaintext context v).1
    decrypts :
        (now : ℕ) (encrypted : EncryptedSecretValue) (context : SecretEncryptionContext) (v : Vault)
        → Step v (decrypt cipher master options now encrypted context v).1
    rotates :
        (now : ℕ) (random : Randomness) (org_id : Text) (v : Vault)
        → Step v (rotate_data_key cipher master options now random org_id v).1
    clears : (v : Vault) → Step v (clear_key_cache v)

  pub data Steps : Vault → Vault → Type 0 where
    done : (v : Vault) → Steps v v
    then_step : (v v1 v2 : Vault) → Steps v v1 → Step v1 v2 → Steps v v2

module _ (cipher : Cipher) (master : LocalMasterKey) (options : Options)
    (positive : 0 < options.max_cache_entries) where
  try_decrypt-Kept :
      (now : ℕ) (encrypted : EncryptedSecretValue) (context : SecretEncryptionContext) (v : Vault)
      → IsSound cipher master options v
      → Kept cipher master options positive v
          (try_decrypt cipher master options now encrypted context v).1
  unfolding try_decrypt get_version
  try_decrypt-Kept now encrypted context v s =
      elim (Bool-cases (
        text_eq encrypted.algorithm (codes "aes-256-gcm")
        && length encrypted.nonce == 12
        && length encrypted.auth_tag == 16)) [
          | inr refused ↦ rw refused (Kept-refl cipher master options positive v s)
          | inl fit ↦
              elim (Option-cases (get_version context.org_id encrypted.key_version v.keys)) [
                | inl unknown ↦ rw (fit, unknown) (Kept-refl cipher master options positive v s)
                | inr (r, found) ↦
                    let loaded = loaded-Kept cipher master options positive now r v s (
                      version_of_found (has_version context.org_id encrypted.key_version) v.keys r
                        s.keyed found) in
                    elim (Result-cases (load_key cipher master options now r v).0) [
                      | inl (e, unread) ↦ rw (fit, found, unread) loaded
                      | inr (key, read) ↦ elim (Result-cases (secret_aad context)) [
                        | inl (e, bad) ↦ rw (fit, found, read, bad) loaded
                        | inr (aad, good) ↦ rw (fit, found, read, good) loaded
                      ]
                    ]
              ]
        ]

  rotate-Kept :
      (now : ℕ) (random : Randomness) (org_id : Text) (v : Vault)
      → IsSound cipher master options v
      → Kept cipher master options positive v
          (rotate_data_key cipher master options now random org_id v).1
  unfolding rotate_data_key
  rotate-Kept now random org_id v s =
      let factory = generate_wrapped_key cipher master options random org_id in
      let made = rotate org_id now factory v.keys in
      let stored =
        keys-Kept cipher master options positive v made.1 s
          (rotate_keeps org_id now factory v.keys s.keyed) in
      elim (Bool-cases (length org_id == 0)) [
        | inl empty ↦ rw empty (Kept-refl cipher master options positive v s)
        | inr named ↦ elim (Result-cases made.0) [
          | inl (e, failed) ↦ rw (named, failed) stored
          | inr (r, added) ↦ rw (named, added) stored
        ]
      ]

  Step-Kept :
      (v v' : Vault)
      → IsSound cipher master options v
      → Step cipher master options v v'
      → Kept cipher master options positive v v'
  unfolding decrypt clear_key_cache
  Step-Kept _ _ s (encrypts now random plaintext context v) =
      encrypt-Kept cipher master options positive now random plaintext context v s
  Step-Kept _ _ s (decrypts now encrypted context v) = try_decrypt-Kept now encrypted context v s
  Step-Kept _ _ s (rotates now random org_id v) = rotate-Kept now random org_id v s
  Step-Kept _ _ s (clears v) = record {
    sound = record { keyed = s.keyed; cached = tt; bounded = omega arith };
    keys = λ o version x found. (x, found, refl);
  }

  -- Where the vault is sound and the cache has room for an entry, any sequence of encryptions,
  -- decryptions, rotations and cache clearings, failed ones included, keeps the vault sound:
  -- versions are distinct, a cached key is the one its version unwraps to, and the cache has at
  -- most its maximum of entries; every stored version keeps its wrapped key.
  pub steps_keep :
      (v v' : Vault)
      → IsSound cipher master options v
      → Steps cipher master options v v'
      → Kept cipher master options positive v v'
  steps_keep v _ s (done _) = Kept-refl cipher master options positive v s
  steps_keep v v2 s (then_step _ v1 _ before step) =
      let first = steps_keep v v1 s before in
      Kept-trans cipher master options positive v v1 v2 first (Step-Kept v1 v2 first.sound step)
