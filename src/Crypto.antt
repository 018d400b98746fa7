-- ===== src/Crypto.antt =====
-- The data model of packages/crypto/src/index.ts, and LocalMasterKey, which wraps data keys. The
-- AES-256-GCM cipher of node:crypto is a parameter, and random bytes are arguments. The additional
-- data of a cipher is the JSON text of an array of strings and numbers, and stands as that array.
pub mod Keys
pub mod Envelope
use himitsu.Prelude.{
  ℕ, ◌≡◌, Bool, ◌||◌, not, Option, none, some, List, [], ◌∷◌, length, ltb, ◌==◌, if◌then◌else◌,
}
use himitsu.Text.{Text, text_eq, trim, codes}
use himitsu.Errors.{
  Error, CryptoErrorCode, invalid_configuration, decryption_failed, invalid_context, Result, ok,
  err,
}

abbrev pub Bytes : Type 0
Bytes = List ℕ

pub data Atom : Type 0 where
  text : Text → Atom
  number : ℕ → Atom

abbrev pub AdditionalData : Type 0
AdditionalData = List Atom

-- `createCipheriv` and `createDecipheriv`: the ciphertext and its tag, and the plaintext where the
-- tag is right.
pub record Cipher : Type 0 where
  pub seal : Bytes → Bytes → AdditionalData → Bytes → Bytes × Bytes
  pub unseal : Bytes → Bytes → AdditionalData → Bytes → Bytes → Option Bytes

-- What the package relies on: a tag has 16 bytes, and what was sealed can be unsealed.
pub record IsCipher (cipher : Cipher) : Type 0 where
  pub tag_length :
      (key nonce : Bytes) (aad : AdditionalData) (plaintext : Bytes)
      → length (cipher.seal key nonce aad plaintext).1 ≡ 16
  pub unseal-seal :
      (key nonce : Bytes) (aad : AdditionalData) (plaintext : Bytes)
      → cipher.unseal key nonce aad
          (cipher.seal key nonce aad plaintext).0
          (cipher.seal key nonce aad plaintext).1
        ≡ some plaintext

abbrev pub failed : CryptoErrorCode → Error
failed code = Error.crypto code

pub record WrappedDataKey : Type 0 where
  pub kek_id : Text
  pub ciphertext : Bytes
  pub nonce : Bytes
  pub auth_tag : Bytes

pub record LocalMasterKey : Type 0 where
  pub id : Text
  pub key : Bytes

-- The constructor.
unfoldable pub local_master_key : Text → Bytes → Result LocalMasterKey
local_master_key id key =
    if length (trim id) == 0 || not (length key == 32)
    then err (failed invalid_configuration)
    else ok (record { id = id; key = key })

unfoldable pub data_key_aad : Text → ℕ → AdditionalData
data_key_aad org_id key_version =
    text (codes "himitsu-dek") ∷ number 1 ∷ text org_id ∷ number key_version ∷ []

unfoldable pub wrapped_of : Text → Bytes → Bytes × Bytes → WrappedDataKey
wrapped_of kek_id nonce sealed = record {
  kek_id = kek_id;
  ciphertext = sealed.0;
  nonce = nonce;
  auth_tag = sealed.1;
}

abbrev key_of : Option Bytes → Result Bytes
key_of none = err (failed decryption_failed)
key_of (some key) = if length key == 32 then ok key else err (failed decryption_failed)

module _ (cipher : Cipher) where
  -- `wrap`, with the random nonce.
  unfoldable pub wrap : LocalMasterKey → Bytes → Text → ℕ → Bytes → Result WrappedDataKey
  unfolding data_key_aad wrapped_of
  wrap master nonce org_id key_version data_key =
      if length data_key == 32
      then ok (
          wrapped_of master.id nonce
            (cipher.seal master.key nonce (data_key_aad org_id key_version) data_key))
      else err (failed invalid_configuration)

  unfoldable pub unwrap : LocalMasterKey → Text → ℕ → WrappedDataKey → Result Bytes
  unfolding data_key_aad
  unwrap master org_id key_version wrapped =
      if text_eq wrapped.kek_id master.id
      then key_of (
          cipher.unseal master.key wrapped.nonce (data_key_aad org_id key_version)
            wrapped.ciphertext wrapped.auth_tag)
      else err (failed decryption_failed)

pub data KeyStatus : Type 0 where
  active retired : KeyStatus

pub record DataKeyRecord : Type 0 where
  pub org_id : Text
  pub version : ℕ
  pub status : KeyStatus
  pub wrapped : WrappedDataKey
  pub created_at : ℕ
  pub retired_at : Option ℕ

pub record SecretEncryptionContext : Type 0 where
  pub org_id : Text
  pub project_id : Text
  pub environment_id : Text
  pub secret_id : Text
  pub record_version : ℕ

pub record EncryptedSecretValue : Type 0 where
  pub algorithm : Text
  pub key_version : ℕ
  pub ciphertext : Bytes
  pub nonce : Bytes
  pub auth_tag : Bytes

abbrev is_empty : Text → Bool
is_empty s = length s == 0

-- `secretAad`.
unfoldable pub secret_aad : SecretEncryptionContext → Result AdditionalData
secret_aad context =
    if is_empty context.org_id
      || is_empty context.project_id
      || is_empty context.environment_id
      || is_empty context.secret_id
      || ltb context.record_version 1
    then err (failed invalid_context)
    else ok (
        text (codes "himitsu-secret")
        ∷ number 1
        ∷ text context.org_id
        ∷ text context.project_id
        ∷ text context.environment_id
        ∷ text context.secret_id
        ∷ number context.record_version
        ∷ [])
