-- ===== src/Crypto/Envelope/Tests.antt =====
-- Runs of the envelope service with a transparent cipher, and the theorems at those runs.
use himitsu.Prelude.{suc, ◌≡◌, refl, [], count_where, arith}
use himitsu.Text.{text_eq, codes}
use himitsu.Errors.{ok}
use himitsu.Crypto.{
  Bytes, DataKeyRecord, SecretEncryptionContext, EncryptedSecretValue, data_key_aad, wrapped_of,
  wrap, unwrap, secret_aad,
}
use himitsu.Crypto.Keys.Table.{
  KeyTable, is_active_of, max_version, get_active, get_version, add_version, ensure_active, rotate,
}
use himitsu.Crypto.Keys.Table.Activation.{Activated, rotate_effect}
use himitsu.Evaluation.Transparent.{transparent, transparent-IsCipher, master, random}
use himitsu.Crypto.Envelope.{
  Vault, Options, remember, concealed, generate_wrapped_key, unwrap_into_cache, load_key, encrypt,
  try_decrypt, decrypt, rotate_data_key, clear_key_cache,
}
use himitsu.Crypto.Envelope.Loading.{IsSound}
use himitsu.Crypto.Envelope.Steps.{Kept}
use himitsu.Crypto.Envelope.Runs.{Steps, done, then_step, encrypts, rotates, clears, steps_keep}
use himitsu.Crypto.Envelope.RoundTrip.{decrypt-encrypt}

abbrev options : Options
options = record { cache_ttl_ms = 60; max_cache_entries = 1 }

abbrev context : SecretEncryptionContext
context = record {
  org_id = codes "org";
  project_id = codes "web";
  environment_id = codes "prod";
  secret_id = codes "token";
  record_version = 1;
}

abbrev new_vault : Vault
new_vault = record { keys = []; cache = [] }

abbrev letter : Bytes
letter = codes "hello"

envelope : Unit {0}
unfolding text_eq data_key_aad wrapped_of wrap unwrap secret_aad max_version get_active get_version
    add_version ensure_active rotate remember concealed generate_wrapped_key unwrap_into_cache
    load_key encrypt try_decrypt decrypt rotate_data_key clear_key_cache
envelope = tt

sealed :
    (e : EncryptedSecretValue) × (v : Vault) × (encrypt transparent master options 100
        (random 3)
        letter
        context
        new_vault
      ≡ (ok e, v))
unfolding envelope
sealed = (_, _, refl)

abbrev rotated : Vault
rotated = (rotate_data_key transparent master options 110 (random 4) (codes "org") sealed.1).1

new_vault-IsSound : IsSound transparent master options new_vault
new_vault-IsSound = record { keyed = tt; cached = tt; bounded = omega arith }

between : Steps transparent master options sealed.1 (clear_key_cache rotated)
between =
    then_step sealed.1 rotated (clear_key_cache rotated)
      (then_step sealed.1 sealed.1 rotated (done sealed.1)
        (rotates 110 (random 4) (codes "org") sealed.1))
      (clears rotated)

decrypt-encrypt_example :
    (decrypt transparent master options 500 sealed.0 context (clear_key_cache rotated)).0
    ≡ ok letter
decrypt-encrypt_example =
    decrypt-encrypt transparent transparent-IsCipher master options (omega arith) context 100 500
      (random 3) letter new_vault sealed.1 (clear_key_cache rotated) sealed.0 refl new_vault-IsSound
      sealed.2 between

steps_keep_example :
    Kept transparent master options
      (omega arith)
      new_vault
      (encrypt transparent master options 100 (random 3) letter context new_vault).1
steps_keep_example =
    steps_keep transparent master options (omega arith) new_vault _ new_vault-IsSound (
      then_step new_vault new_vault _ (done new_vault)
        (encrypts 100 (random 3) letter context new_vault))

abbrev table : KeyTable
table = sealed.1.keys

table_step :
    (r : DataKeyRecord) × (t : KeyTable) × (rotate
        (codes "org")
        200
        (generate_wrapped_key transparent master options (random 5) (codes "org"))
        []
      ≡ (ok r, t))
unfolding envelope
table_step = (_, _, refl)

rotate_effect_example :
    (table_step.0.version ≡ suc (max_version (codes "org") []))
    × (count_where (is_active_of (codes "org")) table_step.1 ≡ 1)
    × Activated (codes "org") [] table_step.1 table_step.0
rotate_effect_example =
    rotate_effect (codes "org") 200
      (generate_wrapped_key transparent master options (random 5) (codes "org")) [] table_step.1
      table_step.0 tt table_step.2
