-- ===== src/Secrets/Samples.antt =====
-- Runs of the service of packages/secrets/src/index.ts on a small organization, for the tests.
use himitsu.Prelude.{
  Bool, find, ◌⊎◌, subst, ℕ, ◌≡◌, refl, true, false, none, some, [], ◌∷◌, inl, inr, arith,
}
use himitsu.Text.{Text, codes, decimal_from, decimal}
use himitsu.Errors.{ok}
use himitsu.Database.{Database, SecretRow}
use himitsu.Evaluation.{evaluation}
use himitsu.Evaluation.Office.{office}
use himitsu.Evaluation.Transparent.{transparent, transparent-IsCipher, master, random}
use himitsu.Crypto.{data_key_aad, wrapped_of, wrap, unwrap, secret_aad}
use himitsu.Crypto.Keys.Table.{max_version, get_active, get_version, add_version, ensure_active}
use himitsu.Crypto.Keys.Table.Versions.{IsKeyed}
use himitsu.Crypto.Envelope.{
  remember, concealed, generate_wrapped_key, unwrap_into_cache, load_key, encrypt, try_decrypt,
  decrypt,
}
use himitsu.Secrets.{
  SecretMetadata, SecretWithValue, SetSecretInput, Draws, conventional_from, is_conventional,
  is_forbidden, validate_secret_key, validate_secret_value, validate_notes, validate_change_note,
}
use himitsu.Secrets.Utf8.{
  encode_point, paired, encode_points, utf8, units_of, units, to_well_formed, start, advance,
  decode_from, decode,
}
use himitsu.Secrets.Store.{
  hex_digits, uuid_text, tag_ids_of, metadata_from_row, environment, metadata_row, value_row,
  version_value_row, encrypt_value, decrypt_value, insert_version, insert_secret, update_secret,
  replace_tags,
}
use himitsu.Secrets.Writing.{
  is_recoverable, rewrite_row, write_metadata, write_version, revive_or_insert, create_secret,
  create,
}
use himitsu.Secrets.Changes.{replace, update, rollback_note, rollback, delete}
use himitsu.Secrets.Reading.{get}
use himitsu.Secrets.History.{HasHistory}
use himitsu.Secrets.History.Creation.{create_secret_effect, Spared, Fresh, Revived}

unfoldable pub secrets_open : Unit {0}
unfolding evaluation data_key_aad wrapped_of wrap unwrap secret_aad max_version get_active
    get_version add_version ensure_active remember concealed generate_wrapped_key unwrap_into_cache
    load_key encrypt try_decrypt decrypt conventional_from is_conventional is_forbidden
    validate_secret_key validate_secret_value validate_notes validate_change_note encode_point
    paired encode_points utf8 units_of units to_well_formed start advance decode_from decode
    decimal_from decimal hex_digits uuid_text tag_ids_of metadata_from_row environment metadata_row
    value_row version_value_row encrypt_value decrypt_value insert_version insert_secret
    update_secret replace_tags rewrite_row write_metadata write_version revive_or_insert
    create_secret create replace update rollback_note rollback delete get
secrets_open = tt

abbrev pub draws : Draws
draws = record { secret_id = 50; random = random 3 }

abbrev pub input : SetSecretInput
input = record {
  key = codes "API_KEY";
  value = codes "first";
  notes = none;
  change_note = none;
  allow_non_conforming_key = false;
  tag_ids = none;
}

unfoldable pub created :
    (m : SecretMetadata) × (db : Database) × (create 5 transparent master draws 7 20 input office
      ≡ (ok m, db))
unfolding secrets_open
created = (_, _, refl)

unfoldable pub updated :
    (m : SecretMetadata) × (db : Database) × (update 5 transparent master
        (random 4)
        50
        (some (codes "second"))
        none
        none
        (some 1)
        none
        created.1
      ≡ (ok m, db))
unfolding secrets_open created
updated = (_, _, refl)

unfoldable pub rolled :
    (m : SecretMetadata) × (db : Database) × (rollback 5 transparent master
        (random 5)
        50
        1
        none
        none
        updated.1
      ≡ (ok m, db))
unfolding secrets_open created updated
rolled = (_, _, refl)

unfoldable pub got :
    (r : SecretWithValue) × (db : Database) × (get 5 transparent master 50 rolled.1 ≡ (ok r, db))
unfolding secrets_open created updated rolled
got = (_, _, refl)

got_value : got.0.value ≡ codes "first"
unfolding secrets_open created updated rolled got
got_value = refl

unfoldable pub removed :
    (m : SecretMetadata) × (db : Database) × (delete 5 50 rolled.1 ≡ (ok m, db))
unfolding secrets_open created updated rolled
removed = (_, _, refl)

unfoldable pub back :
    (m : SecretMetadata) × (db : Database) × (create 5 transparent master draws 7 20 input removed.1
      ≡ (ok m, db))
unfolding secrets_open created updated rolled removed
back = (_, _, refl)

back_version : back.0.current_version ≡ 4
unfolding secrets_open created updated rolled removed back
back_version = refl

creation :
    (key : Text) × (validate_secret_key (codes "API_KEY") false ≡ ok key)
    × Spared 5 transparent transparent-IsCipher master draws 7 20 input office created.1 created.0
        key
    × (((find (is_recoverable 7 20 key) office.secrets ≡ none)
          × Fresh 5 transparent transparent-IsCipher master draws 7 20 input office created.1
              created.0 key)
        ⊎ ((r : SecretRow) × (find (is_recoverable 7 20 key) office.secrets ≡ some r)
            × Revived 5 transparent transparent-IsCipher master draws 7 20 input office created.1
                created.0 r))
creation =
    create_secret_effect 5 transparent transparent-IsCipher master draws 7 20 input office created.1
      created.0 tt created.2

no_recoverable : (key : Text) → find (is_recoverable 7 20 key) office.secrets ≡ none
no_recoverable key = ground arith

pub created_id : created.0.id ≡ 50
unfolding secrets_open created
created_id = refl

pub first_history : HasHistory transparent master created.1 50 (codes "first" ∷ [])
first_history =
    let (key, _, _, cases) = creation in
    elim cases [
      | inl (_, made) ↦
          subst (λ (n : ℕ). HasHistory transparent master created.1 n (codes "first" ∷ []))
            created_id (made.first (omega arith))
      | inr (r, found, _) ↦
          let missing = no_recoverable key in
          let bad : ◌≡◌ {A = Bool} false true = ground (arith, missing, found) in cc
    ]

pub created_keyed : IsKeyed created.1.encryption_keys
created_keyed = let (_, _, spared, _) = creation in spared.preserved.keyed
