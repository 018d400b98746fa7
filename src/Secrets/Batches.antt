-- ===== src/Secrets/Batches.antt =====
-- `bulkSet` of packages/secrets/src/index.ts: many writes in one transaction.
pub mod Importing
pub mod Counting
pub mod Storing
pub mod Keys
pub mod Summary
use himitsu.Prelude.{
  ℕ, suc, ◌+◌, Bool, true, false, ◌&&◌, ◌||◌, not, Option, none, some, List, [], ◌∷◌, ◌++◌, map,
  filter, find, all, any, length, is_none, is_some, ltb, leb, ◌==◌, or_else, if◌then◌else◌,
}
use himitsu.Text.{Text, text_eq, codes, elem_text, distinct_texts}
use himitsu.Authz.{secret_write}
use himitsu.Errors.{Error, invalid_input, Result, ok, err}
use himitsu.Exec.{Exec, pure, query, guard, ◌>>=◌, ◌>>◌}
use himitsu.Audit.{
  AuditEvent, AuditActor, ResourceId, ResourceType, secret_updated, secret_imported,
}
use himitsu.Audit.Metadata.{string, number, array, Items, nil, item, Fields, end, field}
use himitsu.Database.{Database, SecretRow}
use himitsu.Tenant.{require, record_in_transaction}
use himitsu.Crypto.{Cipher, LocalMasterKey}
use himitsu.Secrets.{
  SecretMetadata, SetSecretInput, VersionInput, Draws, failed, max_bulk_items, validate_secret_key,
}
use himitsu.Secrets.Store.{environment, is_key_of}
use himitsu.Secrets.Writing.{write_version, create_secret}

-- An input with the normalized form of its key.
pub record Keyed : Type 0 where
  pub key : Text
  pub input : SetSecretInput

abbrev cons_keyed : SetSecretInput → Result Text → Result (List Keyed) → Result (List Keyed)
cons_keyed input (err e) rest = err e
cons_keyed input (ok key) (err e) = err e
cons_keyed input (ok key) (ok rest) = ok (record { key = key; input = input } ∷ rest)

-- `inputs.map((input) => validateSecretKey(input.key, …))`.
unfoldable pub normalize : List SetSecretInput → Result (List Keyed)
normalize [] = ok []
normalize (input ∷ rest) =
    cons_keyed input (validate_secret_key input.key input.allow_non_conforming_key) (normalize rest)

abbrev pub keys_of : List Keyed → List Text
keys_of items = map (λ (k : Keyed). k.key) items

abbrev pub is_live_key : ℕ → ℕ → Text → SecretRow → Bool
is_live_key project_id environment_id key s =
    is_key_of project_id environment_id key s && is_none s.deleted_at

abbrev pub version_input : SetSecretInput → Option Text → VersionInput
version_input input change_note = record {
  value = input.value;
  notes = input.notes;
  change_note = change_note;
  tag_ids = input.tag_ids;
}

abbrev pub with_key : Text → Option Text → SetSecretInput → SetSecretInput
with_key key change_note input = record input { key = key; change_note = change_note }

abbrev pub strings : List Text → Items
strings [] = nil
strings (s ∷ rest) = item (string s) (strings rest)

module _ (actor : ℕ) (cipher : Cipher) (master : LocalMasterKey)
    (project_id environment_id : ℕ) where
  -- One write of a batch: of the live secret of the key, or a creation.
  unfoldable pub set_one :
      Draws
      → Text
      → SetSecretInput
      → Option Text
      → Bool
      → Option SecretRow
      → Exec Database SecretMetadata
  set_one draws key input change_note record_audit none =
      create_secret actor cipher master draws project_id environment_id
        (with_key key change_note input) true record_audit
  set_one draws key input change_note record_audit (some row) =
      write_version actor cipher master draws.random row (version_input input change_note)
        secret_updated record_audit

  unfoldable pub set_all : (ℕ → Draws) → ℕ → List Keyed → Exec Database (List SecretMetadata)
  set_all draws index [] = pure []
  set_all draws index (k ∷ rest) = do
    row ← query (λ db. ok (find (is_live_key project_id environment_id k.key) db.secrets))
    m ← set_one (draws index) k.key k.input k.input.change_note true row
    ms ← set_all draws (suc index) rest
    pure (m ∷ ms)

  -- `draws` numbers what the writes of the batch draw.
  unfoldable pub bulk_set : (ℕ → Draws) → List SetSecretInput → Exec Database (List SecretMetadata)
  bulk_set draws inputs = do
    guard (leb 1 (length inputs) && leb (length inputs) max_bulk_items) (failed invalid_input)
    items ← query (λ _. normalize inputs)
    guard (distinct_texts (keys_of items)) (failed invalid_input)
    e ← query (environment project_id environment_id)
    query (require actor (some project_id) e.protected secret_write)
    set_all draws 0 items
