-- ===== src/Secrets/Batches/Importing.antt =====
-- `importBatch` of packages/secrets/src/index.ts.
use himitsu.Prelude.{
  ℕ, suc, Bool, true, false, ◌&&◌, ◌||◌, not, Option, none, some, List, [], ◌∷◌, ◌++◌, map, filter,
  find, any, length, is_none, leb, ◌==◌, or_else, if◌then◌else◌,
}
use himitsu.Text.{Text, text_eq, codes, elem_text, distinct_texts}
use himitsu.Authz.{secret_write}
use himitsu.Errors.{invalid_input, ok}
use himitsu.Exec.{Exec, pure, query, guard, ◌>>=◌, ◌>>◌}
use himitsu.Audit.{AuditEvent, AuditActor, ResourceId, ResourceType, secret_imported}
use himitsu.Audit.Metadata.{string, number, array, Fields, end, field}
use himitsu.Database.{Database, SecretRow}
use himitsu.Tenant.{require, record_in_transaction}
use himitsu.Crypto.{Cipher, LocalMasterKey}
use himitsu.Secrets.{SecretMetadata, SetSecretInput, Draws, failed, max_bulk_items}
use himitsu.Secrets.Store.{environment}
use himitsu.Secrets.Batches.{Keyed, normalize, keys_of, set_one, strings}

pub data SecretImportStrategy : Type 0 where
  skip overwrite merge : SecretImportStrategy

pub data SecretImportFormat : Type 0 where
  dotenv json : SecretImportFormat

unfoldable pub strategy_name : SecretImportStrategy → Text
strategy_name skip = codes "skip"
strategy_name overwrite = codes "overwrite"
strategy_name merge = codes "merge"

unfoldable pub format_name : SecretImportFormat → Text
format_name dotenv = codes "dotenv"
format_name json = codes "json"

pub record Summary : Type 0 where
  pub requested : ℕ
  pub created : ℕ
  pub updated : ℕ
  pub skipped : ℕ

pub record SecretImportResult : Type 0 where
  pub secrets : List SecretMetadata
  pub summary : Summary

-- What the loop of an import has done so far.
pub record Progress : Type 0 where
  pub results : List SecretMetadata
  pub created : ℕ
  pub updated : ℕ
  pub skipped : ℕ

abbrev pub no_progress : Progress
no_progress = record { results = []; created = 0; updated = 0; skipped = 0 }

-- The live rows of the keys, as they are read before the loop.
abbrev pub existing_rows : ℕ → ℕ → List Text → Database → List SecretRow
existing_rows project_id environment_id keys db =
    filter
      (λ (s : SecretRow).
        s.project_id == project_id
        && s.environment_id == environment_id
        && elem_text s.key keys
        && is_none s.deleted_at)
      db.secrets

-- Whether an item is written, by the row that its key has.
unfoldable pub included : SecretImportStrategy → List Text → Text → Option SecretRow → Bool
included overwrite selected key row = true
included skip selected key row = is_none row
included merge selected key row = elem_text key selected

-- `selected.size === 0 || [...selected].some((key) => !sourceKeys.has(key))`.
abbrev pub bad_selection : SecretImportStrategy → List Text → List Text → Bool
bad_selection merge selected source_keys =
    length selected == 0 || any (λ key. not (elem_text key source_keys)) selected
bad_selection _ selected source_keys = false

abbrev pub import_details : SecretImportFormat → SecretImportStrategy → ℕ → Progress → Fields
import_details format strategy requested p = field (codes "format") (string (format_name format)) (
    field (codes "strategy") (string (strategy_name strategy)) (
      field (codes "requested") (number requested) (
        field (codes "created") (number p.created) (
          field (codes "updated") (number p.updated) (
            field (codes "skipped") (number p.skipped) (
              field (codes "keys") (array (strings (map (λ (m : SecretMetadata). m.key) p.results)))
                end))))))

abbrev pub environment_event : ℕ → ℕ → ℕ → ℕ → Fields → AuditEvent
environment_event org_id actor project_id environment_id details = record {
  org_id = org_id;
  actor = AuditActor.user actor;
  action = secret_imported;
  resource_type = ResourceType.environment;
  resource_id = some (ResourceId.uuid environment_id);
  project_id = some project_id;
  environment_id = some environment_id;
  before = none;
  after = none;
  details = some details;
}

abbrev pub counted : Progress → Option SecretRow → SecretMetadata → Progress
counted p none m = record p { results = p.results ++ m ∷ []; created = suc p.created }
counted p (some row) m = record p { results = p.results ++ m ∷ []; updated = suc p.updated }

abbrev pub result_of : ℕ → Progress → SecretImportResult
result_of requested p = record {
  secrets = p.results;
  summary = record {
    requested = requested;
    created = p.created;
    updated = p.updated;
    skipped = p.skipped;
  };
}

module _ (actor : ℕ) (cipher : Cipher) (master : LocalMasterKey)
    (project_id environment_id : ℕ) where
  -- One round of the loop of an import.
  unfoldable pub import_one :
      Draws
      → SecretImportStrategy
      → List Text
      → SecretImportFormat
      → Keyed
      → Progress
      → Option SecretRow
      → Exec Database Progress
  import_one draws strategy selected format k p row db =
      if included strategy selected k.key row
      then (set_one actor cipher master project_id environment_id draws k.key k.input
              (some (or_else k.input.change_note (format_name format ++ codes " import"))) false row
            >>= λ m. pure (counted p row m))
          db
      else (ok (record p { skipped = suc p.skipped }), db)

  -- The loop, over the rows that were read before it.
  unfoldable pub import_all :
      (ℕ → Draws)
      → SecretImportStrategy
      → List Text
      → SecretImportFormat
      → List SecretRow
      → ℕ
      → List Keyed
      → Progress
      → Exec Database Progress
  import_all draws strategy selected format existing index [] p = pure p
  import_all draws strategy selected format existing index (k ∷ rest) p = do
    q ←
        import_one (draws index) strategy selected format k p
          (find (λ (s : SecretRow). text_eq s.key k.key) existing)
    import_all draws strategy selected format existing (suc index) rest q

  unfoldable pub import_batch :
      (ℕ → Draws)
      → List SetSecretInput
      → SecretImportStrategy
      → List Text
      → SecretImportFormat
      → Exec Database SecretImportResult
  import_batch draws inputs strategy selected format = do
    guard (leb 1 (length inputs) && leb (length inputs) max_bulk_items) (failed invalid_input)
    items ← query (λ _. normalize inputs)
    guard (distinct_texts (keys_of items)) (failed invalid_input)
    guard (not (bad_selection strategy selected (keys_of items))) (failed invalid_input)
    e ← query (environment project_id environment_id)
    query (require actor (some project_id) e.protected secret_write)
    existing ← query (λ db. ok (existing_rows project_id environment_id (keys_of items) db))
    p ← import_all draws strategy selected format existing 0 items no_progress
    org_id ← query (λ db. ok db.org_id)
    record_in_transaction (
        environment_event org_id actor project_id environment_id
          (import_details format strategy (length items) p))
    pure (result_of (length items) p)
