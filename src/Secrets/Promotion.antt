-- ===== src/Secrets/Promotion.antt =====
-- `previewPromotion` and `promote` of packages/secrets/src/index.ts: the secrets of one environment
-- copied to another.
use himitsu.Prelude.{
  ℕ, suc, Bool, true, false, ◌&&◌, ◌||◌, not, Option, none, some, List, [], ◌∷◌, ◌++◌, map, filter,
  find, all, length, count_where, is_none, ◌==◌, if◌then◌else◌,
}
use himitsu.Text.{Text, text_eq, codes, elem_text, distinct_texts}
use himitsu.Authz.{secret_read, secret_write}
use himitsu.Errors.{invalid_input, not_found, Result, ok, err}
use himitsu.Exec.{Exec, pure, query, guard, ◌>>=◌, ◌>>◌}
use himitsu.Audit.{
  AuditEvent, AuditActor, ResourceId, ResourceType, secret_updated, secret_promoted,
}
use himitsu.Audit.Metadata.{uuid, number, array, Fields, end, field}
use himitsu.Database.{Database, SecretRow, SecretVersionRow}
use himitsu.Tenant.{require, record_in_transaction}
use himitsu.Crypto.{Bytes, Cipher, LocalMasterKey}
use himitsu.Secrets.{SecretMetadata, Draws, failed, validate_secret_key}
use himitsu.Secrets.Utf8.{decode}
use himitsu.Secrets.Store.{environment, is_version, decrypt_value, uuid_text}
use himitsu.Secrets.Writing.{write_version, create_secret}
use himitsu.Secrets.Batches.{strings}

-- A live secret with the row of its current version.
pub record Valued : Type 0 where
  pub secret : SecretRow
  pub version : SecretVersionRow

pub data PromotionAction : Type 0 where
  creates overwrites : PromotionAction

pub record SecretPromotionPreviewItem : Type 0 where
  pub key : Text
  pub action : PromotionAction
  pub changed : Bool
  pub source_version : ℕ
  pub target_version : Option ℕ

pub record SecretPromotionPreview : Type 0 where
  pub items : List SecretPromotionPreviewItem
  pub selected : ℕ
  pub created : ℕ
  pub overwritten : ℕ

pub record SecretPromotionResult : Type 0 where
  pub preview : SecretPromotionPreview
  pub secrets : List SecretMetadata

abbrev cons_text : Result Text → Result (List Text) → Result (List Text)
cons_text (err e) rest = err e
cons_text (ok key) (err e) = err e
cons_text (ok key) (ok rest) = ok (key ∷ rest)

-- `keys.map((key) => validateSecretKey(key, true))`.
unfoldable pub validate_keys : List Text → Result (List Text)
validate_keys [] = ok []
validate_keys (key ∷ rest) = cons_text (validate_secret_key key true) (validate_keys rest)

abbrev selection_of : Result (List Text) → Result (Option (List Text))
selection_of (err e) = err e
selection_of (ok keys) =
    if length keys == 0 || not (distinct_texts keys)
    then err (failed invalid_input)
    else ok (some keys)

-- The selected keys, if any are named.
unfoldable pub normalize_selection : Option (List Text) → Result (Option (List Text))
unfolding validate_keys
normalize_selection none = ok none
normalize_selection (some keys) = selection_of (validate_keys keys)

abbrev pub is_selected : Option (List Text) → Text → Bool
is_selected none key = true
is_selected (some keys) key = elem_text key keys

abbrev cons_valued : SecretRow → Option SecretVersionRow → List Valued → List Valued
cons_valued s none rest = rest
cons_valued s (some v) rest = record { secret = s; version = v } ∷ rest

-- The join with the current versions.
unfoldable pub with_values : List SecretVersionRow → List SecretRow → List Valued
with_values versions [] = []
with_values versions (s ∷ rest) =
    cons_valued s (find (is_version s.id s.current_version) versions) (with_values versions rest)

-- The live secrets of an environment, with their values.
unfoldable pub valued_in : ℕ → ℕ → Option (List Text) → Database → List Valued
unfolding with_values
valued_in project_id environment_id selected db = with_values db.secret_versions (
    filter
      (λ (s : SecretRow).
        s.project_id == project_id
        && s.environment_id == environment_id
        && is_none s.deleted_at
        && is_selected selected s.key)
      db.secrets)

abbrev pub target_of : List Valued → Text → Option Valued
target_of targets key = find (λ (t : Valued). text_eq t.secret.key key) targets

abbrev pub creating : Valued → SecretPromotionPreviewItem
creating source = record {
  key = source.secret.key;
  action = creates;
  changed = true;
  source_version = source.secret.current_version;
  target_version = none;
}

abbrev pub overwriting : Valued → Valued → Bool → SecretPromotionPreviewItem
overwriting source target changed = record {
  key = source.secret.key;
  action = overwrites;
  changed = changed;
  source_version = source.secret.current_version;
  target_version = some target.secret.current_version;
}

-- `Source secrets not found: …`.
abbrev pub all_found : Option (List Text) → List Valued → Bool
all_found none sources = true
all_found (some keys) sources =
    all (λ key. elem_text key (map (λ (v : Valued). v.secret.key) sources)) keys

abbrev pub creates_one : SecretPromotionPreviewItem → Bool
creates_one i = elim i.action [ creates ↦ true | overwrites ↦ false ]

abbrev pub overwrites_one : SecretPromotionPreviewItem → Bool
overwrites_one i = elim i.action [ creates ↦ false | overwrites ↦ true ]

abbrev pub preview_of : List SecretPromotionPreviewItem → SecretPromotionPreview
preview_of items = record {
  items = items;
  selected = length items;
  created = count_where creates_one items;
  overwritten = count_where overwrites_one items;
}

abbrev promotion_details : ℕ → ℕ → SecretPromotionPreview → Fields
promotion_details source_id target_id preview =
    field (codes "sourceEnvironmentId") (uuid source_id) (
      field (codes "targetEnvironmentId") (uuid target_id) (
        field (codes "created") (number preview.created) (
          field (codes "overwritten") (number preview.overwritten) (
            field (codes "keys")
              (array (strings (map (λ (i : SecretPromotionPreviewItem). i.key) preview.items)))
              end))))

module _ (actor : ℕ) (cipher : Cipher) (master : LocalMasterKey)
    (project_id source_id target_id : ℕ) where
  -- `#authorizePromotion`.
  unfoldable pub authorize_promotion : Option (List Text) → Exec Database (Option (List Text))
  authorize_promotion keys = do
    guard (not (source_id == target_id)) (failed invalid_input)
    selected ← query (λ _. normalize_selection keys)
    source ← query (environment project_id source_id)
    target ← query (environment project_id target_id)
    query (require actor (some project_id) source.protected secret_read)
    query (require actor (some project_id) target.protected secret_write)
    pure selected

  -- `#valuesDiffer`.
  unfoldable pub values_differ : Valued → Valued → Exec Database Bool
  values_differ source target = do
    a ← decrypt_value cipher master source.secret source.version source.secret.current_version
    b ← decrypt_value cipher master target.secret target.version target.secret.current_version
    pure (not (text_eq a b))

  unfoldable pub preview_one : Valued → Option Valued → Exec Database SecretPromotionPreviewItem
  preview_one source none = pure (creating source)
  preview_one source (some target) = do
    changed ← values_differ source target
    pure (overwriting source target changed)

  unfoldable pub preview_items :
      List Valued → List Valued → Exec Database (List SecretPromotionPreviewItem)
  preview_items targets [] = pure []
  preview_items targets (source ∷ rest) = do
    i ← preview_one source (target_of targets source.secret.key)
    is ← preview_items targets rest
    pure (i ∷ is)

  -- `#promotionPreview`.
  unfoldable pub promotion_preview :
      List Valued → List Valued → Option (List Text) → Exec Database SecretPromotionPreview
  promotion_preview sources targets selected = do
    guard (all_found selected sources) (failed not_found)
    items ← preview_items targets sources
    pure (preview_of items)

  unfoldable pub preview_promotion : Option (List Text) → Exec Database SecretPromotionPreview
  preview_promotion keys = do
    selected ← authorize_promotion keys
    sources ← query (λ db. ok (valued_in project_id source_id selected db))
    targets ← query (λ db. ok (valued_in project_id target_id selected db))
    promotion_preview sources targets selected

  unfoldable pub promotion_note : Text
  promotion_note = codes "Promoted from environment " ++ uuid_text source_id

  unfoldable pub promote_value :
      Draws → Valued → Bytes → Option Valued → Exec Database SecretMetadata
  promote_value draws source plaintext none =
      create_secret actor cipher master draws project_id target_id
        (record {
          key = source.secret.key;
          value = decode plaintext;
          notes = some source.secret.notes;
          change_note = some promotion_note;
          allow_non_conforming_key = true;
          tag_ids = none;
        })
        true false
  promote_value draws source plaintext (some target) =
      write_version actor cipher master draws.random target.secret
        (record {
          value = decode plaintext;
          notes = some source.secret.notes;
          change_note = some promotion_note;
          tag_ids = none;
        })
        secret_updated false

  unfoldable pub promote_all :
      (ℕ → Draws) → List Valued → ℕ → List Valued → Exec Database (List SecretMetadata)
  promote_all draws targets index [] = pure []
  promote_all draws targets index (source ∷ rest) = do
    plaintext ←
        decrypt_value cipher master source.secret source.version source.secret.current_version
    m ← promote_value (draws index) source plaintext (target_of targets source.secret.key)
    ms ← promote_all draws targets (suc index) rest
    pure (m ∷ ms)

  abbrev pub promotion_event : ℕ → SecretPromotionPreview → AuditEvent
  promotion_event org_id preview = record {
    org_id = org_id;
    actor = AuditActor.user actor;
    action = secret_promoted;
    resource_type = ResourceType.environment;
    resource_id = some (ResourceId.uuid target_id);
    project_id = some project_id;
    environment_id = some target_id;
    before = none;
    after = none;
    details = some (promotion_details source_id target_id preview);
  }

  unfoldable pub promote : (ℕ → Draws) → Option (List Text) → Exec Database SecretPromotionResult
  promote draws keys = do
    selected ← authorize_promotion keys
    sources ← query (λ db. ok (valued_in project_id source_id selected db))
    targets ← query (λ db. ok (valued_in project_id target_id selected db))
    preview ← promotion_preview sources targets selected
    secrets ← promote_all draws targets 0 sources
    org_id ← query (λ db. ok db.org_id)
    record_in_transaction (promotion_event org_id preview)
    pure (record { preview = preview; secrets = secrets })
