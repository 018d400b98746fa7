-- ===== src/Secrets.antt =====
-- The secrets of packages/secrets/src/index.ts: their data, the validation of keys, values and notes,
-- and the rows that the service reads. The operations stand in the modules below. The rows of a
-- listing and the tags of a secret come in the order of the table.
pub mod Utf8
pub mod Store
pub mod Writing
pub mod Changes
pub mod Reading
pub mod Sealing
pub mod Versions
pub mod History
pub mod Batches
pub mod Promotion
pub mod Lasting
pub mod Conflicts
pub mod Export
pub mod Limits
pub mod Samples
mod Tests
use himitsu.Prelude.{
  ℕ, ◌*◌, Bool, true, false, ◌&&◌, ◌||◌, not, Option, none, some, List, [], ◌∷◌, any, length, ltb,
  ◌==◌, if◌then◌else◌,
}
use himitsu.Text.{Text, trim, is_space, between}
use himitsu.Errors.{
  Error, SecretErrorCode, invalid_input, key_convention, value_too_large, Result, ok, err,
}
use himitsu.Crypto.{Bytes}
use himitsu.Crypto.Envelope.{Randomness}
use himitsu.Secrets.Utf8.{utf8}

abbrev pub max_value_bytes : ℕ
max_value_bytes = 64 * 1024

abbrev pub max_bulk_items : ℕ
max_bulk_items = 100

abbrev pub failed : SecretErrorCode → Error
failed code = Error.secret code

pub record SecretMetadata : Type 0 where
  pub id : ℕ
  pub org_id : ℕ
  pub project_id : ℕ
  pub environment_id : ℕ
  pub key : Text
  pub notes : Option Text
  pub tag_ids : List ℕ
  pub current_version : ℕ

pub record SecretWithValue : Type 0 where
  pub metadata : SecretMetadata
  pub value : Text

-- `notes` tells undefined (`none`) from null (`some none`); the code treats both alike for the
-- change note.
pub record SetSecretInput : Type 0 where
  pub key : Text
  pub value : Text
  pub notes : Option (Option Text)
  pub change_note : Option Text
  pub allow_non_conforming_key : Bool
  pub tag_ids : Option (List ℕ)

-- The input of `#writeVersion`.
pub record VersionInput : Type 0 where
  pub value : Text
  pub notes : Option (Option Text)
  pub change_note : Option Text
  pub tag_ids : Option (List ℕ)

-- What one write draws: the UUID of a new secret, and the buffers of the encryption.
pub record Draws : Type 0 where
  pub secret_id : ℕ
  pub random : Randomness

abbrev pub is_upper : ℕ → Bool
is_upper c = between b'A' b'Z' c

-- Behind the first letter of `^[A-Z][A-Z0-9]*(?:_[A-Z0-9]+)*$`; `inside` holds behind a letter or digit.
unfoldable pub conventional_from : Bool → Text → Bool
conventional_from inside [] = inside
conventional_from inside (c ∷ s) =
    let underscore = conventional_from false s in
    if is_upper c || between b'0' b'9' c
    then conventional_from true s
    else (c == b'_' && inside) && underscore

-- `conventionalKey`.
unfoldable pub is_conventional : Text → Bool
unfolding conventional_from
is_conventional [] = false
is_conventional (c ∷ s) = is_upper c && conventional_from true s

-- `[\s=\u0000-\u001f\u007f]`.
unfoldable pub is_forbidden : ℕ → Bool
is_forbidden c = is_space c || c == b'=' || ltb c 32 || c == 127

unfoldable pub validate_secret_key : Text → Bool → Result Text
validate_secret_key key allow_non_conforming =
    let normalized = trim key in
    if ltb (length normalized) 1 || ltb 255 (length normalized) || any is_forbidden normalized
    then err (failed invalid_input)
    else if not allow_non_conforming && not (is_conventional normalized)
    then err (failed key_convention)
    else ok normalized

unfoldable pub validate_secret_value : Text → Result Bytes
validate_secret_value value =
    if ltb max_value_bytes (length (utf8 value))
    then err (failed value_too_large)
    else ok (utf8 value)

abbrev pub bounded_note : ℕ → Text → Result (Option Text)
bounded_note limit note =
    if length note == 0
    then ok none
    else if ltb limit (length note)
    then err (failed invalid_input)
    else ok (some note)

-- `none` stands for null and undefined.
unfoldable pub validate_notes : Option Text → Result (Option Text)
validate_notes none = ok none
validate_notes (some notes) = bounded_note 4000 (trim notes)

unfoldable pub validate_change_note : Option Text → Result (Option Text)
validate_change_note none = ok none
validate_change_note (some change_note) = bounded_note 1000 (trim change_note)
