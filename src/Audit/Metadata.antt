-- ===== src/Audit/Metadata.antt =====
-- The metadata of an audit event, and its allow-list validator, of packages/audit/src/index.ts.
pub mod Safety
mod Tests
use himitsu.Prelude.{
  ℕ, suc, ◌+◌, Bool, true, false, ◌&&◌, ◌||◌, not, List, [], ◌∷◌, leb, ◌==◌, if◌then◌else◌, any,
}
use himitsu.Text.{Text, codes, between}

-- `SafeMetadataValue`. Numbers are natural, so they are finite; `uuid` and `instant` are the
-- strings of an id (36 characters) and of `toISOString` (24 characters).
mutual
  pub data Value : Type 0 where
    null : Value
    boolean : Bool → Value
    number : ℕ → Value
    string : Text → Value
    uuid : ℕ → Value
    instant : ℕ → Value
    array : Items → Value
    object : Fields → Value

  pub data Items : Type 0 where
    nil : Items
    item : Value → Items → Items

  pub data Fields : Type 0 where
    end : Fields
    field : Text → Value → Fields → Fields

abbrev lower_ascii : ℕ → ℕ
lower_ascii c = if between b'A' b'Z' c then c + 32 else c

-- The word, in either case, and then the end or an underscore.
starts_with_word : Text → Text → Bool
starts_with_word [] [] = true
starts_with_word [] (c ∷ s) = c == b'_'
starts_with_word (w ∷ word) [] = false
starts_with_word (w ∷ word) (c ∷ s) = w == lower_ascii c && starts_with_word word s

forbidden_words : List Text
forbidden_words =
    codes "secret"
    ∷ codes "value"
    ∷ codes "password"
    ∷ codes "passphrase"
    ∷ codes "token"
    ∷ codes "credential"
    ∷ codes "authorization"
    ∷ codes "cookie"
    ∷ codes "ciphertext"
    ∷ codes "nonce"
    ∷ codes "auth_tag"
    ∷ []

-- `boundary` holds at the start and behind an underscore.
is_forbidden_from : Bool → Text → Bool
unfolding forbidden_words starts_with_word
is_forbidden_from boundary [] = false
is_forbidden_from boundary (c ∷ s) =
    (boundary && any (λ word. starts_with_word word (c ∷ s)) forbidden_words)
    || is_forbidden_from (c == b'_') s

-- `forbiddenKey.test(key)`.
unfoldable pub is_forbidden_key : Text → Bool
unfolding is_forbidden_from
is_forbidden_key key = is_forbidden_from true key

abbrev pub count_items : Items → ℕ
count_items nil = 0
count_items (item v rest) = suc (count_items rest)

abbrev pub count_fields : Fields → ℕ
count_fields end = 0
count_fields (field k v rest) = suc (count_fields rest)

-- `validateMetadata`, as its success; a failure throws UNSAFE_METADATA. Below the arrays and
-- objects `depth` is that of the members.
unfoldable mutual
  pub validate_metadata : Value → ℕ → Bool
  validate_metadata null depth = leb depth 8
  validate_metadata (boolean b) depth = leb depth 8
  validate_metadata (number n) depth = leb depth 8
  validate_metadata (string s) depth = leb depth 8
  validate_metadata (uuid n) depth = leb depth 8
  validate_metadata (instant n) depth = leb depth 8
  validate_metadata (array items) depth =
      leb depth 8 && leb (count_items items) 100 && validate_items items (depth + 1)
  validate_metadata (object fields) depth =
      leb depth 8 && leb (count_fields fields) 100 && validate_fields fields (depth + 1)

  pub validate_items : Items → ℕ → Bool
  validate_items nil depth = true
  validate_items (item v rest) depth = validate_metadata v depth && validate_items rest depth

  pub validate_fields : Fields → ℕ → Bool
  validate_fields end depth = true
  validate_fields (field key v rest) depth =
      not (is_forbidden_key key) && validate_metadata v depth && validate_fields rest depth
