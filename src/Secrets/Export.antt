-- ===== src/Secrets/Export.antt =====
-- How `serializeSecretExport` of packages/secrets/src/index.ts quotes keys and values, and its lines
-- for dotenv and the shell.
pub mod Dotenv
pub mod Lines
pub mod Nested
pub mod Quoted
pub mod Service
pub mod Shell
mod Tests
use himitsu.Prelude.{
  ℕ, suc, zero, ◌+◌, ◌-◌, ◌*◌, Bool, true, false, ◌&&◌, ◌||◌, not, Option, none, some, List, [],
  ◌∷◌, ◌++◌, map, any, all, length, is_some, ltb, leb, ◌==◌, or_else, if◌then◌else◌,
}
use himitsu.Text.{Text, text_eq, codes, between}
use himitsu.Errors.{Error, invalid_input, Result, ok, err}
use himitsu.Imports.{starts_with}
use himitsu.Secrets.{failed}
use himitsu.Secrets.Utf8.{paired, units_of}
use himitsu.Secrets.Store.{hex_digits}

pub record Entry : Type 0 where
  pub key : Text
  pub value : Text

pub data SecretExportFormat : Type 0 where
  dotenv json shell : SecretExportFormat

abbrev is_letter : ℕ → Bool
is_letter c = between b'A' b'Z' c || between b'a' b'z' c || c == b'_'

abbrev pub is_word : ℕ → Bool
is_word c = is_letter c || between b'0' b'9' c

-- `^[A-Za-z_][A-Za-z0-9_]*$`.
unfoldable pub is_exportable : Text → Bool
is_exportable [] = false
is_exportable (c ∷ s) = is_letter c && all is_word s

-- `exportableKey`.
unfoldable pub exportable_key : Text → Result Text
exportable_key key = if is_exportable key then ok key else err (failed invalid_input)

abbrev backslash : Text
backslash = b'\\' ∷ []

-- One code point inside the quotes of `JSON.stringify`.
unfoldable pub json_escape : ℕ → Text
json_escape p =
    if p == b'"' || p == b'\\'
    then b'\\' ∷ p ∷ []
    else if p == 8
    then codes "\\b"
    else if p == 9
    then codes "\\t"
    else if p == 10
    then codes "\\n"
    else if p == 12
    then codes "\\f"
    else if p == 13
    then codes "\\r"
    else if ltb p 32 || between 0xd800 0xdfff p
    then codes "\\u" ++ hex_digits 4 p
    else units_of p

unfoldable pub json_points : List ℕ → Text
json_points [] = []
json_points (p ∷ ps) = json_escape p ++ json_points ps

-- `JSON.stringify(text)`.
unfoldable pub json_quote : Text → Text
unfolding json_points
json_quote s = b'"' ∷ (json_points (paired s) ++ b'"' ∷ [])

-- `value.replaceAll("'", "'\\''")`.
unfoldable pub shell_body : Text → Text
shell_body [] = []
shell_body (c ∷ s) =
    let rest = shell_body s in if c == b'\'' then b'\'' ∷ b'\\' ∷ b'\'' ∷ b'\'' ∷ rest else c ∷ rest

unfoldable pub dotenv_line : Entry → Text
dotenv_line e = e.key ++ b'=' ∷ json_quote e.value

unfoldable pub shell_line : Entry → Text
shell_line e = codes "export " ++ (e.key ++ b'=' ∷ b'\'' ∷ (shell_body e.value ++ b'\'' ∷ []))

abbrev line_before : Result Text → Text → Result Text → Result Text
line_before (err e) line rest = err e
line_before (ok key) line (err e) = err e
line_before (ok key) line (ok rest) = ok (line ++ 10 ∷ rest)

-- `entries.map(line).join("\n") + (entries.length === 0 ? "" : "\n")`.
unfoldable pub lines_of : (Entry → Text) → List Entry → Result Text
lines_of line [] = ok []
lines_of line (e ∷ rest) = line_before (exportable_key e.key) (line e) (lines_of line rest)
