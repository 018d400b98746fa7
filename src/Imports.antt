-- ===== src/Imports.antt =====
-- The dotenv parser of packages/imports/src/index.ts: its results, and what one line comes to. The
-- messages of the issues are left out: they repeat the line and the key.
pub mod Parsing
pub mod Entries
pub mod Quoting
mod Tests
use himitsu.Prelude.{
  ℕ, ◌+◌, ◌-◌, Bool, true, false, ◌&&◌, ◌||◌, not, Option, none, some, List, [], ◌∷◌, ◌++◌, length,
  ◌==◌, if◌then◌else◌,
}
use himitsu.Text.{Text, elem_text, between, trim, trim_start, trim_end, codes}

pub record DotenvEntry : Type 0 where
  pub key : Text
  pub value : Text
  pub line : ℕ

pub data DotenvIssueCode : Type 0 where
  invalid_assignment invalid_key duplicate_key unterminated_quote trailing_content : DotenvIssueCode

pub record DotenvIssue : Type 0 where
  pub line : ℕ
  pub code : DotenvIssueCode
  pub key : Option Text

pub record DotenvParseResult : Type 0 where
  pub entries : List DotenvEntry
  pub issues : List DotenvIssue

abbrev is_letter : ℕ → Bool
is_letter c = between b'A' b'Z' c || between b'a' b'z' c || c == b'_'

abbrev is_key_unit : ℕ → Bool
is_key_unit c = is_letter c || between b'0' b'9' c || c == b'.' || c == b'-'

abbrev pub all_key_units : Text → Bool
all_key_units [] = true
all_key_units (c ∷ s) = is_key_unit c && all_key_units s

-- `keyPattern`.
unfoldable pub is_key : Text → Bool
is_key [] = false
is_key (c ∷ s) = is_letter c && all_key_units s

abbrev pub starts_with : Text → Text → Bool
starts_with [] s = true
starts_with (p ∷ prefix) [] = false
starts_with (p ∷ prefix) (c ∷ s) = p == c && starts_with prefix s

abbrev push : ℕ → List Text → List Text
push c [] = (c ∷ []) ∷ []
push c (l ∷ lines) = (c ∷ l) ∷ lines

-- `split(/\r?\n/)`.
unfoldable pub split_lines : Text → List Text
split_lines [] = [] ∷ []
split_lines (c ∷ s) =
    let rest = split_lines s in
    if c == 10 then [] ∷ rest else if c == 13 && starts_with (10 ∷ []) s then rest else push c rest

-- `replace(/^\uFEFF/, "")`.
abbrev pub without_mark : Text → Text
without_mark [] = []
without_mark (c ∷ s) = if c == 0xfeff then s else c ∷ s

-- The text before the first `=` and the text behind it.
unfoldable pub split_at_equals : Text → Option (Text × Text)
split_at_equals [] = none
split_at_equals (c ∷ s) =
    let rest = split_at_equals s in
    if c == b'='
    then some ([], s)
    else elim rest [ none ↦ none | some (before, behind) ↦ some (c ∷ before, behind) ]

-- `unquotedValue`, before its `trimEnd`: up to a comment, with `\#` for `#`.
unfoldable pub before_comment : Text → Text
before_comment [] = []
before_comment (c ∷ []) = if c == b'#' then [] else c ∷ []
before_comment (c ∷ d ∷ s) =
    let escaped = before_comment s in
    let rest = before_comment (d ∷ s) in
    if c == b'\\' && d == b'#' then b'#' ∷ escaped else if c == b'#' then [] else c ∷ rest

unfoldable pub unquoted_value : Text → Text
unfolding before_comment
unquoted_value input = trim_end (before_comment input)

-- What a backslash and the character behind it stand for.
unfoldable pub unescaped : ℕ → ℕ → Text
unescaped quote next =
    if next == quote || next == b'\\'
    then next ∷ []
    else if quote == b'"' && next == b'n'
    then 10 ∷ []
    else if quote == b'"' && next == b'r'
    then 13 ∷ []
    else if quote == b'"' && next == b't'
    then 9 ∷ []
    else b'\\' ∷ next ∷ []

-- A line inside quotes: the value and what follows the closing quote, or the value so far.
pub data Scan : Type 0 where
  closed : Text → Text → Scan
  unclosed : Text → Scan

abbrev pub prepend : Text → Scan → Scan
prepend s (closed value trailing) = closed (s ++ value) trailing
prepend s (unclosed value) = unclosed (s ++ value)

-- The inner loop of `parseQuoted`.
unfoldable pub scan_quoted : ℕ → Text → Scan
unfolding unescaped
scan_quoted quote [] = unclosed []
scan_quoted quote (c ∷ []) =
    if c == b'\\' then unclosed (c ∷ []) else if c == quote then closed [] [] else unclosed (c ∷ [])
scan_quoted quote (c ∷ d ∷ s) =
    let escaped = scan_quoted quote s in
    let rest = scan_quoted quote (d ∷ s) in
    if c == b'\\'
    then prepend (unescaped quote d) escaped
    else if c == quote
    then closed [] (d ∷ s)
    else prepend (c ∷ []) rest

-- What one line comes to outside quotes.
pub data Outcome : Type 0 where
  skipped : Outcome
  refused : DotenvIssueCode → Option Text → Outcome
  assigned : Text → Text → Outcome
  quoted : Text → ℕ → Text → Outcome

abbrev key_or_none : Text → Option Text
key_or_none [] = none
key_or_none (c ∷ s) = some (c ∷ s)

abbrev value_of : Text → Text → Outcome
value_of key [] = assigned key []
value_of key (c ∷ s) =
    if c == b'"' || c == b'\'' || c == b'`'
    then quoted key c s
    else assigned key (unquoted_value (c ∷ s))

abbrev assignment_of : List Text → Option (Text × Text) → Outcome
assignment_of seen none = refused invalid_assignment none
assignment_of seen (some (before, behind)) =
    let key = trim before in
    if not (is_key key)
    then refused invalid_key (key_or_none key)
    else if elem_text key seen
    then refused duplicate_key (some key)
    else value_of key (trim_start behind)

abbrev without_export : Text → Text
without_export s =
    if starts_with (codes "export ") s || starts_with (codes "export\t") s
    then trim_start (drop_6 s)
    else s
  where
    drop_6 : Text → Text
    drop_6 (_ ∷ _ ∷ _ ∷ _ ∷ _ ∷ _ ∷ s) = s
    drop_6 s = []

unfoldable pub read_line : List Text → Text → Outcome
unfolding split_at_equals is_key unquoted_value
read_line seen line =
    let assignment = trim_start line in
    if length assignment == 0 || starts_with (codes "#") assignment
    then skipped
    else assignment_of seen (split_at_equals (without_export assignment))
