-- ===== src/Secrets/Export/Dotenv.antt =====
-- A dotenv file that packages/secrets/src/index.ts exports, read by the parser of
-- packages/imports/src/index.ts.
use himitsu.Prelude.{
  ℕ, suc, ◌≡◌, refl, inl, inr, Bool, true, false, ◌&&◌, not, Option, none, some, List, [], ◌∷◌,
  ◌++◌, append_assoc, any, all, All, length, ◌==◌, Bool-cases, arith,
}
use himitsu.Text.{Text, codes, is_space, trim_start, trim_end, keep_before, trim, elem_text}
use himitsu.Errors.{ok}
use himitsu.Imports.{
  all_key_units, DotenvEntry, split_lines, split_at_equals, is_key, read_line, quoted, starts_with,
  without_mark,
}
use himitsu.Imports.Parsing.{with_value, parse_lines, line_step, parse_dotenv}
use himitsu.Secrets.Export.{
  Entry, dotenv, is_exportable, exportable_key, is_word, json_quote, dotenv_line, lines_of,
}
use himitsu.Secrets.Export.Lines.{lines_of-cons}
use himitsu.Secrets.Export.Quoted.{
  IsPlain, is_inline, unit_texts, json_points-paired, scan_quoted-unit_texts, unit_texts_inline,
  all-append,
}
use himitsu.Secrets.Export.Service.{serialize_secret_export}

split_lines-line :
    (line rest : Text)
    → all is_inline line ≡ true
    → split_lines (line ++ 10 ∷ rest) ≡ line ∷ split_lines rest
unfolding split_lines
split_lines-line [] rest h = refl
split_lines-line (c ∷ line) rest h =
    let more = split_lines-line line rest (ground arith) in
    let feed : (c == 10) ≡ false = ground arith in
    let return : (c == 13) ≡ false = ground arith in rw (feed, return, more) refl

-- Names hold no unit of a prefix that is not a name.
starts_with-name :
    (prefix key t : Text)
    → any (λ c. not (is_word c)) prefix ≡ true
    → all (λ c. not (c == b'=')) prefix ≡ true
    → all is_word key ≡ true
    → starts_with prefix (key ++ b'=' ∷ t) ≡ false
starts_with-name [] key t h k good = cc
starts_with-name (p ∷ prefix) [] t h k good = ground arith
starts_with-name (p ∷ prefix) (c ∷ key) t h k good = elim (Bool-cases (p == c)) [
  | inr other ↦ rw other refl
  | inl same ↦
      let equal : p ≡ c = ground arith in
      let word : is_word c ≡ true = ground arith in
      let left : any (λ c. not (is_word c)) prefix ≡ true =
        let same_word : is_word p ≡ true = rw equal word in ground arith in
      let rest = starts_with-name prefix key t left (ground arith) (ground arith) in
      rw (same, rest) refl
]

split_at_equals-name :
    (key t : Text) → all is_word key ≡ true → split_at_equals (key ++ b'=' ∷ t) ≡ some (key, t)
unfolding split_at_equals
split_at_equals-name [] t h = refl
split_at_equals-name (c ∷ key) t h =
    let rest = split_at_equals-name key t (ground arith) in
    let word : is_word c ≡ true = ground arith in
    let other : (c == b'=') ≡ false = ground arith in rw (other, rest) refl

word_not_space : (c : ℕ) → is_word c ≡ true → is_space c ≡ false
unfolding is_space
word_not_space c h = ground arith

trim_end_word : (key : Text) → all is_word key ≡ true → trim_end key ≡ key
unfolding trim_end keep_before
trim_end_word [] h = refl
trim_end_word (c ∷ []) h = rw (word_not_space c (ground arith)) refl
trim_end_word (c ∷ d ∷ key) h = rw (trim_end_word (d ∷ key) (ground arith)) refl

all_word : (key : Text) → is_exportable key ≡ true → all is_word key ≡ true
unfolding is_exportable
all_word [] h = refl
all_word (c ∷ key) h = ground arith

trim_key : (key : Text) → is_exportable key ≡ true → trim key ≡ key
unfolding trim trim_start trim_end
trim_key [] h = refl
trim_key (c ∷ key) h =
    let words = all_word (c ∷ key) h in
    rw (word_not_space c (ground arith)) (trim_end_word (c ∷ key) words)

key_units : (key : Text) → all is_word key ≡ true → all_key_units key ≡ true
key_units [] h = refl
key_units (c ∷ key) h = let rest = key_units key (ground arith) in ground arith

is_key-exportable : (key : Text) → is_exportable key ≡ true → is_key key ≡ true
unfolding is_exportable is_key
is_key-exportable [] h = cc
is_key-exportable (c ∷ key) h = let units = key_units key (ground arith) in ground arith

not_empty : (c : ℕ) (s : Text) → (length (c ∷ s) == 0) ≡ false
not_empty c s = ground arith

-- A quoted assignment, as the parser reads its line.
read_line-quoted :
    (seen : List Text) (key t : Text)
    → is_exportable key ≡ true
    → elem_text key seen ≡ false
    → read_line seen (key ++ b'=' ∷ b'"' ∷ t) ≡ quoted key b'"' t
unfolding read_line is_exportable trim_start is_space
read_line-quoted seen [] t h new = cc
read_line-quoted seen (c ∷ key) t h new =
    let words = all_word (c ∷ key) h in
    let word : is_word c ≡ true = ground arith in
    let space = word_not_space c word in
    let comment : (b'#' == c) ≡ false = ground arith in
    let export_space = starts_with-name (codes "export ") (c ∷ key) (b'"' ∷ t) refl refl words in
    let export_tab = starts_with-name (codes "export\t") (c ∷ key) (b'"' ∷ t) refl refl words in
    let parts = split_at_equals-name (c ∷ key) (b'"' ∷ t) words in
    let trimmed = trim_key (c ∷ key) h in
    let form = is_key-exportable (c ∷ key) h in
    let some_units = not_empty c (key ++ b'=' ∷ b'"' ∷ t) in
    rw (space, some_units, comment, export_space, export_tab, parts, trimmed, form, new) refl

abbrev entry_at : ℕ → Entry → DotenvEntry
entry_at line e = record { key = e.key; value = e.value; line = line }

-- The entries, one in each line.
abbrev pub numbered : ℕ → List Entry → List DotenvEntry
numbered line [] = []
numbered line (e ∷ rest) = entry_at line e ∷ numbered (suc line) rest

-- No key stands twice, nor among those.
abbrev pub are_new : List Text → List Entry → Bool
are_new seen [] = true
are_new seen (e ∷ rest) = not (elem_text e.key seen) && are_new (e.key ∷ seen) rest

abbrev pub ValuesPlain : List Entry → Type 0
ValuesPlain = All (λ e. IsPlain e.value)

quoted_line :
    (e : Entry)
    → IsPlain e.value
    → dotenv_line e ≡ e.key ++ b'=' ∷ b'"' ∷ (unit_texts e.value ++ b'"' ∷ [])
unfolding dotenv_line json_quote
quoted_line e plain = rw (json_points-paired e.value plain) refl

words_inline : (key : Text) → all is_word key ≡ true → all is_inline key ≡ true
words_inline [] h = refl
words_inline (c ∷ key) h = let rest = words_inline key (ground arith) in ground arith

dotenv_line_inline :
    (e : Entry)
    → is_exportable e.key ≡ true
    → IsPlain e.value
    → all is_inline (dotenv_line e) ≡ true
dotenv_line_inline e good plain = rw (quoted_line e plain) (
    all-append e.key (b'=' ∷ b'"' ∷ (unit_texts e.value ++ b'"' ∷ []))
      (words_inline e.key (all_word e.key good))
      (all-append (unit_texts e.value) (b'"' ∷ []) (unit_texts_inline e.value) refl))

line_step-line :
    (line : ℕ) (seen : List Text) (e : Entry)
    → is_exportable e.key ≡ true
    → IsPlain e.value
    → elem_text e.key seen ≡ false
    → line_step line seen none (dotenv_line e) ≡ with_value e.key e.value line seen
unfolding line_step trim trim_start trim_end
line_step-line line seen e good plain new =
    rw
      (
        quoted_line e plain,
        read_line-quoted seen e.key (unit_texts e.value ++ b'"' ∷ []) good new,
        scan_quoted-unit_texts e.value [],
      )
      refl

parse_lines-lines :
    (line : ℕ) (seen : List Text) (entries : List Entry) (content : Text)
    → lines_of dotenv_line entries ≡ ok content
    → ValuesPlain entries
    → are_new seen entries ≡ true
    → parse_lines line seen none (split_lines content)
      ≡ record { entries = numbered line entries; issues = [] }
unfolding parse_lines line_step split_lines lines_of exportable_key read_line trim_start
parse_lines-lines line seen [] content h plain new =
    let same : content ≡ [] = ground (arith, h) in rw same refl
parse_lines-lines line seen (e ∷ rest) content h (plain, plains) new =
    let (text, more, good, same) = lines_of-cons dotenv_line e rest content h in
    let first : elem_text e.key seen ≡ false = ground (arith, new) in
    let later =
      parse_lines-lines (suc line) (e.key ∷ seen) rest text more plains (ground (arith, new)) in
    rw
      (
        same,
        split_lines-line (dotenv_line e) text (dotenv_line_inline e good plain),
        line_step-line line seen e good plain first,
        later,
      )
      refl

without_mark-name : (key t : Text) → is_exportable key ≡ true → without_mark (key ++ t) ≡ key ++ t
unfolding is_exportable
without_mark-name [] t h = cc
without_mark-name (c ∷ key) t h = let other : (c == 0xfeff) ≡ false = ground arith in rw other refl

without_mark-lines :
    (entries : List Entry) (content : Text)
    → lines_of dotenv_line entries ≡ ok content
    → without_mark content ≡ content
unfolding lines_of dotenv_line
without_mark-lines [] content h = let same : content ≡ [] = ground (arith, h) in rw same refl
without_mark-lines (e ∷ rest) content h =
    let (text, _, good, same) = lines_of-cons dotenv_line e rest content h in
    rw (same, append_assoc e.key (b'=' ∷ json_quote e.value) (10 ∷ text))
      (without_mark-name e.key (b'=' ∷ json_quote e.value ++ 10 ∷ text) good)

-- A dotenv export is read back by the dotenv import: an entry for each secret, with its key, its
-- value and the number of its line, in their order, and no issue. No key stands twice, and the
-- values hold code units, no control characters but tabs and line ends, and no lone surrogates;
-- quotes, backslashes, comment signs and line ends in a value are no obstacle.
pub parse_dotenv-serialize :
    (entries : List Entry) (nested : Bool) (delimiter : Option Text) (content : Text)
    → serialize_secret_export entries dotenv nested delimiter ≡ ok content
    → ValuesPlain entries
    → are_new [] entries ≡ true
    → parse_dotenv content ≡ record { entries = numbered 1 entries; issues = [] }
unfolding parse_dotenv serialize_secret_export
parse_dotenv-serialize entries nested delimiter content h plain new =
    rw (without_mark-lines entries content h) (parse_lines-lines 1 [] entries content h plain new)
