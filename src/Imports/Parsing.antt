-- ===== src/Imports/Parsing.antt =====
-- The loop over the lines of a dotenv file, and the preview, of packages/imports/src/index.ts. The
-- loop, in which a quoted value takes further lines, recurses on the lines and keeps the open quote.
use himitsu.Prelude.{
  ℕ, suc, ◌-◌, Bool, true, false, ◌||◌, Option, none, some, List, [], ◌∷◌, ◌++◌, map, count_where,
  length, ◌==◌, if◌then◌else◌,
}
use himitsu.Text.{Text, elem_text, trim, codes}
use himitsu.Imports.{
  DotenvEntry, DotenvIssue, DotenvIssueCode, DotenvParseResult, Outcome, Scan, read_line,
  scan_quoted, split_lines, starts_with, without_mark, unterminated_quote, trailing_content, closed,
  unclosed, skipped, refused, assigned, quoted,
}

-- A quote that is open: its key, the line it began on, the quote, and the value so far.
pub record OpenQuote : Type 0 where
  pub key : Text
  pub line : ℕ
  pub quote : ℕ
  pub value : Text

-- What follows a closing quote must be blank or a comment.
abbrev pub is_blank : Text → Bool
is_blank trailing = let rest = trim trailing in length rest == 0 || starts_with (codes "#") rest

-- What a line adds to the result, and the state behind it: the keys seen and the open quote.
pub record LineStep : Type 0 where
  pub entry : Option DotenvEntry
  pub issue : Option DotenvIssue
  pub seen : List Text
  pub still_open : Option OpenQuote

abbrev passed : List Text → LineStep
passed seen = record { entry = none; issue = none; seen = seen; still_open = none }

abbrev with_problem : DotenvIssueCode → Option Text → ℕ → List Text → LineStep
with_problem code key line seen = record (passed seen) {
  issue = some (record { line = line; code = code; key = key });
}

abbrev pub with_value : Text → Text → ℕ → List Text → LineStep
with_value key value line seen = record {
  entry = some (record { key = key; value = value; line = line });
  issue = none;
  seen = key ∷ seen;
  still_open = none;
}

-- A line, or the rest of it, inside quotes.
abbrev pub inside : List Text → OpenQuote → Scan → LineStep
inside seen q (unclosed value) = record (passed seen) {
  still_open = some (record q { value = q.value ++ value ++ 10 ∷ [] });
}
inside seen q (closed value trailing) =
    if is_blank trailing
    then with_value q.key (q.value ++ value) q.line seen
    else with_problem trailing_content (some q.key) q.line seen

abbrev pub outside : ℕ → List Text → Outcome → LineStep
outside line seen skipped = passed seen
outside line seen (refused code key) = with_problem code key line seen
outside line seen (assigned key value) = with_value key value line seen
outside line seen (quoted key quote text) =
    inside seen (record { key = key; line = line; quote = quote; value = [] })
      (scan_quoted quote text)

-- The body of the loop over the lines.
unfoldable pub line_step : ℕ → List Text → Option OpenQuote → Text → LineStep
unfolding read_line scan_quoted
line_step line seen none text = outside line seen (read_line seen text)
line_step line seen (some q) text = inside seen q (scan_quoted q.quote text)

abbrev pub added {ℓ} : {A : Type ℓ} → Option A → List A → List A
added none rest = rest
added (some a) rest = a ∷ rest

abbrev pub collect : LineStep → DotenvParseResult → DotenvParseResult
collect s rest = record { entries = added s.entry rest.entries; issues = added s.issue rest.issues }

-- The loop, from a line number on.
unfoldable pub parse_lines : ℕ → List Text → Option OpenQuote → List Text → DotenvParseResult
unfolding line_step
parse_lines line seen none [] = record { entries = []; issues = [] }
parse_lines line seen (some q) [] = record {
  entries = [];
  issues = record { line = q.line; code = unterminated_quote; key = some q.key } ∷ [];
}
parse_lines line seen q (text ∷ rest) =
    let s = line_step line seen q text in
    collect s (parse_lines (suc line) s.seen s.still_open rest)

unfoldable pub parse_dotenv : Text → DotenvParseResult
unfolding split_lines parse_lines
parse_dotenv source = parse_lines 1 [] none (split_lines (without_mark source))

pub data Operation : Type 0 where
  add update : Operation

pub record DotenvPreviewEntry : Type 0 where
  pub key : Text
  pub line : ℕ
  pub operation : Operation

pub record DotenvPreview : Type 0 where
  pub entries : List DotenvPreviewEntry
  pub conflicts : List DotenvIssue
  pub adds : ℕ
  pub updates : ℕ
  pub conflict_count : ℕ

abbrev pub preview_entry : List Text → DotenvEntry → DotenvPreviewEntry
preview_entry existing_keys e = record {
  key = e.key;
  line = e.line;
  operation = if elem_text e.key existing_keys then update else add;
}

abbrev pub is_add : DotenvPreviewEntry → Bool
is_add e = elim e.operation [ add ↦ true | update ↦ false ]

unfoldable pub build_dotenv_preview : DotenvParseResult → List Text → DotenvPreview
build_dotenv_preview parsed existing_keys =
    let entries = map (preview_entry existing_keys) parsed.entries in
    let adds = count_where is_add entries in
    record {
      entries = entries;
      conflicts = parsed.issues;
      adds = adds;
      updates = length entries - adds;
      conflict_count = length parsed.issues;
    }
