-- ===== src/Imports/Entries.antt =====
-- What the entries of a parsed dotenv file are.
use himitsu.Prelude.{
  ℕ, suc, ◌+◌, ◌≤◌, ◌≡◌, refl, inl, inr, true, false, ◌||◌, not, Option, none, some, List, [], ◌∷◌,
  All, map, count_where, length, ◌==◌, if◌then◌else◌, Bool-cases, arith,
}
use himitsu.Text.{Text, text_eq_iff, elem_text, distinct_texts, trim, trim_start, codes}
use himitsu.Imports.{
  DotenvEntry, DotenvParseResult, is_key, split_at_equals, Scan, closed, unclosed, scan_quoted,
  Outcome, skipped, refused, assigned, quoted, value_of, unquoted_value, assignment_of, starts_with,
  without_export, read_line, split_lines, without_mark,
}
use himitsu.Imports.Parsing.{
  added, OpenQuote, LineStep, inside, outside, is_blank, line_step, parse_lines, parse_dotenv,
  build_dotenv_preview, preview_entry, is_add,
}

-- A new key in valid form.
abbrev IsNew : List Text → Text → Type 0
IsNew seen key = (is_key key ≡ true) × (elem_text key seen ≡ false)

abbrev OutcomeIsNew : List Text → Outcome → Type 0
OutcomeIsNew seen (assigned key value) = IsNew seen key
OutcomeIsNew seen (quoted key quote text) = IsNew seen key
OutcomeIsNew seen _ = Unit

abbrev QuoteIsNew : List Text → Option OpenQuote → Type 0
QuoteIsNew seen none = Unit
QuoteIsNew seen (some q) = IsNew seen q.key

-- The step adds a new key and marks it as seen, or adds none and leaves the keys as they were.
abbrev StepIsNew : List Text → LineStep → Option DotenvEntry → Type 0
StepIsNew seen s none = (s.seen ≡ seen) × QuoteIsNew seen s.still_open
StepIsNew seen s (some e) = IsNew seen e.key × (s.seen ≡ e.key ∷ seen) × (s.still_open ≡ none)

value_of-OutcomeIsNew :
    (seen : List Text) (key text : Text) → IsNew seen key → OutcomeIsNew seen (value_of key text)
value_of-OutcomeIsNew seen key [] new = new
value_of-OutcomeIsNew seen key (c ∷ s) new =
    elim (c == b'"' || c == b'\'' || c == b'`')
      as (λ b.
        OutcomeIsNew seen (if b then quoted key c s else assigned key (unquoted_value (c ∷ s)))) [
          | true ↦ new
          | false ↦ new
        ]

assignment_of-OutcomeIsNew :
    (seen : List Text) (split : Option (Text × Text)) → OutcomeIsNew seen (assignment_of seen split)
assignment_of-OutcomeIsNew seen none = tt
assignment_of-OutcomeIsNew seen (some (before, behind)) = elim (Bool-cases (is_key (trim before))) [
  | inr bad ↦ rw bad tt
  | inl good ↦ elim (Bool-cases (elem_text (trim before) seen)) [
    | inl twice ↦ rw (good, twice) tt
    | inr fresh ↦
        rw (good, fresh)
          (value_of-OutcomeIsNew seen (trim before) (trim_start behind) (good, fresh))
  ]
]

read_line-OutcomeIsNew : (seen : List Text) (line : Text) → OutcomeIsNew seen (read_line seen line)
unfolding read_line
read_line-OutcomeIsNew seen line =
    elim (Bool-cases (length (trim_start line) == 0 || starts_with (codes "#") (trim_start line))) [
      | inl skip ↦ rw skip tt
      | inr read ↦
          rw read
            (assignment_of-OutcomeIsNew seen (split_at_equals (without_export (trim_start line))))
    ]

inside-StepIsNew :
    (seen : List Text) (q : OpenQuote) (s : Scan)
    → IsNew seen q.key
    → StepIsNew seen (inside seen q s) (inside seen q s).entry
inside-StepIsNew seen q (unclosed value) new = (refl, new)
inside-StepIsNew seen q (closed value trailing) new = elim (Bool-cases (is_blank trailing)) [
  | inl blank ↦ rw blank (new, refl, refl)
  | inr more ↦ rw more (refl, tt)
]

outside-StepIsNew :
    (line : ℕ) (seen : List Text) (o : Outcome)
    → OutcomeIsNew seen o
    → StepIsNew seen (outside line seen o) (outside line seen o).entry
outside-StepIsNew line seen skipped new = (refl, tt)
outside-StepIsNew line seen (refused code key) new = (refl, tt)
outside-StepIsNew line seen (assigned key value) new = (new, refl, refl)
outside-StepIsNew line seen (quoted key quote text) new =
    inside-StepIsNew seen (record { key = key; line = line; quote = quote; value = [] })
      (scan_quoted quote text) new

line_step-StepIsNew :
    (line : ℕ) (seen : List Text) (q : Option OpenQuote) (text : Text)
    → QuoteIsNew seen q
    → StepIsNew seen (line_step line seen q text) (line_step line seen q text).entry
unfolding line_step
line_step-StepIsNew line seen none text new =
    outside-StepIsNew line seen (read_line seen text) (read_line-OutcomeIsNew seen text)
line_step-StepIsNew line seen (some q) text new =
    inside-StepIsNew seen q (scan_quoted q.quote text) new

abbrev pub key_of : DotenvEntry → Text
key_of e = e.key

-- The keys of the entries are valid, distinct, and none of those seen.
abbrev EntriesAreNew : List Text → List DotenvEntry → Type 0
EntriesAreNew seen entries =
    (distinct_texts (map key_of entries) ≡ true)
    × All (λ (e : DotenvEntry). IsNew seen e.key) entries

fresh_behind :
    (seen : List Text) (key : Text) (entries : List DotenvEntry)
    → All (λ (e : DotenvEntry). IsNew (key ∷ seen) e.key) entries
    → (elem_text key (map key_of entries) ≡ false)
      × All (λ (e : DotenvEntry). IsNew seen e.key) entries
fresh_behind seen key [] h = (refl, tt)
fresh_behind seen key (e ∷ rest) ((valid, fresh), hs) =
    let (apart, others) = fresh_behind seen key rest hs in
    (
      ground (arith, apart, fresh, text_eq_iff key e.key, text_eq_iff e.key key),
      ((valid, ground (arith, fresh)), others),
    )

collect-EntriesAreNew :
    (seen : List Text) (s : LineStep) (o : Option DotenvEntry) (rest : List DotenvEntry)
    → StepIsNew seen s o
    → EntriesAreNew s.seen rest
    → EntriesAreNew seen (added o rest)
collect-EntriesAreNew seen s none rest (same, _) h = rw (← same) h
collect-EntriesAreNew seen s (some e) rest (new, same, _) (once, h) =
    let (apart, others) = fresh_behind seen e.key rest (rw same at h) in
    (rw apart once, (new, others))

step-QuoteIsNew :
    (seen : List Text) (s : LineStep) (o : Option DotenvEntry)
    → StepIsNew seen s o
    → QuoteIsNew s.seen s.still_open
step-QuoteIsNew seen s none (same, q) = rw same q
step-QuoteIsNew seen s (some e) (new, same, done) = rw done tt

parse_lines-EntriesAreNew :
    (line : ℕ) (seen : List Text) (q : Option OpenQuote) (lines : List Text)
    → QuoteIsNew seen q
    → EntriesAreNew seen (parse_lines line seen q lines).entries
unfolding parse_lines
parse_lines-EntriesAreNew line seen none [] new = (refl, tt)
parse_lines-EntriesAreNew line seen (some q) [] new = (refl, tt)
parse_lines-EntriesAreNew line seen none (text ∷ rest) new =
    let s = line_step line seen none text in
    let valid = line_step-StepIsNew line seen none text new in
    collect-EntriesAreNew seen s s.entry _ valid (
      parse_lines-EntriesAreNew (suc line) s.seen s.still_open rest
        (step-QuoteIsNew seen s s.entry valid))
parse_lines-EntriesAreNew line seen (some q) (text ∷ rest) new =
    let s = line_step line seen (some q) text in
    let valid = line_step-StepIsNew line seen (some q) text new in
    collect-EntriesAreNew seen s s.entry _ valid (
      parse_lines-EntriesAreNew (suc line) s.seen s.still_open rest
        (step-QuoteIsNew seen s s.entry valid))

-- The keys that the parser returns match the key pattern, and no key comes twice.
pub parse_dotenv_keys :
    (source : Text)
    → (distinct_texts (map key_of (parse_dotenv source).entries) ≡ true)
      × All (λ (e : DotenvEntry). is_key e.key ≡ true) (parse_dotenv source).entries
unfolding parse_dotenv
parse_dotenv_keys source =
    let (once, new) = parse_lines-EntriesAreNew 1 [] none (split_lines (without_mark source)) tt in
    (once, valid_keys (parse_lines 1 [] none (split_lines (without_mark source))).entries new)
  where
    valid_keys :
        (entries : List DotenvEntry)
        → All (λ (e : DotenvEntry). IsNew [] e.key) entries
        → All (λ (e : DotenvEntry). is_key e.key ≡ true) entries
    valid_keys [] h = tt
    valid_keys (e ∷ rest) ((valid, _), hs) = (valid, valid_keys rest hs)

preview_adds :
    (existing : List Text) (entries : List DotenvEntry)
    → (count_where is_add (map (preview_entry existing) entries)
        ≡ count_where (λ (e : DotenvEntry). not (elem_text e.key existing)) entries)
      × (length (map (preview_entry existing) entries) ≡ length entries)
      × (count_where is_add (map (preview_entry existing) entries) ≤ length entries)
preview_adds existing [] = (refl, refl, omega arith)
preview_adds existing (e ∷ rest) =
    let (adds, same, most) = preview_adds existing rest in
    (ground (arith, adds), ground (arith, same), ground (arith, most))

-- The summary of a preview: an entry counts as an addition where its key does not exist yet, and as
-- an update otherwise; both together are all entries; and every issue is a conflict.
pub preview_counts :
    (parsed : DotenvParseResult) (existing : List Text)
    → ((build_dotenv_preview parsed existing).adds
        ≡ count_where (λ (e : DotenvEntry). not (elem_text e.key existing)) parsed.entries)
      × ((build_dotenv_preview parsed existing).adds
            + (build_dotenv_preview parsed existing).updates
          ≡ length parsed.entries)
      × ((build_dotenv_preview parsed existing).conflict_count ≡ length parsed.issues)
unfolding build_dotenv_preview
preview_counts parsed existing =
    let (adds, same, most) = preview_adds existing parsed.entries in
    (adds, omega (arith, same, most), refl)
