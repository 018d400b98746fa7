-- ===== src/Secrets/Export/Shell.antt =====
-- How a POSIX shell reads the `export` lines of `serializeSecretExport` of
-- packages/secrets/src/index.ts.
use himitsu.Prelude.{
  append_assoc, ℕ, ◌≡◌, refl, Bool, true, false, Option, none, some, List, [], ◌∷◌, ◌++◌, all, ◌==◌,
  if◌then◌else◌, Bool-cases, inl, inr, arith, ap,
}
use himitsu.Text.{Text, codes}
use himitsu.Errors.{ok}
use himitsu.Secrets.Export.{
  Entry, shell, is_word, is_exportable, exportable_key, shell_body, shell_line, lines_of,
}
use himitsu.Secrets.Export.Lines.{lines_of-cons}
use himitsu.Secrets.Export.Service.{serialize_secret_export}

-- Where the reader stands: before a command, in the word `export`, in a name, in a word outside or
-- inside single quotes, behind a backslash.
pub data Mode : Type 0 where
  start name word quoted escaped : Mode
  keyword : Text → Mode

-- The rest of the name, the rest of its value, and the later assignments.
pub record Parse : Type 0 where
  pub rest_key : Text
  pub rest_value : Text
  pub later : List Entry

abbrev nothing : Parse
nothing = record { rest_key = []; rest_value = []; later = [] }

abbrev key_unit : ℕ → Option Parse → Option Parse
key_unit c none = none
key_unit c (some p) = some (record p { rest_key = c ∷ p.rest_key })

abbrev value_unit : ℕ → Option Parse → Option Parse
value_unit c none = none
value_unit c (some p) = some (record p { rest_value = c ∷ p.rest_value })

-- The assignment that began here.
abbrev assignment : Option Parse → Option Parse
assignment none = none
assignment (some p) =
    some (record nothing { later = record { key = p.rest_key; value = p.rest_value } ∷ p.later })

-- One command in each line: `export NAME=word`, a word of quoted text, escaped units and letters.
unfoldable pub read : Mode → Text → Option Parse
read start [] = some nothing
read mode [] = none
read start (c ∷ s) =
    let r = read (keyword (codes "xport ")) s in if c == b'e' then assignment r else none
read (keyword []) (c ∷ s) = let r = read name s in if is_word c then key_unit c r else none
read (keyword (k ∷ ks)) (c ∷ s) = let r = read (keyword ks) s in if c == k then r else none
read name (c ∷ s) =
    let value = read word s in
    let more = read name s in
    if c == b'=' then value else if is_word c then key_unit c more else none
read word (c ∷ s) =
    let next = read start s in
    let quote = read quoted s in
    let escape = read escaped s in
    let more = read word s in
    if c == 10
    then next
    else if c == b'\''
    then quote
    else if c == b'\\'
    then escape
    else if is_word c
    then value_unit c more
    else none
read quoted (c ∷ s) =
    let close = read word s in
    let more = read quoted s in if c == b'\'' then close else value_unit c more
read escaped (c ∷ s) = let more = read word s in if c == 10 then none else value_unit c more

unfoldable pub read_script : Text → Option (List Entry)
read_script s = elim (read start s) [ none ↦ none | some p ↦ some p.later ]

abbrev ready : List Entry → Parse
ready es = record nothing { later = es }

abbrev valued : Text → List Entry → Parse
valued v es = record (ready es) { rest_value = v }

abbrev keyed : Text → Text → List Entry → Parse
keyed key v es = record (valued v es) { rest_key = key }

-- Quoted text reads as itself, and the word goes on behind it.
read-shell_body :
    (v t : Text) (es : List Entry)
    → read word t ≡ some (ready es)
    → read quoted (shell_body v ++ b'\'' ∷ t) ≡ some (valued v es)
unfolding read shell_body
read-shell_body [] t es h = h
read-shell_body (c ∷ v) t es h = elim (Bool-cases (c == b'\'')) [
  | inl quote ↦
      let same : c ≡ b'\'' = ground (arith, quote) in
      let rest = read-shell_body v t es h in rw same (ap (value_unit b'\'') rest)
  | inr plain ↦ let rest = read-shell_body v t es h in ground (arith, plain, rest)
]

not_equals : (c : ℕ) → is_word c ≡ true → (c == b'=') ≡ false
not_equals c letter = ground (arith, letter)

read_name_lem :
    (key t : Text) (v : Text) (es : List Entry)
    → all is_word key ≡ true
    → read word t ≡ some (valued v es)
    → read name (key ++ b'=' ∷ t) ≡ some (keyed key v es)
unfolding read
read_name_lem [] t v es good h = h
read_name_lem (c ∷ key) t v es good h =
    let rest : all is_word key ≡ true = ground (arith, good) in
    let letter : is_word c ≡ true = ground (arith, good) in
    let plain : (c == b'=') ≡ false = not_equals c letter in
    let more = read_name_lem key t v es rest h in ground (arith, plain, letter, more)

read_exported_name :
    (key t : Text) (v : Text) (es : List Entry)
    → is_exportable key ≡ true
    → read word t ≡ some (valued v es)
    → read (keyword []) (key ++ b'=' ∷ t) ≡ some (keyed key v es)
unfolding read is_exportable
read_exported_name [] t v es good h = cc
read_exported_name (c ∷ key) t v es good h =
    let rest : all is_word key ≡ true = ground (arith, good) in
    let letter : is_word c ≡ true = ground (arith, good) in
    let more = read_name_lem key t v es rest h in ground (arith, letter, more)

-- A line of an export is one assignment.
line_text :
    (e : Entry) (t : Text)
    → shell_line e ++ 10 ∷ t
      ≡ codes "export " ++ (e.key ++ b'=' ∷ b'\'' ∷ (shell_body e.value ++ b'\'' ∷ 10 ∷ t))
unfolding shell_line
line_text e t = rw (append_assoc e.key) (rw (append_assoc (shell_body e.value)) refl)

read-shell_line :
    (e : Entry) (t : Text) (es : List Entry)
    → is_exportable e.key ≡ true
    → read start t ≡ some (ready es)
    → read start (shell_line e ++ 10 ∷ t) ≡ some (ready (e ∷ es))
unfolding read is_exportable
read-shell_line e t es good h =
    let value = read-shell_body e.value (10 ∷ t) es h in
    rw (line_text e t) (
      ap assignment (
        read_exported_name e.key (b'\'' ∷ (shell_body e.value ++ b'\'' ∷ 10 ∷ t)) e.value es good
          value))

read_lines :
    (entries : List Entry) (content : Text)
    → lines_of shell_line entries ≡ ok content
    → read start content ≡ some (ready entries)
unfolding read lines_of exportable_key
read_lines [] content h = ground (arith, h)
read_lines (e ∷ rest) content h =
    let (text, more, good, same) = lines_of-cons shell_line e rest content h in
    rw same (read-shell_line e text rest good (read_lines rest text more))

-- An export for a shell is a script that a POSIX shell reads as assignments of the same keys to the
-- same values, in their order: no value ends its quotes early, whatever quotes, line breaks or
-- expansions are written in it, and no key is read as anything but a name.
pub read-serialize_shell :
    (entries : List Entry) (nested : Bool) (delimiter : Option Text) (content : Text)
    → serialize_secret_export entries shell nested delimiter ≡ ok content
    → read_script content ≡ some entries
unfolding read_script serialize_secret_export
read-serialize_shell entries nested delimiter content h =
    rw (read_script, read_lines entries content h) refl
