-- ===== src/Imports/Tests.antt =====
-- Given dotenv files, and the theorems at them.
use himitsu.Prelude.{◌+◌, ◌≡◌, refl, true, not, some, [], ◌∷◌, ◌++◌, All, map, count_where, length}
use himitsu.Text.{
  Text, codes, elem_text, distinct_texts, is_space, trim_start, keep_before, trim_end, trim,
  text_eq,
}
use himitsu.Imports.{
  DotenvEntry, is_key, duplicate_key, split_lines, split_at_equals, before_comment, unquoted_value,
  unescaped, closed, scan_quoted, read_line,
}
use himitsu.Imports.Parsing.{line_step, parse_lines, parse_dotenv, build_dotenv_preview}
use himitsu.Imports.Entries.{key_of, parse_dotenv_keys, preview_counts}
use himitsu.Imports.Quoting.{escaped, scan_quoted-escaped}

abbrev file : Text
file = codes "export A=1 # one\nB=\"x\n y\" # two\nA=3\n"

parsed : parse_dotenv file ≡ record {
  entries =
      record { key = codes "A"; value = codes "1"; line = 1 }
      ∷ record { key = codes "B"; value = codes "x\n y"; line = 2 }
      ∷ [];
  issues = record { line = 4; code = duplicate_key; key = some (codes "A") } ∷ [];
}
unfolding is_space trim_start keep_before trim_end trim text_eq is_key split_lines split_at_equals
    before_comment unquoted_value unescaped scan_quoted read_line line_step parse_lines parse_dotenv
parsed = refl

parse_dotenv_keys_example :
    (distinct_texts (map key_of (parse_dotenv file).entries) ≡ true)
    × All (λ (e : DotenvEntry). is_key e.key ≡ true) (parse_dotenv file).entries
parse_dotenv_keys_example = parse_dotenv_keys file

preview_counts_example :
    ((build_dotenv_preview (parse_dotenv file) (codes "A" ∷ [])).adds
      ≡ count_where
          (λ (e : DotenvEntry). not (elem_text e.key (codes "A" ∷ [])))
          (parse_dotenv file).entries)
    × ((build_dotenv_preview (parse_dotenv file) (codes "A" ∷ [])).adds
          + (build_dotenv_preview (parse_dotenv file) (codes "A" ∷ [])).updates
        ≡ length (parse_dotenv file).entries)
    × ((build_dotenv_preview (parse_dotenv file) (codes "A" ∷ [])).conflict_count
        ≡ length (parse_dotenv file).issues)
preview_counts_example = preview_counts (parse_dotenv file) (codes "A" ∷ [])

scan_quoted-escaped_example :
    scan_quoted b'"' (escaped (codes "a\"b\\\n") ++ b'"' ∷ codes " #")
    ≡ closed (codes "a\"b\\\n") (codes " #")
scan_quoted-escaped_example = scan_quoted-escaped (codes "a\"b\\\n") (codes " #")
