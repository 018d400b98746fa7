-- ===== src/Secrets/Export/Tests.antt =====
-- Exports of two values with quotes, and the theorems at them.
use himitsu.Prelude.{◌≡◌, refl, false, arith, List, none, some, [], ◌∷◌}
use himitsu.Text.{Text, text_eq, codes}
use himitsu.Errors.{ok}
use himitsu.Secrets.Export.{
  Entry, shell, is_exportable, exportable_key, shell_body, shell_line, dotenv_line, json_quote,
  json_points, json_escape, dotenv, lines_of,
}
use himitsu.Secrets.Export.Service.{serialize_secret_export}
use himitsu.Secrets.Export.Dotenv.{numbered, ValuesPlain, parse_dotenv-serialize}
use himitsu.Imports.Parsing.{parse_dotenv}
use himitsu.Secrets.Utf8.{paired, units_of}
use himitsu.Secrets.Export.Shell.{read_script, read-serialize_shell}

abbrev entries : List Entry
entries =
    record { key = codes "API_KEY"; value = codes "it's $(HOME)" }
    ∷ record { key = codes "b"; value = codes "'; rm" }
    ∷ []

exported : (content : Text) × (serialize_secret_export entries shell false none ≡ ok content)
unfolding serialize_secret_export lines_of shell_line shell_body exportable_key is_exportable
exported = (_, refl)

read-serialize_shell_example : read_script exported.0 ≡ some entries
read-serialize_shell_example = read-serialize_shell entries false none exported.0 exported.1

dotenv_exported :
    (content : Text) × (serialize_secret_export entries dotenv false none ≡ ok content)
unfolding serialize_secret_export lines_of dotenv_line json_quote json_points json_escape paired
    units_of exportable_key is_exportable
dotenv_exported = (_, refl)

entries_plain : ValuesPlain entries
unfolding paired
entries_plain = ground arith

parse_dotenv-serialize_example :
    parse_dotenv dotenv_exported.0 ≡ record { entries = numbered 1 entries; issues = [] }
unfolding text_eq
parse_dotenv-serialize_example =
    parse_dotenv-serialize entries false none dotenv_exported.0 dotenv_exported.1 entries_plain refl
