-- ===== src/Secrets/Tests.antt =====
-- The theorems on conflicts, limits, lasting values and imports, at given runs.
use himitsu.Prelude.{
  Option, List, length, find, ℕ, ◌≡◌, none, some, [], ◌∷◌, arith, ◌+◌, ◌≤◌, ◌<◌, ◌*◌,
}
use himitsu.Text.{Text, codes}
use himitsu.Errors.{ok, err, value_too_large}
use himitsu.Database.{Database, SecretVersionRow}
use himitsu.Evaluation.Transparent.{transparent, transparent-IsCipher, master, random}
use himitsu.Crypto.{Bytes}
use himitsu.Secrets.{SetSecretInput, Draws, validate_secret_value, failed}
use himitsu.Secrets.Utf8.{utf8}
use himitsu.Secrets.Store.{decrypt_value, is_version}
use himitsu.Secrets.Changes.{update, rollback}
use himitsu.Secrets.Sealing.{Holds}
use himitsu.Secrets.Lasting.Runs.{stays, goes_on, updates, rolls_back, values_last}
use himitsu.Secrets.Samples.{input, created, updated, rolled, created_keyed, first_history}
use himitsu.Secrets.Limits.{value_limit}
use himitsu.Secrets.Utf8.RoundTrip.{IsText}
use himitsu.Secrets.Conflicts.{Refused, late_writer_fails}

second-IsText : IsText (codes "second")
second-IsText = ground arith

first-IsText : IsText (codes "first")
first-IsText = ground arith

first_value : Holds transparent master created.1 first_history.row 1 (utf8 (codes "first"))
first_value = let (_, held, _) = first_history.texts in held

values_last_example :
    (row : SecretVersionRow) × (find (is_version first_history.row.id 1) rolled.1.secret_versions
      ≡ some row)
    × (decrypt_value transparent master first_history.row row 1 rolled.1
        ≡ (ok (utf8 (codes "first")), rolled.1))
values_last_example =
    values_last transparent master transparent-IsCipher created.1 rolled.1 first_history.row 1
      (utf8 (codes "first")) created_keyed
      (goes_on created.1 updated.1 rolled.1
        (goes_on created.1 created.1 updated.1 (stays created.1) (
          updates 5 (random 4) 50 (some (codes "second")) none none (some 1) none created.1
            updated.1 updated.0 updated.2))
        (rolls_back 5 (random 5) 50 1 none none updated.1 rolled.1 rolled.0 rolled.2))
      first_value

abbrev draws_of : ℕ → Draws
draws_of n = record { secret_id = 60 + n; random = random 6 }

abbrev inputs : List SetSecretInput
inputs = input ∷ record input { key = codes "DB_URL" } ∷ []

abbrev versions : List Text
versions = codes "first" ∷ []

late_writer_fails_example :
    ((value : Option Text) (notes : Option (Option Text)) (change_note : Option Text)
        (tag_ids : Option (List ℕ))
      → Refused
          (update 6 transparent master (random 8) 50 value notes change_note (some 1) tag_ids)
          updated.1)
    × ((target : ℕ) (change_note : Option Text)
        → Refused
            (rollback 6 transparent master (random 8) 50 target (some 1) change_note)
            updated.1)
late_writer_fails_example =
    late_writer_fails transparent transparent-IsCipher master 50 5 6 (random 4) (random 8)
      (codes "second") none none 1 none versions created.1 updated.1 updated.0 created_keyed
      first_history second-IsText updated.2

value_limit_example :
    (length (codes "first") ≤ 21845
      → validate_secret_value (codes "first") ≡ ok (utf8 (codes "first")))
    × (65536 < length (codes "first")
        → validate_secret_value (codes "first") ≡ err (failed value_too_large))
    × ((bytes : Bytes)
        → validate_secret_value (codes "first") ≡ ok bytes
        → (length bytes ≤ 65536)
          × (length (codes "first") ≤ length bytes)
          × (length bytes ≤ 3 * length (codes "first")))
value_limit_example = value_limit (codes "first") first-IsText
